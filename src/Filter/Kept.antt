-- ===== src/Filter/Kept.antt =====
-- The streams that a pass of Apply returns.
use kptv_proxy.Prelude.{
  ℕ, ◌≡◌, refl, ap, ap₂, ◌∙◌, Bool, ◌&&◌, Option, none, some, List, [], ◌∷◌, map, if◌then◌else◌,
  arith,
}
use kptv_proxy.Text.{Text, Unicode}
use kptv_proxy.Config.Rules.{Regexps}
use kptv_proxy.Config.Groups.{group_key}
use kptv_proxy.Filter.Types.{Stream, CompiledFilter, CompiledRule}
use kptv_proxy.Filter.Rules.{Decision, group_of}
use kptv_proxy.Filter.Verdicts.{first_match, decision_of, rule_verdict-first}
use kptv_proxy.Filter.Stages.{match_subjects, passes_group_filter, gate, should_include_stream}
use kptv_proxy.Filter.Quality.{Outcome, apply_quality_dedupe}
use kptv_proxy.Filter.QualityStage.{sweep, marks, apply_quality_dedupe-sweep}
use kptv_proxy.Filter.Report.{
  Report, new_report, start_rules, observe_rules, observe_with, settle, default_keeps, counts_of,
  observe,
}
use kptv_proxy.Filter.Apply.{
  Options, collect, judge, judge_all, narrow, apply_filter, rule_number, add_verdict,
}
use kptv_proxy.Filter.ApplyLaws.{stamp}

-- The streams of the outcomes that are kept, in order.
abbrev pub kept_streams : List Outcome → List Stream
kept_streams [] = []
kept_streams (o ∷ os) = if o.keep then o.stream ∷ kept_streams os else kept_streams os

pub collect-kept_streams :
    (verdicts : Bool) (r : Report) (os : List Outcome) → (collect verdicts r os).0 ≡ kept_streams os
unfolding collect
collect-kept_streams verdicts r [] = refl
collect-kept_streams verdicts r (o ∷ os) =
    ap (λ l. if o.keep then o.stream ∷ l else l)
      (collect-kept_streams verdicts
        (add_verdict verdicts o
          (observe r o.group_name o.group_key o.content_type o.stream.name o.keep))
        os)

module _ (u : Unicode) (lib : Regexps) (vod_regex : Option lib.Regexp)
    (f : CompiledFilter lib.Regexp) where
  -- What the ordered rules say of a stream: the action of the first one that matches, or the default.
  abbrev pub verdict_by : Decision → Bool × Option ℕ
  verdict_by d = elim d.decided_by [
    | none ↦ (default_keeps lib f, none)
    | some i ↦ (d.keep, some i)
  ]

  abbrev pub rules_say : Stream → Bool × Option ℕ
  rules_say s = verdict_by (
      decision_of lib (stamp u lib vod_regex f s) (group_of s)
        (first_match lib (stamp u lib vod_regex f s) (group_of s) 0 f.rules))

  settle-verdict_by :
      (r : Report) (d : Decision) → ((settle lib r f d).1, (settle lib r f d).2) ≡ verdict_by d
  unfolding settle
  settle-verdict_by r d = ground arith

  -- The outcome of a stream of which the rules say `p`.
  abbrev pub outcome_with : Stream → Bool × Option ℕ → Outcome
  outcome_with s p =
      let stamped = stamp u lib vod_regex f s in
      let group = group_of s in
      let key = group_key u group in
      let (keep, stage) =
        narrow u lib vod_regex f group key stamped.content_type (match_subjects u s) p in
      record {
        stream = stamped;
        group_name = group;
        group_key = key;
        content_type = stamped.content_type;
        keep = keep;
        stage = stage;
        rule_index = rule_number p.1;
      }

  abbrev pub outcome_of : Stream → Outcome
  outcome_of s = outcome_with s (rules_say s)

  observe_with-verdict_by :
      (rules : List (CompiledRule lib.Regexp)) (r : Report) (s : Stream) (group : Text) (b : Bool)
      → ((observe_with lib rules r f s group b).1, (observe_with lib rules r f s group b).2)
        ≡ verdict_by (decision_of lib s group (first_match lib s group 0 rules))
  unfolding observe_with
  observe_with-verdict_by [] r s group b = unfold first_match in refl
  observe_with-verdict_by (rule ∷ rules) r s group b =
      settle-verdict_by _ _
      ∙ ap verdict_by (rule_verdict-first lib s group b (rule ∷ rules) (counts_of lib r.matched))

  judge-outcome_of :
      (b : Bool) (r : Report) (s : Stream) → (judge u lib vod_regex f b r s).1 ≡ outcome_of s
  unfolding judge observe_rules
  judge-outcome_of b r s =
      ap (outcome_with s)
        (observe_with-verdict_by f.rules r (stamp u lib vod_regex f s) (group_of s) b)

  judge_all-outcome_of :
      (b : Bool) (r : Report) (streams : List Stream)
      → (judge_all u lib vod_regex f b r streams).1 ≡ map outcome_of streams
  unfolding judge_all
  judge_all-outcome_of b r [] = refl
  judge_all-outcome_of b r (s ∷ streams) =
      ap₂ ◌∷◌ (judge-outcome_of b r s)
        (judge_all-outcome_of b (judge u lib vod_regex f b r s).0 streams)

  -- The streams that a pass returns, in their order in the catalog and stamped with the types that
  -- they are filtered as: those which the first matching rule keeps, or the default if none
  -- matches, and which then pass the group filter, the type gate and the type's patterns, less
  -- those that the quality stage drops. The options do not matter.
  pub apply_filter-kept :
      (opts : Options) (streams : List Stream)
      → (apply_filter u lib vod_regex f opts streams).0 ≡ (
          let os = map outcome_of streams in
          kept_streams (sweep u lib f.quality_tiers (marks u lib f.quality_tiers os) os).0)
  unfolding apply_filter
  apply_filter-kept opts streams =
      let judged =
        judge_all u lib vod_regex f opts.rule_stats (start_rules lib new_report f opts.rule_stats)
          streams in
      collect-kept_streams opts.verdicts
        (record (judged.0) { quality_dropped = (apply_quality_dedupe u lib f judged.1).1 })
        (apply_quality_dedupe u lib f judged.1).0
      ∙ ap (λ p. kept_streams p.0) (apply_quality_dedupe-sweep u lib f judged.1)
      ∙ ap (λ os. kept_streams (sweep u lib f.quality_tiers (marks u lib f.quality_tiers os) os).0)
          (judge_all-outcome_of opts.rule_stats (start_rules lib new_report f opts.rule_stats)
            streams)

  outcome_of-keep :
      (s : Stream)
      → (outcome_of s).keep ≡ (
          (rules_say s).0
          && passes_group_filter u lib f (group_of s) (group_key u (group_of s))
          && gate u lib f (stamp u lib vod_regex f s).content_type
          && should_include_stream u lib f
              (stamp u lib vod_regex f s).content_type
              (match_subjects u s))
  unfolding narrow
  outcome_of-keep s = ground arith

  -- The loop over the catalog keeps a stream for the quality stage exactly if the first matching
  -- rule keeps it, or the default if none matches, and the group filter, the type gate and the
  -- patterns of its type all pass it. Neither the counting of matches nor the report so far has a
  -- part in this.
  pub judge-keep :
      (b : Bool) (r : Report) (s : Stream)
      → (judge u lib vod_regex f b r s).1.keep ≡ (
          (rules_say s).0
          && passes_group_filter u lib f (group_of s) (group_key u (group_of s))
          && gate u lib f (stamp u lib vod_regex f s).content_type
          && should_include_stream u lib f
              (stamp u lib vod_regex f s).content_type
              (match_subjects u s))
  judge-keep b r s = ap (λ (o : Outcome). o.keep) (judge-outcome_of b r s) ∙ outcome_of-keep s
