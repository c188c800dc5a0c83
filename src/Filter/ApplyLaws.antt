-- ===== src/Filter/ApplyLaws.antt =====
-- The report of a pass of Apply.
use kptv_proxy.Prelude.{
  ℕ, suc, ◌+◌, ◌≡◌, refl, sym, ap, ◌∙◌, Bool, true, false, Option, List, [], ◌∷◌, length, arith,
}
use kptv_proxy.Text.{Text, Unicode}
use kptv_proxy.Config.Rules.{Regexps}
use kptv_proxy.Filter.Types.{Stream, CompiledFilter, CompiledRule}
use kptv_proxy.Filter.Rules.{Decision, rule_verdict, group_of}
use kptv_proxy.Filter.Quality.{Outcome, Mark, apply_quality_dedupe}
use kptv_proxy.Filter.Report.{
  Report, GroupStat, TypeStat, observe, finish, bump, new_report, observe_rules, observe_with,
  settle, counts_of, put_counts, start_rules,
}
use kptv_proxy.Filter.Apply.{collect, add_verdict, judge, judge_all, apply_filter, Options}
use kptv_proxy.Filter.ReportLaws.{AddsUp, observe-AddsUp, finish-AddsUp, new_report-AddsUp, sum_of}
use kptv_proxy.Filter.Stages.{resolve_content_type, match_subjects}
use kptv_proxy.Config.Groups.{group_key}
use kptv_proxy.Filter.QualityStage.{sweep, marks, apply_quality_dedupe-sweep}

-- One round of the last loop on the report.
abbrev record_outcome : Bool → Report → Outcome → Report
record_outcome verdicts r o =
    add_verdict verdicts o (observe r o.group_name o.group_key o.content_type o.stream.name o.keep)

record_outcome-AddsUp :
    (verdicts : Bool) (r : Report) (o : Outcome) → AddsUp r → AddsUp (record_outcome verdicts r o)
record_outcome-AddsUp true r o v =
    let a = observe-AddsUp r o.group_name o.group_key o.content_type o.stream.name o.keep v in
    record {
      groups_total = a.groups_total;
      groups_kept = a.groups_kept;
      types_total = a.types_total;
      types_kept = a.types_kept;
    }
record_outcome-AddsUp false r o v =
    observe-AddsUp r o.group_name o.group_key o.content_type o.stream.name o.keep v

record_outcome_counts :
    (verdicts : Bool) (r : Report) (o : Outcome)
    → ((record_outcome verdicts r o).total ≡ r.total + 1)
      × ((record_outcome verdicts r o).kept ≡ bump o.keep r.kept)
unfolding observe
record_outcome_counts true r o = (refl, refl)
record_outcome_counts false r o = (refl, refl)

-- What the last loop makes of a report.
record Collected (r : Report) (os : List Outcome) (out : List Stream × Report) : Type 0 where
  adds_up : AddsUp out.1
  total_eq : out.1.total ≡ r.total + length os
  kept_eq : out.1.kept ≡ r.kept + length out.0

collect-Collected :
    (verdicts : Bool) (r : Report) (os : List Outcome)
    → AddsUp r
    → Collected r os (collect verdicts r os)
unfolding collect
collect-Collected verdicts r [] v = record {
  adds_up = v;
  total_eq = omega arith;
  kept_eq = omega arith;
}
collect-Collected verdicts r (o ∷ os) v =
    let c =
      collect-Collected verdicts (record_outcome verdicts r o) os
        (record_outcome-AddsUp verdicts r o v) in
    record {
      adds_up = c.adds_up;
      total_eq = omega (arith, c.total_eq, record_outcome_counts verdicts r o);
      kept_eq = ground (arith, c.kept_eq, record_outcome_counts verdicts r o);
    }

module _ (u : Unicode) (lib : Regexps) (vod_regex : Option lib.Regexp) where
  -- The first loop leaves the counts alone.
  record Untouched (r r' : Report) : Type 0 where
    same_total : r'.total ≡ r.total
    same_kept : r'.kept ≡ r.kept
    same_types : r'.by_type ≡ r.by_type
    same_groups : r'.groups ≡ r.groups

  -- The stream with the type that it is filtered as.
  abbrev pub stamp : CompiledFilter lib.Regexp → Stream → Stream
  stamp f s = record s {
    content_type =
        resolve_content_type u lib vod_regex s f (match_subjects u s) (group_key u (group_of s));
  }

  settle-Untouched :
      (r : Report) (f : CompiledFilter lib.Regexp) (d : Decision) → Untouched r (settle lib r f d).0
  unfolding settle
  settle-Untouched r f d = ground arith

  observe_with-Untouched :
      (rules : List (CompiledRule lib.Regexp)) (r : Report) (f : CompiledFilter lib.Regexp)
      (s : Stream) (group : Text) (b : Bool)
      → Untouched r (observe_with lib rules r f s group b).0
  unfolding observe_with
  observe_with-Untouched [] r f s group b = record {
    same_total = refl;
    same_kept = refl;
    same_types = refl;
    same_groups = refl;
  }
  observe_with-Untouched (rule ∷ rules) r f s group b =
      let (d, ns) = rule_verdict lib s group b (rule ∷ rules) (counts_of lib r.matched) in
      let v = settle-Untouched (record r { matched = put_counts lib r.matched ns }) f d in
      record {
        same_total = v.same_total;
        same_kept = v.same_kept;
        same_types = v.same_types;
        same_groups = v.same_groups;
      }

  Untouched-trans : {r r' r'' : Report} → Untouched r r' → Untouched r' r'' → Untouched r r''
  Untouched-trans v w = record {
    same_total = w.same_total ∙ v.same_total;
    same_kept = w.same_kept ∙ v.same_kept;
    same_types = w.same_types ∙ v.same_types;
    same_groups = w.same_groups ∙ v.same_groups;
  }

  judge-Untouched :
      (f : CompiledFilter lib.Regexp) (b : Bool) (r : Report) (s : Stream)
      → Untouched r (judge u lib vod_regex f b r s).0
  unfolding judge observe_rules
  judge-Untouched f b r s = observe_with-Untouched f.rules r f (stamp f s) (group_of s) b

  judge_all-Untouched :
      (f : CompiledFilter lib.Regexp) (b : Bool) (r : Report) (streams : List Stream)
      → Untouched r (judge_all u lib vod_regex f b r streams).0
  unfolding judge_all
  judge_all-Untouched f b r [] = record {
    same_total = refl;
    same_kept = refl;
    same_types = refl;
    same_groups = refl;
  }
  judge_all-Untouched f b r (s ∷ streams) =
      Untouched-trans (judge-Untouched f b r s)
        (judge_all-Untouched f b (judge u lib vod_regex f b r s).0 streams)

  Untouched-AddsUp : {r r' : Report} → Untouched r r' → AddsUp r → AddsUp r'
  Untouched-AddsUp {r} {r'} w v = record {
    groups_total =
        ap (sum_of (λ (g : GroupStat). g.total)) w.same_groups ∙ v.groups_total ∙ sym w.same_total;
    groups_kept =
        ap (sum_of (λ (g : GroupStat). g.kept)) w.same_groups ∙ v.groups_kept ∙ sym w.same_kept;
    types_total =
        ap (sum_of (λ (t : TypeStat). t.total)) w.same_types ∙ v.types_total ∙ sym w.same_total;
    types_kept =
        ap (sum_of (λ (t : TypeStat). t.kept)) w.same_types ∙ v.types_kept ∙ sym w.same_kept;
  }

  length-judge_all :
      (f : CompiledFilter lib.Regexp) (b : Bool) (r : Report) (streams : List Stream)
      → length (judge_all u lib vod_regex f b r streams).1 ≡ length streams
  unfolding judge_all
  length-judge_all f b r [] = refl
  length-judge_all f b r (s ∷ streams) =
      ap suc (length-judge_all f b (judge u lib vod_regex f b r s).0 streams)

  length-sweep :
      (tiers : List lib.Regexp) (all : List (Option Mark)) (os : List Outcome)
      → length (sweep u lib tiers all os).0 ≡ length os
  length-sweep tiers all [] = refl
  length-sweep tiers all (o ∷ os) = ground (arith, length-sweep tiers all os)

  -- The report of a pass adds up: it counts every stream of the catalog and every stream that the
  -- pass returns, and so do its groups together and its types together.
  pub apply_filter-AddsUp :
      (f : CompiledFilter lib.Regexp) (opts : Options) (streams : List Stream)
      → let (kept, r) = apply_filter u lib vod_regex f opts streams in
        AddsUp r × (r.total ≡ length streams) × (r.kept ≡ length kept)
  unfolding apply_filter finish start_rules new_report
  apply_filter-AddsUp f opts streams =
      let c = collect-Collected opts.verdicts base final.0 base-AddsUp in
      (
        finish-AddsUp _ c.adds_up,
        omega (
          arith,
          c.total_eq,
          untouched.same_total,
          ap (λ p. length p.0) (apply_quality_dedupe-sweep u lib f judged.1),
          length-sweep f.quality_tiers (marks u lib f.quality_tiers judged.1) judged.1,
          length-judge_all f opts.rule_stats begun streams,
        ),
        omega (arith, c.kept_eq, untouched.same_kept),
      )
    where
      begun : Report
      begun = start_rules lib new_report f opts.rule_stats

      judged : Report × List Outcome
      judged = judge_all u lib vod_regex f opts.rule_stats begun streams

      final : List Outcome × ℕ
      final = apply_quality_dedupe u lib f judged.1

      base : Report
      base = record (judged.0) { quality_dropped = final.1 }

      untouched : Untouched new_report judged.0
      untouched =
          Untouched-trans
            (record { same_total = refl; same_kept = refl; same_types = refl; same_groups = refl })
            (judge_all-Untouched f opts.rule_stats begun streams)

      base-AddsUp : AddsUp base
      base-AddsUp =
          let v = Untouched-AddsUp untouched new_report-AddsUp in
          record {
            groups_total = v.groups_total;
            groups_kept = v.groups_kept;
            types_total = v.types_total;
            types_kept = v.types_kept;
          }
