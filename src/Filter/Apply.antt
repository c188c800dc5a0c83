-- ===== src/Filter/Apply.antt =====
-- Apply and FilterStreams of work/filter/filter.go: a whole pass over a source's catalog.
use kptv_proxy.Prelude.{
  ℕ, suc, Bool, true, false, not, Option, none, some, List, [], ◌∷◌, ◌++◌, if◌then◌else◌,
}
use kptv_proxy.Text.{Text, Unicode}
use kptv_proxy.Config.Rules.{Regexps, FilterProfile}
use kptv_proxy.Config.Groups.{group_key}
use kptv_proxy.Config.Profiles.{SourceConfig, has_content_filters}
use kptv_proxy.Filter.Types.{Stream, CompiledFilter}
use kptv_proxy.Filter.Rules.{group_of}
use kptv_proxy.Filter.Stages.{
  match_subjects, resolve_content_type, content_type_of_stream, passes_group_filter, gate,
  should_include_stream,
}
use kptv_proxy.Filter.Quality.{Stage, Outcome, apply_quality_dedupe}
use kptv_proxy.Filter.Report.{
  Report, Verdict, new_report, observe, finish, start_rules, observe_rules,
}
use kptv_proxy.Filter.Compile.{FilterManager, get_or_create_filter}

-- Options.
pub record Options : Type 0 where
  pub rule_stats : Bool
  pub verdicts : Bool

abbrev pub verdict_of : Outcome → Verdict
verdict_of o = record {
  name = o.stream.name;
  group_name = o.group_name;
  content_type = o.content_type;
  kept = o.keep;
  stage = o.stage;
  rule_index = o.rule_index;
}

abbrev pub add_verdict : Bool → Outcome → Report → Report
add_verdict true o r = record r { verdicts = r.verdicts ++ verdict_of o ∷ [] }
add_verdict false o r = r

-- The last loop: every outcome goes into the report, and what is kept is returned.
unfoldable pub collect : Bool → Report → List Outcome → List Stream × Report
collect verdicts r [] = ([], r)
collect verdicts r (o ∷ os) =
    let seen = observe r o.group_name o.group_key o.content_type o.stream.name o.keep in
    let (kept, r') = collect verdicts (add_verdict verdicts o seen) os in
    (if o.keep then o.stream ∷ kept else kept, r')

-- The stage that settles a stream, and whether it is kept.
abbrev pub rule_stage : Option ℕ → Stage
rule_stage none = Stage.default
rule_stage (some i) = Stage.rule

abbrev pub rule_number : Option ℕ → ℕ
rule_number none = 0
rule_number (some i) = suc i

module _ (u : Unicode) (lib : Regexps) (vod_regex : Option lib.Regexp) where
  open lib use {Regexp}

  -- The later stages, asked only of what the rules keep.
  unfoldable pub narrow :
      CompiledFilter Regexp → Text → Text → Text → List Text → Bool × Option ℕ → Bool × Stage
  narrow f group key content_type subjects (keep, decided_by) =
      if not keep
      then (false, rule_stage decided_by)
      else if not (passes_group_filter u lib f group key)
      then (false, Stage.group)
      else if not (gate u lib f content_type)
      then (false, Stage.type)
      else if not (should_include_stream u lib f content_type subjects)
      then (false, Stage.pattern_stage)
      else (true, rule_stage decided_by)

  -- The body of the first loop: a stream's outcome before the quality stage.
  unfoldable pub judge : CompiledFilter Regexp → Bool → Report → Stream → Report × Outcome
  judge f with_stats r s =
      let group = group_of s in
      let key = group_key u group in
      let subjects = match_subjects u s in
      let content_type = resolve_content_type u lib vod_regex s f subjects key in
      let stamped : Stream = record s { content_type = content_type } in
      let (r', keep, decided_by) = observe_rules lib r f stamped group with_stats in
      let (kept, stage) = narrow f group key content_type subjects (keep, decided_by) in
      (
        r',
        record {
          stream = stamped;
          group_name = group;
          group_key = key;
          content_type = content_type;
          keep = kept;
          stage = stage;
          rule_index = rule_number decided_by;
        },
      )

  unfoldable pub judge_all :
      CompiledFilter Regexp → Bool → Report → List Stream → Report × List Outcome
  judge_all f with_stats r [] = (r, [])
  judge_all f with_stats r (s ∷ streams) =
      let (r', o) = judge f with_stats r s in
      let (r'', os) = judge_all f with_stats r' streams in (r'', o ∷ os)

  -- A pass with a compiled filter.
  unfoldable pub apply_filter : CompiledFilter Regexp → Options → List Stream → List Stream × Report
  apply_filter f opts streams =
      let (r, os) =
        judge_all f opts.rule_stats (start_rules lib new_report f opts.rule_stats) streams in
      let (final, dropped) = apply_quality_dedupe u lib f os in
      let (kept, r') = collect opts.verdicts (record r { quality_dropped = dropped }) final in
      (kept, finish r')

  -- The outcome of a stream of a source that has no filters.
  unfoldable pub pass : Stream → Outcome
  pass s =
      let group = group_of s in
      let content_type = content_type_of_stream u lib vod_regex s in
      record {
        stream = record s { content_type = content_type };
        group_name = group;
        group_key = group_key u group;
        content_type = content_type;
        keep = true;
        stage = Stage.default;
        rule_index = 0;
      }

  unfoldable pub pass_all : List Stream → List Outcome
  pass_all [] = []
  pass_all (s ∷ streams) = pass s ∷ pass_all streams

  -- Without filters every stream is kept, and only the report is made.
  unfoldable pub apply_unfiltered : Options → List Stream → List Stream × Report
  apply_unfiltered opts streams =
      let (kept, r) = collect opts.verdicts new_report (pass_all streams) in (kept, finish r)

  unfoldable pub apply :
      FilterManager u lib
      → SourceConfig
      → Option (List FilterProfile)
      → Options
      → List Stream
      → FilterManager u lib × List Stream × Report
  apply fm source cfg opts streams =
      let (all, plain) = apply_unfiltered opts streams in
      let (fm', f) = get_or_create_filter u lib fm source cfg in
      let (kept, r) = apply_filter f opts streams in
      if not (has_content_filters source) then (fm, all, plain) else (fm', kept, r)

  unfoldable pub filter_streams :
      FilterManager u lib
      → SourceConfig
      → Option (List FilterProfile)
      → List Stream
      → FilterManager u lib × List Stream
  filter_streams fm source cfg streams =
      let (fm', kept, r) =
        apply fm source cfg (record { rule_stats = false; verdicts = false }) streams in
      (fm', kept)
