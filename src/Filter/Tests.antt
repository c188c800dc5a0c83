-- ===== src/Filter/Tests.antt =====
-- A pass over a small catalog, and the theorems on it.
use kptv_proxy.Prelude.{
  ◌≡◌, refl, Bool, true, false, ◌&&◌, none, some, List, [], ◌∷◌, ◌++◌, map, length,
}
use kptv_proxy.Text.{Text, codes, text_eq}
use kptv_proxy.Text.Ascii.{ascii}
use kptv_proxy.Config.Rules.{field_name, field_group, default_drop}
use kptv_proxy.Config.Groups.{group_key}
use kptv_proxy.Config.Profiles.{SourceConfig, has_content_filters, resolve_rules}
use kptv_proxy.Config.Literals.{literals}
use kptv_proxy.Filter.Types.{Stream, CompiledRule, CompiledFilter, content_live}
use kptv_proxy.Filter.Rules.{rule_verdict, group_of}
use kptv_proxy.Filter.Verdicts.{first_match, decision_of, rule_verdict-first}
use kptv_proxy.Filter.Stages.{match_subjects, passes_group_filter, gate, should_include_stream}
use kptv_proxy.Filter.Quality.{Outcome, apply_quality_dedupe}
use kptv_proxy.Filter.QualityLaws.{least}
use kptv_proxy.Filter.QualityStage.{
  sweep, marks, apply_quality_dedupe-sweep, apply_quality_dedupe-least,
}
use kptv_proxy.Filter.Report.{new_report}
use kptv_proxy.Filter.ReportLaws.{AddsUp}
use kptv_proxy.Filter.Compile.{build_filter}
use kptv_proxy.Filter.Apply.{Options, judge, apply_filter, apply_unfiltered}
use kptv_proxy.Filter.ApplyLaws.{stamp, apply_filter-AddsUp}
use kptv_proxy.Filter.Kept.{kept_streams, outcome_of, rules_say, apply_filter-kept, judge-keep}
use kptv_proxy.Filter.Unfiltered.{apply_filter-unfiltered, stamped}

abbrev channel : Text → Text → Stream
channel group name = record {
  url = codes "http://x/1";
  name = name;
  attributes = (codes "group-title", group) ∷ [];
  content_type = content_live;
}

abbrev catalog : List Stream
catalog =
    channel (codes "News") (codes "One HD")
    ∷ channel (codes "News") (codes "One SD")
    ∷ channel (codes "Adult") (codes "Two HD")
    ∷ channel (codes "Kids") (codes "Three SD")
    ∷ []

abbrev rule_of : Text → Bool → Text → CompiledRule Text
rule_of field include p = record {
  field = field;
  include = include;
  pattern = p;
  origin = codes "source";
  rule = record { field = field; action = []; pattern_text = p; note = [] };
}

abbrev rules : List (CompiledRule Text)
rules =
    rule_of field_group false (codes "Adult")
    ∷ rule_of field_name true (codes "HD")
    ∷ rule_of field_group true (codes "News")
    ∷ []

abbrev small_filter : CompiledFilter Text
small_filter = record {
  rules = rules;
  rule_default = default_drop;
  group_mode = [];
  group_set = [];
  group_regex = none;
  import_types = some (content_live ∷ []);
  group_types = [];
  live_category = none;
  vod_category = none;
  series_category = none;
  live_include = none;
  live_exclude = some (codes "xxx");
  series_include = none;
  series_exclude = none;
  vod_include = none;
  vod_exclude = none;
  quality_tiers = codes "HD" ∷ codes "SD" ∷ [];
}

abbrev counting : Options
counting = record { rule_stats = true; verdicts = true }

abbrev plain : SourceConfig
plain = record {
  name = codes "A";
  url = codes "http://x";
  max_failures_before_block = 5;
  live_include_regex = [];
  live_exclude_regex = [];
  series_include_regex = [];
  series_exclude_regex = [];
  vod_include_regex = [];
  vod_exclude_regex = [];
  live_category_regex = [];
  vod_category_regex = [];
  series_category_regex = [];
  group_filter_mode = [];
  group_filter_list = codes "News" ∷ [];
  group_filter_regex = [];
  import_types = [];
  group_type_overrides = [];
  filter_profile = [];
  filter_rules = [];
  filter_default = [];
  quality_dedupe = false;
  quality_tiers = [];
}

abbrev judged : List Outcome
judged = map (outcome_of ascii literals none small_filter) catalog

rule_verdict-first_example :
    (rule_verdict literals
      (channel (codes "Adult") (codes "Two HD"))
      (codes "Adult")
      true
      rules
      []).0
    ≡ decision_of literals
        (channel (codes "Adult") (codes "Two HD"))
        (codes "Adult")
        (first_match literals (channel (codes "Adult") (codes "Two HD")) (codes "Adult") 0 rules)
rule_verdict-first_example =
    rule_verdict-first literals (channel (codes "Adult") (codes "Two HD")) (codes "Adult") true
      rules []

apply_filter-kept_example :
    (apply_filter ascii literals none small_filter counting catalog).0
    ≡ kept_streams
        (sweep ascii literals small_filter.quality_tiers
          (marks ascii literals small_filter.quality_tiers judged)
          judged).0
apply_filter-kept_example = apply_filter-kept ascii literals none small_filter counting catalog

judge-keep_example :
    let s = channel (codes "Adult") (codes "Two HD") in
    (judge ascii literals none small_filter true new_report s).1.keep ≡ (
      (rules_say ascii literals none small_filter s).0
      && passes_group_filter ascii literals small_filter (group_of s) (group_key ascii (group_of s))
      && gate ascii literals small_filter (stamp ascii literals none small_filter s).content_type
      && should_include_stream ascii literals small_filter
          (stamp ascii literals none small_filter s).content_type
          (match_subjects ascii s))
judge-keep_example =
    judge-keep ascii literals none small_filter true new_report
      (channel (codes "Adult") (codes "Two HD"))

apply_quality_dedupe-sweep_example :
    apply_quality_dedupe ascii literals small_filter judged
    ≡ sweep ascii literals small_filter.quality_tiers
        (marks ascii literals small_filter.quality_tiers judged)
        judged
apply_quality_dedupe-sweep_example = apply_quality_dedupe-sweep ascii literals small_filter judged

apply_quality_dedupe-least_example :
    least (content_live ++ (0 ∷ codes "one")) (
      marks ascii literals small_filter.quality_tiers
        (apply_quality_dedupe ascii literals small_filter judged).0)
    ≡ least
        (content_live ++ (0 ∷ codes "one"))
        (marks ascii literals small_filter.quality_tiers judged)
apply_quality_dedupe-least_example =
    apply_quality_dedupe-least ascii literals small_filter judged
      (content_live ++ (0 ∷ codes "one"))

apply_filter-AddsUp_example :
    let (kept, r) = apply_filter ascii literals none small_filter counting catalog in
    AddsUp r × (r.total ≡ length catalog) × (r.kept ≡ length kept)
apply_filter-AddsUp_example = apply_filter-AddsUp ascii literals none small_filter counting catalog

plain_has_none : has_content_filters plain ≡ false
unfolding has_content_filters text_eq
plain_has_none = refl

apply_filter-unfiltered_example :
    ((apply_filter ascii literals none
        (build_filter ascii literals plain (resolve_rules plain none))
        counting
        catalog).0
      ≡ (apply_unfiltered ascii literals none counting catalog).0)
    × ((apply_unfiltered ascii literals none counting catalog).0
        ≡ map (stamped ascii literals none) catalog)
apply_filter-unfiltered_example =
    apply_filter-unfiltered ascii literals none plain none counting catalog plain_has_none
