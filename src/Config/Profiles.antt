-- ===== src/Config/Profiles.antt =====
-- A source's settings, the rules and the default that it is filtered by, and whether it has any
-- filter at all: SourceConfig of work/config/config.go as far as the import filter reads it, and
-- EffectiveRules, EffectiveDefault, FilterProfileByName, HasContentFilters and ImportsType.
use kptv_proxy.Prelude.{
  Bool, true, false, ◌||◌, not, Option, none, some, List, [], ◌∷◌, ◌++◌, map, if◌then◌else◌, ℕ,
}
use kptv_proxy.Text.{Text, codes, is_empty, text_eq, contains}
use kptv_proxy.Text.Maps.{TextMap}
use kptv_proxy.Config.Rules.{FilterRule, FilterProfile, default_keep, default_drop}

pub record SourceConfig : Type 0 where
  pub name : Text
  pub url : Text
  pub max_failures_before_block : ℕ
  pub live_include_regex : Text
  pub live_exclude_regex : Text
  pub series_include_regex : Text
  pub series_exclude_regex : Text
  pub vod_include_regex : Text
  pub vod_exclude_regex : Text
  pub live_category_regex : Text
  pub vod_category_regex : Text
  pub series_category_regex : Text
  pub group_filter_mode : Text
  pub group_filter_list : List Text
  pub group_filter_regex : Text
  pub import_types : List Text
  pub group_type_overrides : TextMap Text
  pub filter_profile : Text
  pub filter_rules : List FilterRule
  pub filter_default : Text
  pub quality_dedupe : Bool
  pub quality_tiers : List Text

abbrev pub is_nil {ℓ} : {A : Type ℓ} → List A → Bool
is_nil [] = true
is_nil (x ∷ xs) = false

unfoldable pub has_content_filters : SourceConfig → Bool
has_content_filters s =
    not (is_empty s.filter_profile)
    || not (is_nil s.filter_rules)
    || text_eq s.filter_default default_drop
    || s.quality_dedupe
    || not (is_empty s.group_filter_mode)
    || not (is_empty s.group_filter_regex)
    || not (is_nil s.import_types)
    || not (is_nil s.group_type_overrides)
    || not (is_empty s.live_category_regex)
    || not (is_empty s.vod_category_regex)
    || not (is_empty s.series_category_regex)
    || not (is_empty s.live_include_regex)
    || not (is_empty s.live_exclude_regex)
    || not (is_empty s.series_include_regex)
    || not (is_empty s.series_exclude_regex)
    || not (is_empty s.vod_include_regex)
    || not (is_empty s.vod_exclude_regex)

unfoldable pub imports_type : SourceConfig → Text → Bool
imports_type s content_type =
    if is_nil s.import_types then true else contains s.import_types content_type

-- The profiles of a Config.
unfoldable pub filter_profile_by_name : List FilterProfile → Text → Option FilterProfile
filter_profile_by_name [] name = none
filter_profile_by_name (p ∷ profiles) name =
    if text_eq p.name name then some p else filter_profile_by_name profiles name

abbrev pub profile_of : List FilterProfile → SourceConfig → Option FilterProfile
profile_of profiles s =
    if is_empty s.filter_profile then none else filter_profile_by_name profiles s.filter_profile

abbrev pub origin_source : Text
origin_source = codes "source"

-- One loop of EffectiveRules: each rule, and where it came from.
abbrev pub attribute : Text → List FilterRule → List FilterRule × List Text
attribute origin rules = (rules, map (λ _. origin) rules)

unfoldable pub effective_rules : List FilterProfile → SourceConfig → List FilterRule × List Text
effective_rules profiles s =
    let (own, own_origins) = attribute origin_source s.filter_rules in
    elim (profile_of profiles s) [
      | none ↦ (own, own_origins)
      | some p ↦
          let (shared, shared_origins) = attribute (codes "profile:" ++ p.name) p.rules in
          (shared ++ own, shared_origins ++ own_origins)
    ]

unfoldable pub effective_default : List FilterProfile → SourceConfig → Text
effective_default profiles s =
    if not (is_empty s.filter_default) then s.filter_default else elim (profile_of profiles s) [
      | none ↦ default_keep
      | some p ↦ if is_empty p.default_action then default_keep else p.default_action
    ]

-- ruleSet and resolveRules of work/filter/filter.go; `none` is a nil config.
pub record RuleSet : Type 0 where
  pub rules : List FilterRule
  pub origins : List Text
  pub def : Text

unfoldable pub resolve_rules : SourceConfig → Option (List FilterProfile) → RuleSet
unfolding effective_rules effective_default
resolve_rules s none = record {
  rules = s.filter_rules;
  origins = map (λ _. origin_source) s.filter_rules;
  def = if is_empty s.filter_default then default_keep else s.filter_default;
}
resolve_rules s (some profiles) = record {
  rules = (effective_rules profiles s).0;
  origins = (effective_rules profiles s).1;
  def = effective_default profiles s;
}
