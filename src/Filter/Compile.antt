-- ===== src/Filter/Compile.antt =====
-- GetOrCreateFilter of work/filter/filter.go: compiling a source's settings, and the manager's cache
-- of compiled filters under the source's URL, recognised as stale by a signature.
use kptv_proxy.Prelude.{
  Bool, true, false, Option, none, some, List, [], ◌∷◌, ◌++◌, map, if◌then◌else◌,
}
use kptv_proxy.Text.{Text, Unicode, codes, is_empty, text_eq, join}
use kptv_proxy.Text.Maps.{TextMap, lookup, insert, delete}
use kptv_proxy.Text.Order.{text_lt, sort_stable}
use kptv_proxy.Config.Rules.{Regexps, FilterRule, FilterProfile}
use kptv_proxy.Config.Groups.{group_key}
use kptv_proxy.Config.Profiles.{SourceConfig, RuleSet, resolve_rules, is_nil}
use kptv_proxy.Filter.Types.{CompiledFilter}
use kptv_proxy.Filter.Rules.{compile_rules}

abbrev pub default_quality_tiers : List Text
default_quality_tiers =
    codes "4k|uhd|2160p" ∷ codes "fhd|full ?hd|1080p" ∷ codes "hd|720p" ∷ codes "sd|480p" ∷ []

abbrev pub quality_tier_pattern : Text → Text
quality_tier_pattern tier = codes "(?i)\\b(?:" ++ (tier ++ codes ")\\b")

abbrev pub format_bool : Bool → Text
format_bool true = codes "true"
format_bool false = codes "false"

-- One rule in the signature; the fields are separated by a bar.
abbrev pub sign_rule : Text → FilterRule → Text
sign_rule origin r =
    origin ++ (codes "|" ++ (r.field ++ (codes "|" ++ (r.action ++ (codes "|" ++ r.pattern_text)))))

-- resolve_rules gives one origin for each rule. The source indexes the origins and would panic on
-- fewer; the second clause only makes the function total.
abbrev pub sign_rules : List FilterRule → List Text → List Text
sign_rules [] origins = []
sign_rules (r ∷ rules) [] = []
sign_rules (r ∷ rules) (o ∷ origins) = sign_rule o r ∷ sign_rules rules origins

-- The forced types as lines of the signature.
abbrev pub override_line : Text × Text → Text
override_line e = e.0 ++ (codes "=" ++ e.1)

abbrev pub signature_parts : SourceConfig → RuleSet → List Text
signature_parts s rs =
    join (2 ∷ []) (rs.def ∷ sign_rules rs.rules rs.origins)
    ∷ s.live_category_regex
    ∷ s.vod_category_regex
    ∷ s.series_category_regex
    ∷ s.live_include_regex
    ∷ s.live_exclude_regex
    ∷ s.series_include_regex
    ∷ s.series_exclude_regex
    ∷ s.vod_include_regex
    ∷ s.vod_exclude_regex
    ∷ s.group_filter_mode
    ∷ join (1 ∷ []) s.group_filter_list
    ∷ s.group_filter_regex
    ∷ join (1 ∷ []) s.import_types
    ∷ join (1 ∷ []) (sort_stable text_lt (map override_line s.group_type_overrides))
    ∷ format_bool s.quality_dedupe
    ∷ join (1 ∷ []) s.quality_tiers
    ∷ []

unfoldable pub filter_signature : SourceConfig → RuleSet → Text
filter_signature s rs = join (0 ∷ []) (signature_parts s rs)

-- The forced types by group key; the groups are taken in sorted order, so the last one wins.
abbrev pub force_types : Unicode → TextMap Text → TextMap Text → TextMap Text
force_types u forced [] = forced
force_types u forced ((group, t) ∷ rest) = force_types u (insert (group_key u group) t forced) rest

abbrev pub entry_less : Text × Text → Text × Text → Bool
entry_less (a, _) (b, _) = text_lt a b

module _ (u : Unicode) (lib : Regexps) where
  open lib use {Regexp, compile}

  -- An empty pattern is no filter, and so is one that does not compile.
  unfoldable pub compile_pattern : Text → Option Regexp
  compile_pattern pattern_text = if is_empty pattern_text then none else compile pattern_text

  unfoldable pub compile_tiers : List Text → List Regexp
  compile_tiers [] = []
  compile_tiers (tier ∷ tiers) =
      let rest = compile_tiers tiers in
      elim (compile_pattern (quality_tier_pattern tier)) [ none ↦ rest | some p ↦ p ∷ rest ]

  unfoldable pub build_filter : SourceConfig → RuleSet → CompiledFilter Regexp
  unfolding compile_pattern
  build_filter s rs = record {
    rules = compile_rules lib rs.rules rs.origins;
    rule_default = rs.def;
    group_mode = s.group_filter_mode;
    group_set = map (group_key u) s.group_filter_list;
    group_regex = compile_pattern s.group_filter_regex;
    import_types = if is_nil s.import_types then none else some s.import_types;
    group_types = force_types u [] (sort_stable entry_less s.group_type_overrides);
    live_category = compile_pattern s.live_category_regex;
    vod_category = compile_pattern s.vod_category_regex;
    series_category = compile_pattern s.series_category_regex;
    live_include = compile_pattern s.live_include_regex;
    live_exclude = compile_pattern s.live_exclude_regex;
    series_include = compile_pattern s.series_include_regex;
    series_exclude = compile_pattern s.series_exclude_regex;
    vod_include = compile_pattern s.vod_include_regex;
    vod_exclude = compile_pattern s.vod_exclude_regex;
    quality_tiers =
        if s.quality_dedupe
        then compile_tiers
            (if is_nil s.quality_tiers then default_quality_tiers else s.quality_tiers)
        else [];
  }

  -- The manager's map: a filter with its signature.
  abbrev pub FilterManager : Type 0
  FilterManager = TextMap (Text × CompiledFilter Regexp)

  unfoldable pub clear_filters : FilterManager → FilterManager
  clear_filters fm = []

  unfoldable pub remove_filter : FilterManager → Text → FilterManager
  remove_filter fm source_url = delete source_url fm

  -- A miss, or a stale entry that was deleted: compile and store.
  abbrev pub store_filter :
      FilterManager → SourceConfig → RuleSet → FilterManager × CompiledFilter Regexp
  store_filter fm s rs =
      let f = build_filter s rs in (insert s.url (filter_signature s rs, f) fm, f)

  unfoldable pub get_or_create_filter :
      FilterManager
      → SourceConfig
      → Option (List FilterProfile)
      → FilterManager × CompiledFilter Regexp
  get_or_create_filter fm s cfg =
      let rs = resolve_rules s cfg in
      elim (lookup s.url fm) [
        | none ↦ store_filter fm s rs
        | some (signature, f) ↦
            if text_eq signature (filter_signature s rs)
            then (fm, f)
            else store_filter (delete s.url fm) s rs
      ]
