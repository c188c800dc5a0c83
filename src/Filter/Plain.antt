-- ===== src/Filter/Plain.antt =====
-- The filter that a source without filters compiles to: work/filter/filter.go.
use kptv_proxy.Prelude.{
  ◌≡◌, refl, ap, Bool, true, false, not, Option, none, some, List, [], ◌∷◌, arith,
}
use kptv_proxy.Text.{Text, Unicode, is_empty, text_eq}
use kptv_proxy.Config.Rules.{Regexps, FilterProfile, default_drop, FilterRule}
use kptv_proxy.Config.Profiles.{
  SourceConfig, has_content_filters, is_nil, resolve_rules, effective_rules, effective_default,
}
use kptv_proxy.Filter.Types.{CompiledFilter}
use kptv_proxy.Filter.Report.{default_keeps}
use kptv_proxy.Filter.Compile.{build_filter, compile_pattern, force_types, entry_less}
use kptv_proxy.Filter.Rules.{compile_rules}
use kptv_proxy.Text.Order.{sort_stable}
use kptv_proxy.Text.Maps.{TextMap}

-- No filter of any kind is configured.
pub record IsPlain (s : SourceConfig) : Type 0 where
  profile : is_empty s.filter_profile ≡ true
  rules : is_nil s.filter_rules ≡ true
  keeps : text_eq s.filter_default default_drop ≡ false
  dedupe : s.quality_dedupe ≡ false
  mode : is_empty s.group_filter_mode ≡ true
  group_regex : is_empty s.group_filter_regex ≡ true
  types : is_nil s.import_types ≡ true
  overrides : is_nil s.group_type_overrides ≡ true
  live_category : is_empty s.live_category_regex ≡ true
  vod_category : is_empty s.vod_category_regex ≡ true
  series_category : is_empty s.series_category_regex ≡ true
  live_include : is_empty s.live_include_regex ≡ true
  live_exclude : is_empty s.live_exclude_regex ≡ true
  series_include : is_empty s.series_include_regex ≡ true
  series_exclude : is_empty s.series_exclude_regex ≡ true
  vod_include : is_empty s.vod_include_regex ≡ true
  vod_exclude : is_empty s.vod_exclude_regex ≡ true

pub no_filters-IsPlain : (s : SourceConfig) → has_content_filters s ≡ false → IsPlain s
unfolding has_content_filters
no_filters-IsPlain s h = ground arith

-- A filter that does nothing.
pub record IsOpen (lib : Regexps) (f : CompiledFilter lib.Regexp) : Type 0 where
  pub rules : f.rules ≡ []
  pub keeps : default_keeps lib f ≡ true
  pub mode : is_empty f.group_mode ≡ true
  pub types : f.import_types ≡ none
  pub forced : f.group_types ≡ []
  pub live_category : f.live_category ≡ none
  pub vod_category : f.vod_category ≡ none
  pub series_category : f.series_category ≡ none
  pub live_include : f.live_include ≡ none
  pub live_exclude : f.live_exclude ≡ none
  pub series_include : f.series_include ≡ none
  pub series_exclude : f.series_exclude ≡ none
  pub vod_include : f.vod_include ≡ none
  pub vod_exclude : f.vod_exclude ≡ none
  pub tiers : f.quality_tiers ≡ []

eq_nil : {A : Type 0} (xs : List A) → is_nil xs ≡ true → xs ≡ []
eq_nil [] h = refl
eq_nil (x ∷ xs) h = cc

sort_stable_nil :
    {A : Type 0} (less : A → A → Bool) (xs : List A) → is_nil xs ≡ true → sort_stable less xs ≡ []
unfolding sort_stable
sort_stable_nil less [] h = refl
sort_stable_nil less (x ∷ xs) h = cc

force_types_nil : (u : Unicode) (xs : TextMap Text) → xs ≡ [] → force_types u [] xs ≡ []
force_types_nil u [] h = refl
force_types_nil u (x ∷ xs) h = cc

module _ (u : Unicode) (lib : Regexps) where
  compile_pattern_blank : (p : Text) → is_empty p ≡ true → compile_pattern u lib p ≡ none
  unfolding compile_pattern
  compile_pattern_blank p h = rw h

  compile_rules_nil :
      (rules : List FilterRule) (origins : List Text)
      → is_nil rules ≡ true
      → compile_rules lib rules origins ≡ []
  unfolding compile_rules
  compile_rules_nil [] origins h = refl
  compile_rules_nil (r ∷ rules) origins h = cc

module _ (u : Unicode) (lib : Regexps) (s : SourceConfig) where
  resolve_rules_nil :
      (cfg : Option (List FilterProfile)) → IsPlain s → is_nil (resolve_rules s cfg).rules ≡ true
  unfolding resolve_rules effective_rules
  resolve_rules_nil none p = p.rules
  resolve_rules_nil (some profiles) p = ground (arith, p.rules, p.profile)

  resolve_rules_keeps :
      (cfg : Option (List FilterProfile))
      → IsPlain s
      → text_eq (resolve_rules s cfg).def default_drop ≡ false
  unfolding resolve_rules effective_default text_eq
  resolve_rules_keeps none p = ground (arith, p.keeps)
  resolve_rules_keeps (some profiles) p = ground (arith, p.keeps, p.profile)

  pub build_filter-IsOpen :
      (cfg : Option (List FilterProfile))
      → IsPlain s
      → IsOpen lib (build_filter u lib s (resolve_rules s cfg))
  unfolding build_filter
  build_filter-IsOpen cfg p = record {
    rules =
        compile_rules_nil u lib (resolve_rules s cfg).rules (resolve_rules s cfg).origins
          (resolve_rules_nil cfg p);
    keeps = ap not (resolve_rules_keeps cfg p);
    mode = p.mode;
    types = rw p.types;
    forced =
        force_types_nil u (sort_stable entry_less s.group_type_overrides)
          (sort_stable_nil entry_less s.group_type_overrides p.overrides);
    live_category = compile_pattern_blank u lib s.live_category_regex p.live_category;
    vod_category = compile_pattern_blank u lib s.vod_category_regex p.vod_category;
    series_category = compile_pattern_blank u lib s.series_category_regex p.series_category;
    live_include = compile_pattern_blank u lib s.live_include_regex p.live_include;
    live_exclude = compile_pattern_blank u lib s.live_exclude_regex p.live_exclude;
    series_include = compile_pattern_blank u lib s.series_include_regex p.series_include;
    series_exclude = compile_pattern_blank u lib s.series_exclude_regex p.series_exclude;
    vod_include = compile_pattern_blank u lib s.vod_include_regex p.vod_include;
    vod_exclude = compile_pattern_blank u lib s.vod_exclude_regex p.vod_exclude;
    tiers = rw p.dedupe;
  }
