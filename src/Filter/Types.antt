-- ===== src/Filter/Types.antt =====
-- A stream of the catalog and the compiled filter of a source: the parts of types.Stream of
-- work/types/types.go that the filter reads, CompiledFilter of work/filter/filter.go and
-- compiledRule of work/filter/rules.go. `R` is the type of compiled patterns; nil is `none`.
use kptv_proxy.Prelude.{Bool, Option, List}
use kptv_proxy.Text.{Text, codes}
use kptv_proxy.Text.Maps.{TextMap}
use kptv_proxy.Config.Rules.{FilterRule}

abbrev pub content_live : Text
content_live = codes "live"

abbrev pub content_vod : Text
content_vod = codes "vod"

abbrev pub content_series : Text
content_series = codes "series"

pub record Stream : Type 0 where
  pub url : Text
  pub name : Text
  pub attributes : TextMap Text
  pub content_type : Text

pub record CompiledRule (R : Type 0) : Type 0 where
  pub field : Text
  pub include : Bool
  pub pattern : R
  pub origin : Text
  pub rule : FilterRule

-- GroupSet is a set of keys. A nil ImportTypes imports every type.
pub record CompiledFilter (R : Type 0) : Type 0 where
  pub rules : List (CompiledRule R)
  pub rule_default : Text
  pub group_mode : Text
  pub group_set : List Text
  pub group_regex : Option R
  pub import_types : Option (List Text)
  pub group_types : TextMap Text
  pub live_category : Option R
  pub vod_category : Option R
  pub series_category : Option R
  pub live_include : Option R
  pub live_exclude : Option R
  pub series_include : Option R
  pub series_exclude : Option R
  pub vod_include : Option R
  pub vod_exclude : Option R
  pub quality_tiers : List R
