-- ===== src/Filter/Stages.antt =====
-- The stages of the filter for one stream: work/filter/filter.go, and ContentTypeOfStream of
-- work/utils/utils.go. `vod_regex` is the package's VodRegex, nil until it is initialised.
use kptv_proxy.Prelude.{
  Bool, true, false, ◌&&◌, ◌||◌, not, Option, none, some, List, [], ◌∷◌, if◌then◌else◌,
}
use kptv_proxy.Text.{Text, Unicode, codes, is_empty, text_eq, has_prefix, contains, to_lower}
use kptv_proxy.Text.Maps.{lookup}
use kptv_proxy.Config.Rules.{Regexps}
use kptv_proxy.Filter.Types.{Stream, CompiledFilter, content_live, content_vod, content_series}
use kptv_proxy.Filter.Rules.{group_attribute_keys, attribute, group_subject, matches_any}

abbrev pub group_filter_exclude : Text
group_filter_exclude = codes "exclude"

-- strings.Contains
unfoldable pub contains_text : Text → Text → Bool
unfolding has_prefix
contains_text [] part = has_prefix [] part
contains_text (c ∷ s) part = has_prefix (c ∷ s) part || contains_text s part

-- The sniffing of one group attribute: a type, or on to the next attribute.
unfoldable pub sniff_group : Text → Option Text
sniff_group group =
    if contains_text group (codes "series")
    then some content_series
    else if contains_text group (codes "vod") || contains_text group (codes "movie")
    then some content_vod
    else if contains_text group (codes "live") || contains_text group (codes "tv")
    then some content_live
    else none

abbrev pub or_type : Option Text → Text → Text
or_type none t = t
or_type (some s) t = s

-- The subjects that are not empty once lowered and trimmed.
unfoldable pub tidy_subjects : Unicode → List Text → List Text
unfolding group_subject
tidy_subjects u [] = []
tidy_subjects u (value ∷ values) =
    let s = group_subject u value in
    let rest = tidy_subjects u values in if is_empty s then rest else s ∷ rest

unfoldable pub match_subjects : Unicode → Stream → List Text
unfolding tidy_subjects attribute
match_subjects u s =
    tidy_subjects u
      (s.name ∷ attribute s (codes "group-title") ∷ attribute s (codes "tvg-group") ∷ s.url ∷ [])

module _ (u : Unicode) (lib : Regexps) where
  open lib use {Regexp, match_string}

  -- A pattern that is nil matches nothing.
  unfoldable pub hits : Option Regexp → Text → Bool
  hits none s = false
  hits (some p) s = match_string p s

  unfoldable pub hits_any : Option Regexp → List Text → Bool
  hits_any none subjects = false
  hits_any (some p) subjects = matches_any lib p subjects

  unfoldable pub sniff_groups : Stream → List Text → Text
  sniff_groups s [] = content_live
  sniff_groups s (key ∷ keys) =
      or_type (sniff_group (to_lower u (attribute s key))) (sniff_groups s keys)

  unfoldable pub content_type_of_stream : Option Regexp → Stream → Text
  content_type_of_stream vod_regex s =
      if contains (content_live ∷ content_vod ∷ content_series ∷ []) s.content_type
      then s.content_type
      else if hits vod_regex s.name || hits vod_regex s.url
      then content_vod
      else sniff_groups s group_attribute_keys

  unfoldable pub resolve_content_type :
      Option Regexp → Stream → CompiledFilter Regexp → List Text → Text → Text
  resolve_content_type vod_regex s f subjects key = elim (lookup key f.group_types) [
    | some forced ↦ forced
    | none ↦
        if hits_any f.series_category subjects
        then content_series
        else if hits_any f.vod_category subjects
        then content_vod
        else if hits_any f.live_category subjects
        then content_live
        else content_type_of_stream vod_regex s
  ]

  unfoldable pub passes_group_filter : CompiledFilter Regexp → Text → Text → Bool
  passes_group_filter f group key =
      let matched = contains f.group_set key || hits f.group_regex (group_subject u group) in
      if is_empty f.group_mode
      then true
      else if text_eq f.group_mode group_filter_exclude
      then not matched
      else matched

  -- CompiledFilter.importsType
  unfoldable pub gate : CompiledFilter Regexp → Text → Bool
  gate f content_type = elim f.import_types [
    | none ↦ true
    | some types ↦ contains types content_type
  ]

  abbrev pub is_set {ℓ} : {A : Type ℓ} → Option A → Bool
  is_set none = false
  is_set (some a) = true

  -- One content type's include and exclude patterns.
  unfoldable pub passes_patterns : Option Regexp → Option Regexp → List Text → Bool
  passes_patterns include exclude subjects =
      if is_set include && not (hits_any include subjects)
      then false
      else not (hits_any exclude subjects)

  unfoldable pub should_include_stream : CompiledFilter Regexp → Text → List Text → Bool
  should_include_stream f content_type subjects =
      if text_eq content_type content_live
      then passes_patterns f.live_include f.live_exclude subjects
      else if text_eq content_type content_series
      then passes_patterns f.series_include f.series_exclude subjects
      else if text_eq content_type content_vod
      then passes_patterns f.vod_include f.vod_exclude subjects
      else true
