-- ===== src/Media.antt =====
-- The playlist of local media: work/localscan/playlist.go, with the parts of MediaEntry of
-- work/localscan/models.go that it reads. A number of type int is the bit pattern of an int64. The
-- rating, a float64, is the text that FormatFloat gives if it is above 0.
pub mod Numbers
pub mod Attributes
pub mod Export
mod Tests
use kptv_proxy.Prelude.{
  ℕ, zero, suc, ◌+◌, ◌-◌, ◌/◌, ◌%◌, ◌^◌, Bool, true, false, not, ◌&&◌, ◌||◌, Option, none, some,
  List, [], ◌∷◌, ◌++◌, map, reverse, length, take, ltb, ◌==◌, if◌then◌else◌,
}
use kptv_proxy.Text.{Text, Unicode, codes, is_empty, text_eq, to_lower, trim_space, fields, join}
use kptv_proxy.Text.Fields.{space}
use kptv_proxy.M3u8.{extinf, blank, comma, equals, quote, trim_prefix}
use kptv_proxy.M3u8.Written.{extinf_line}
use kptv_proxy.M3u8.Fallback.{or_empty}

pub record MediaEntry : Type 0 where
  pub hash : Text
  pub path : Text
  pub media_type : Text
  pub group_title : Text
  pub tvg_name : Text
  pub display : Text
  pub duration : ℕ
  pub disc : ℕ
  pub track : ℕ
  pub season : ℕ
  pub episode : ℕ
  pub critic_rating : ℕ
  pub year : Text
  pub artist : Text
  pub album : Text
  pub series : Text
  pub episode_title : Text
  pub title : Text
  pub plot : Text
  pub tagline : Text
  pub poster : Text
  pub fanart : Text
  pub rating : Option Text
  pub mpaa : Text
  pub country : Text
  pub premiered : Text
  pub imdb_id : Text
  pub tmdb_id : Text
  pub tvdb_id : Text
  pub collection : Text
  pub genres : List Text
  pub studios : List Text
  pub directors : List Text
  pub cast : List Text

-- `n > 0` on int64.
abbrev pub positive : ℕ → Bool
positive n = ltb 0 n && ltb n (2 ^ 63)

-- strconv.Itoa: at most twenty digits, and a sign.
unfoldable pub digits : ℕ → ℕ → Text
digits zero n = []
digits (suc fuel) n =
    let more = digits fuel (n / 10) in
    if n / 10 == 0 then (48 + n % 10) ∷ [] else more ++ (48 + n % 10) ∷ []

unfoldable pub itoa : ℕ → Text
itoa n = if ltb n (2 ^ 63) then digits 20 n else 45 ∷ digits 20 (2 ^ 64 - n)

abbrev pub max_attr_len : ℕ
max_attr_len = 600

abbrev pub max_cast : ℕ
max_cast = 8

-- Spaces collapse to single ones, and a long text ends with an ellipsis.
unfoldable pub sanitize : Text → Text
sanitize s =
    let line = join space (fields s) in
    if is_empty s
    then []
    else if ltb max_attr_len (length line)
    then trim_space (take max_attr_len line) ++ 0x2026 ∷ []
    else line

abbrev pub comma_to_semicolon : ℕ → ℕ
comma_to_semicolon c = if c == 44 then 59 else c

unfoldable pub attr_value : Text → Text
attr_value s = map comma_to_semicolon s

-- EscapeM3UAttribute of work/utils/utils.go.
abbrev pub escape_rune : ℕ → Text
escape_rune c =
    if c == 92
    then 92 ∷ 92 ∷ []
    else if c == 34
    then 92 ∷ 34 ∷ []
    else if c == 10
    then 92 ∷ 110 ∷ []
    else if c == 13
    then 92 ∷ 114 ∷ []
    else c ∷ []

unfoldable pub escape_m3u_attribute : Text → Text
escape_m3u_attribute [] = []
escape_m3u_attribute (c ∷ s) = escape_rune c ++ escape_m3u_attribute s

-- ContentTypeOf.
abbrev pub content_type_of : Text → Text
content_type_of media_type =
    if text_eq media_type (codes "shows") then codes "series" else codes "vod"

abbrev pub tvg_id : MediaEntry → Text
tvg_id e =
    if not (is_empty e.imdb_id)
    then e.imdb_id
    else if not (is_empty e.tmdb_id)
    then codes "tmdb-" ++ e.tmdb_id
    else if not (is_empty e.tvdb_id)
    then codes "tvdb-" ++ e.tvdb_id
    else []

abbrev pub nonempty : List Text → List Text
nonempty [] = []
nonempty (n ∷ names) = let rest = nonempty names in if is_empty n then rest else n ∷ rest

abbrev pub cast_names : MediaEntry → Text
cast_names e = join (codes ", ") (nonempty (take max_cast e.cast))

-- The account that a playlist is for.
pub record Account : Type 0 where
  pub base_url : Text
  pub username : Text
  pub password : Text

abbrev pub artwork_url : Account → Text → Text → Text
artwork_url a hash kind =
    a.base_url
    ++ (codes "/localart/"
        ++ (a.username
            ++ (codes "/" ++ (a.password ++ (codes "/" ++ (hash ++ (codes "/" ++ kind)))))))

-- filepath.Ext: from the last dot of the last part of a path.
abbrev pub ext_back : Text → Text → Text
ext_back [] after = []
ext_back (c ∷ before) after =
    let more = ext_back before (c ∷ after) in
    if c == 47 then [] else if c == 46 then c ∷ after else more

unfoldable pub container_extension : Unicode → MediaEntry → Text
container_extension u e = trim_prefix (to_lower u (ext_back (reverse e.path) [])) (codes ".")

unfoldable pub stream_url : Account → Text → Text → Text
stream_url a hash extension =
    let plain =
      a.base_url
      ++ (codes "/local/" ++ (a.username ++ (codes "/" ++ (a.password ++ (codes "/" ++ hash))))) in
    if is_empty extension then plain else plain ++ (codes "." ++ extension)

-- A call of `add`, with the condition that it stands under.
pub record Added : Type 0 where
  pub key : Text
  pub when : Bool
  pub value : Text

abbrev pub add : Text → Text → Added
add key value = record { key = key; when = true; value = value }

abbrev pub add_if : Bool → Text → Text → Added
add_if when key value = record { key = key; when = when; value = value }

-- The calls of `add` of the three kinds of media.
abbrev pub kind_attrs : MediaEntry → List Added
kind_attrs e =
    if text_eq e.media_type (codes "music")
    then add (codes "tvg-artist") e.artist
      ∷ add (codes "tvg-album") e.album
      ∷ add_if (positive e.disc) (codes "tvg-disc") (itoa e.disc)
      ∷ add_if (positive e.track) (codes "tvg-track") (itoa e.track)
      ∷ []
    else if text_eq e.media_type (codes "shows")
    then add (codes "tvg-show") e.series
      ∷ add_if (positive e.season) (codes "tvg-season") (itoa e.season)
      ∷ add_if (positive e.episode) (codes "tvg-episode") (itoa e.episode)
      ∷ add (codes "tvg-episode-title") e.episode_title
      ∷ []
    else []

abbrev pub is_rated : Option Text → Bool
is_rated none = false
is_rated (some rating) = true

abbrev pub common_attrs : MediaEntry → Account → List Added
common_attrs e a =
    add (codes "tvg-genre") (join (codes ", ") e.genres)
    ∷ add (codes "tvg-year") e.year
    ∷ add (codes "tvg-title") e.title
    ∷ add (codes "tvg-tagline") e.tagline
    ∷ add (codes "tvg-plot") e.plot
    ∷ add_if (is_rated e.rating) (codes "tvg-rating") (or_empty e.rating)
    ∷ add_if (positive e.critic_rating) (codes "tvg-critic-rating") (itoa e.critic_rating)
    ∷ add (codes "tvg-mpaa") e.mpaa
    ∷ add (codes "tvg-director") (join (codes ", ") e.directors)
    ∷ add (codes "tvg-cast") (cast_names e)
    ∷ add (codes "tvg-studio") (join (codes ", ") e.studios)
    ∷ add (codes "tvg-country") e.country
    ∷ add (codes "tvg-premiered") e.premiered
    ∷ add (codes "tvg-collection") e.collection
    ∷ add_if (not (is_empty e.fanart)) (codes "tvg-fanart") (artwork_url a e.hash (codes "fanart"))
    ∷ []

unfoldable pub all_attrs : MediaEntry → Account → List Added
all_attrs e a =
    add (codes "tvg-id") (tvg_id e)
    ∷ add (codes "tvg-name") e.tvg_name
    ∷ add (codes "group-title") e.group_title
    ∷ add_if (not (is_empty e.poster)) (codes "tvg-logo") (artwork_url a e.hash (codes "poster"))
    ∷ (kind_attrs e ++ common_attrs e a)

-- The pairs of buildAttrs, escaped: what is empty is left out.
unfoldable pub pairs_of : List Added → List (Text × Text)
pairs_of [] = []
pairs_of (c ∷ calls) =
    let rest = pairs_of calls in
    let value = attr_value (sanitize c.value) in
    if c.when && not (is_empty value) then (c.key, escape_m3u_attribute value) ∷ rest else rest

abbrev pub duration_of : MediaEntry → ℕ
duration_of e = if e.duration == 0 then 2 ^ 64 - 1 else e.duration

-- The two lines of formatEntry.
abbrev pub entry_lines : Unicode → Account → MediaEntry → List Text
entry_lines u a e =
    extinf_line (itoa (duration_of e)) (pairs_of (all_attrs e a)) (sanitize e.display)
    ∷ stream_url a e.hash (container_extension u e)
    ∷ []

-- What an account wants, and the filters of a request.
pub record Wanted : Type 0 where
  pub enable_vod : Bool
  pub enable_series : Bool
  pub group_filter : Text
  pub type_filter : Text

-- strings.EqualFold is an argument.
abbrev pub is_wanted : (Text → Text → Bool) → Wanted → MediaEntry → Bool
is_wanted equal_fold w e =
    let content_type = content_type_of e.media_type in
    (is_empty w.type_filter || text_eq content_type w.type_filter)
    && (if text_eq content_type (codes "series") then w.enable_series else w.enable_vod)
    && (is_empty w.group_filter || equal_fold e.group_title w.group_filter)

unfoldable pub write_entries :
    (Text → Text → Bool) → Unicode → Account → Wanted → List MediaEntry → List Text × ℕ
write_entries equal_fold u a w [] = ([], 0)
write_entries equal_fold u a w (e ∷ entries) =
    let (lines, written) = write_entries equal_fold u a w entries in
    if is_wanted equal_fold w e then (entry_lines u a e ++ lines, suc written) else (lines, written)

unfoldable pub write_playlist_entries :
    (Text → Text → Bool) → Unicode → Account → Wanted → List MediaEntry → List Text × ℕ
write_playlist_entries equal_fold u a w entries =
    if not w.enable_vod && not w.enable_series
    then ([], 0)
    else write_entries equal_fold u a w entries
