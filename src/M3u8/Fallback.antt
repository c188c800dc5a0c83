-- ===== src/M3u8/Fallback.antt =====
-- ParseM3U8Fallback and classifyStreamContent of work/parser/m3u8.go, over the lines that the
-- scanner yields. The pattern for the names and paths of films is an argument, `vod_regex`. The
-- streams' source is left out but for its EPG URL. `none` is ParseEXTINF out of fuel.
use kptv_proxy.Prelude.{
  ◌≡◌, Bool, true, false, ◌||◌, Option, none, some, List, [], ◌∷◌, ◌++◌, length, drop,
  if◌then◌else◌, arith,
}
use kptv_proxy.Text.{Text, Unicode, codes, is_empty, has_prefix, trim_space, to_lower}
use kptv_proxy.Text.Maps.{TextMap, lookup}
use kptv_proxy.Filter.Types.{Stream, content_live, content_vod, content_series}
use kptv_proxy.M3u8.{extinf, quote, cut, parse_extinf}

-- strings.Index, as the text after the first place, and strings.Contains.
unfoldable pub after_first : Text → Text → Option Text
after_first [] p = if is_empty p then some [] else none
after_first (c ∷ s) p =
    let rest = after_first s p in
    if has_prefix (c ∷ s) p then some (drop (length p) (c ∷ s)) else rest

abbrev pub found : Option Text → Bool
found none = false
found (some s) = true

unfoldable pub has_substring : Text → Text → Bool
has_substring s p = found (after_first s p)

-- Reading a Go map: a missing key gives the empty text.
abbrev pub or_empty : Option Text → Text
or_empty none = []
or_empty (some v) = v

abbrev pub get : TextMap Text → Text → Text
get attrs key = or_empty (lookup key attrs)

unfoldable pub classify_stream_content : (Text → Bool) → Unicode → Text → Text → Text → Text
classify_stream_content vod_regex u name url existing_group =
    let group = to_lower u existing_group in
    if vod_regex name || vod_regex url
    then content_vod
    else if has_substring group (codes "series")
    then content_series
    else if has_substring group (codes "vod") || has_substring group (codes "movie")
    then content_vod
    else content_live

abbrev pub or_else : Text → Text → Text
or_else s other = if is_empty s then other else s

-- A stream from the attributes of the last #EXTINF line.
abbrev pub stream_of : (Text → Bool) → Unicode → TextMap Text → Text → Stream
stream_of vod_regex u attrs line =
    let name = or_else (get attrs (codes "tvg-name")) (codes "Unknown") in
    record {
      url = line;
      name = name;
      attributes = attrs;
      content_type =
          classify_stream_content vod_regex u name line
            (or_else (get attrs (codes "group-title")) (get attrs (codes "tvg-group")));
    }

-- The value in quotes after a key, if the line has both.
abbrev pub up_to_quote : Option Text → Option Text
up_to_quote none = none
up_to_quote (some s) = elim (cut quote s) [ none ↦ none | some (value, rest) ↦ some value ]

unfoldable pub epg_in_header : Text → Option Text
epg_in_header line =
    if has_prefix line (codes "#EXTM3U")
    then if has_substring line (codes "x-tvg-url=")
      then up_to_quote (after_first line (codes "x-tvg-url=\""))
      else if has_substring line (codes "url-tvg=")
      then up_to_quote (after_first line (codes "url-tvg=\""))
      else none
    else none

pub record Parser : Type 0 where
  pub current_attrs : Option (TextMap Text)
  pub streams : List Stream
  pub epg_url : Text

abbrev pub or_keep : Text → Option Text → Text
or_keep old none = old
or_keep old (some new) = new

abbrev pub is_url : Text → Bool
is_url line = has_prefix line (codes "http://") || has_prefix line (codes "https://")

abbrev pub take_attributes : Parser → Text → Option (TextMap Text) → Option Parser
take_attributes p line none = none
take_attributes p line (some attrs) =
    some (record p { current_attrs = some attrs; epg_url = or_keep p.epg_url (epg_in_header line) })

-- A URL after attributes makes a stream of them; any other line is passed over.
abbrev pub take_url : (Text → Bool) → Unicode → Parser → Option (TextMap Text) → Text → Parser
take_url vod_regex u p none line = p
take_url vod_regex u p (some attrs) line =
    if is_url line
    then record p {
      current_attrs = none;
      streams = p.streams ++ stream_of vod_regex u attrs line ∷ [];
    }
    else p

unfoldable pub read_line : (Text → Bool) → Unicode → Parser → Text → Option Parser
read_line vod_regex u p line =
    if has_prefix line extinf
    then take_attributes p line (parse_extinf line)
    else some (take_url vod_regex u p p.current_attrs line)

abbrev pub and_then : Option Parser → (Parser → Option Parser) → Option Parser
and_then none next = none
and_then (some p) next = next p

unfoldable pub read_lines : (Text → Bool) → Unicode → Parser → List Text → Option Parser
read_lines vod_regex u p [] = some p
read_lines vod_regex u p (line ∷ lines) =
    and_then (read_line vod_regex u p (trim_space line)) (λ p'. read_lines vod_regex u p' lines)

-- The streams and the source's EPG URL.
unfoldable pub parse_m3u8_fallback : (Text → Bool) → Unicode → Text → List Text → Option Parser
parse_m3u8_fallback vod_regex u epg_url lines =
    read_lines vod_regex u (record { current_attrs = none; streams = []; epg_url = epg_url }) lines

-- A line that is an entry is no header.
pub no_header : (line : Text) → has_prefix line extinf ≡ true → epg_in_header line ≡ none
unfolding epg_in_header has_prefix
no_header [] h = absurd (cc h)
no_header (a ∷ []) h = absurd (ground (arith, h))
no_header (a ∷ b ∷ []) h = absurd (ground (arith, h))
no_header (a ∷ b ∷ c ∷ []) h = absurd (ground (arith, h))
no_header (a ∷ b ∷ c ∷ d ∷ []) h = absurd (ground (arith, h))
no_header (a ∷ b ∷ c ∷ d ∷ e ∷ line) h = ground (arith, h)
