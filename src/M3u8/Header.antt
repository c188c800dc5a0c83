-- ===== src/M3u8/Header.antt =====
-- The fallback parser and the header of a playlist.
use kptv_proxy.Prelude.{
  ◌≡◌, ◌≢◌, refl, subst, ap, inl, inr, Bool, true, false, Option, none, some, List, [], ◌∷◌, ◌++◌,
  Bool-cases, if◌then◌else◌,
}
use kptv_proxy.Text.{Text, Unicode, has_prefix, trim_space}
use kptv_proxy.Text.Maps.{TextMap}
use kptv_proxy.M3u8.{extinf, parse_extinf}
use kptv_proxy.M3u8.Fuel.{parse_extinf_total}
use kptv_proxy.M3u8.Fallback.{
  Parser, stream_of, epg_in_header, or_keep, is_url, take_attributes, take_url, read_line, and_then,
  read_lines, parse_m3u8_fallback, no_header,
}

-- A result whose EPG URL is the given one.
abbrev pub Keeps : Text → Option Parser → Type 0
Keeps epg none = ⊥
Keeps epg (some p) = p.epg_url ≡ epg

module _ (vod_regex : Text → Bool) (u : Unicode) where
  take_url-Keeps :
      (p : Parser) (o : Option (TextMap Text)) (line : Text)
      → (take_url vod_regex u p o line).epg_url ≡ p.epg_url
  take_url-Keeps p none line = refl
  take_url-Keeps p (some attrs) line = by_url (is_url line)
    where
      by_url :
          (b : Bool)
          → (if b
              then record p {
                current_attrs = none;
                streams = p.streams ++ stream_of vod_regex u attrs line ∷ [];
              }
              else p).epg_url
            ≡ p.epg_url
      by_url true = refl
      by_url false = refl

  take_attributes-Keeps :
      (p : Parser) (line : Text) (o : Option (TextMap Text))
      → epg_in_header line ≡ none
      → o ≢ none
      → Keeps p.epg_url (take_attributes p line o)
  take_attributes-Keeps p line none e h = absurd (h refl)
  take_attributes-Keeps p line (some attrs) e h = ap (or_keep p.epg_url) e

  read_line-Keeps : (p : Parser) (line : Text) → Keeps p.epg_url (read_line vod_regex u p line)
  unfolding read_line
  read_line-Keeps p line = elim (Bool-cases (has_prefix line extinf)) [
    | inl e ↦ rw e (
        take_attributes-Keeps p line (parse_extinf line) (no_header line e)
          (parse_extinf_total line))
    | inr e ↦ rw e (take_url-Keeps p p.current_attrs line)
  ]

  read_lines-Keeps :
      (p : Parser) (lines : List Text) → Keeps p.epg_url (read_lines vod_regex u p lines)
  unfolding read_lines
  read_lines-Keeps p [] = refl
  read_lines-Keeps p (line ∷ lines) =
      next (read_line vod_regex u p (trim_space line)) (read_line-Keeps p (trim_space line))
        (λ p'. read_lines-Keeps p' lines)
    where
      next :
          (o : Option Parser)
          → Keeps p.epg_url o
          → ((p' : Parser) → Keeps p'.epg_url (read_lines vod_regex u p' lines))
          → Keeps p.epg_url (and_then o (λ p'. read_lines vod_regex u p' lines))
      next none k g = k
      next (some p') k g = subst (λ t. Keeps t (read_lines vod_regex u p' lines)) k (g p')

  -- The fallback parser ends on every playlist, and leaves the source's EPG URL as it was, also
  -- where a header of the playlist names one.
  pub parse_m3u8_fallback_keeps_epg :
      (epg_url : Text) (lines : List Text)
      → (p : Parser) × (parse_m3u8_fallback vod_regex u epg_url lines ≡ some p)
        × (p.epg_url ≡ epg_url)
  unfolding parse_m3u8_fallback
  parse_m3u8_fallback_keeps_epg epg_url lines =
      some_parser
        (read_lines vod_regex u (record { current_attrs = none; streams = []; epg_url = epg_url })
          lines)
        (read_lines-Keeps (record { current_attrs = none; streams = []; epg_url = epg_url }) lines)
    where
      some_parser :
          (o : Option Parser)
          → Keeps epg_url o
          → (p : Parser) × (o ≡ some p) × (p.epg_url ≡ epg_url)
      some_parser none k = absurd k
      some_parser (some p) k = (p, refl, k)
