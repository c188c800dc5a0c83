-- ===== src/M3u8/Playlist.antt =====
-- The fallback parser over whole playlists.
use kptv_proxy.Prelude.{
  ℕ, ◌≡◌, refl, sym, ap, ◌∙◌, Bool, true, false, ◌&&◌, Option, none, some, List, [], ◌∷◌, ◌++◌,
  append_assoc, append-nil, map, if◌then◌else◌, arith,
}
use kptv_proxy.Text.{
  Text, Unicode, codes, is_space, is_empty, has_prefix, trim_left, trim_right, trim_space,
}
use kptv_proxy.Text.Trim.{trim_left_of_Starts, trim_right_idem}
use kptv_proxy.Text.Fields.{IsWord}
use kptv_proxy.Text.Maps.{TextMap}
use kptv_proxy.Filter.Types.{Stream}
use kptv_proxy.M3u8.{extinf, quote, comma, blank, parse_extinf, with_name}
use kptv_proxy.Text.Split.{Lacks}
use kptv_proxy.M3u8.Written.{
  attribute_list, extinf_line, AreAttributes, insert_all, parse_extinf-extinf_line,
}
use kptv_proxy.M3u8.Fallback.{
  Parser, stream_of, or_keep, is_url, take_attributes, take_url, read_line, and_then, read_lines,
  parse_m3u8_fallback, no_header,
}

-- An entry of a playlist: a line with attributes and a line with a URL.
pub record Entry : Type 0 where
  pub duration : Text
  pub first : Text × Text
  pub others : List (Text × Text)
  pub name : Text
  pub url : Text

abbrev pub entry_line : Entry → Text
entry_line e = extinf_line e.duration (e.first ∷ e.others) e.name

abbrev pub write_playlist : List Entry → List Text
write_playlist [] = []
write_playlist (e ∷ es) = entry_line e ∷ e.url ∷ write_playlist es

-- What can be written so that it is read back.
pub record IsWritable (e : Entry) : Type 0 where
  pub duration_word : IsWord e.duration
  pub attributes : AreAttributes (e.first ∷ e.others)
  pub no_quote : Lacks quote e.name
  pub no_comma : Lacks comma e.name
  pub name_trimmed : trim_space e.name ≡ e.name
  pub url_trimmed : trim_space e.url ≡ e.url
  pub url_named : is_url e.url ≡ true

abbrev pub AreWritable : List Entry → Type 0
AreWritable [] = Unit {0}
AreWritable (e ∷ es) = IsWritable e × AreWritable es

abbrev pub entry_attributes : Entry → TextMap Text
entry_attributes e =
    with_name e.name (insert_all (e.first ∷ e.others) ((codes "duration", e.duration) ∷ []))

pub trimmed_right : (s : Text) → trim_space s ≡ s → trim_right s ≡ s
unfolding trim_space
trimmed_right s e = ap trim_right (sym e) ∙ trim_right_idem (trim_left s) ∙ e

pub trim_right-append :
    (s : Text) (c : ℕ) (t : Text)
    → trim_right (c ∷ t) ≡ c ∷ t
    → trim_right (s ++ c ∷ t) ≡ s ++ c ∷ t
unfolding trim_right
trim_right-append [] c t e = e
trim_right-append (d ∷ s) c t e = rw (trim_right-append s c t e) (kept s)
  where
    kept :
        (s : Text)
        → (if is_empty (s ++ c ∷ t) && is_space d then [] else d ∷ (s ++ c ∷ t)) ≡ d ∷ (s ++ c ∷ t)
    kept [] = refl
    kept (x ∷ s) = refl

trim_right-comma : (t : Text) → trim_right t ≡ t → trim_right (comma ∷ t) ≡ comma ∷ t
unfolding trim_right
trim_right-comma t e = rw e (kept (is_empty t))
  where
    kept : (b : Bool) → (if b && is_space comma then [] else comma ∷ t) ≡ comma ∷ t
    kept true = unfold is_space in refl
    kept false = refl

pub trim_space-entry_line : (e : Entry) → IsWritable e → trim_space (entry_line e) ≡ entry_line e
unfolding trim_space
trim_space-entry_line e w =
    let before = e.duration ++ blank ∷ attribute_list (e.first ∷ e.others) in
    let whole : (entry_line e ≡ (extinf ++ before) ++ comma ∷ e.name) =
      ap (λ r. extinf ++ r)
        (sym
          (append_assoc e.duration (blank ∷ attribute_list (e.first ∷ e.others)) (comma ∷ e.name)))
      ∙ sym (append_assoc extinf before (comma ∷ e.name)) in
    ap trim_right (trim_left_of_Starts (entry_line e) (unfold is_space in refl))
    ∙ ap trim_right whole
    ∙ trim_right-append (extinf ++ before) comma e.name
        (trim_right-comma e.name (trimmed_right e.name w.name_trimmed))
    ∙ sym whole

url_no_entry : (s : Text) → is_url s ≡ true → has_prefix s extinf ≡ false
unfolding has_prefix
url_no_entry [] h = refl
url_no_entry (c ∷ s) h = ground (arith, h)

module _ (vod_regex : Text → Bool) (u : Unicode) where
  abbrev pub entry_stream : Entry → Stream
  entry_stream e = stream_of vod_regex u (entry_attributes e) e.url

  abbrev parser : Option (TextMap Text) → List Stream → Text → Parser
  parser attrs streams epg_url = record {
    current_attrs = attrs;
    streams = streams;
    epg_url = epg_url;
  }

  read_line_entry :
      (streams : List Stream) (epg_url : Text) (e : Entry)
      → IsWritable e
      → read_line vod_regex u (parser none streams epg_url) (entry_line e)
        ≡ some (parser (some (entry_attributes e)) streams epg_url)
  unfolding read_line
  read_line_entry streams epg_url e w =
      ap
        (λ b.
          if b
          then take_attributes (parser none streams epg_url) (entry_line e)
              (parse_extinf (entry_line e))
          else some (parser none streams epg_url))
        is_entry
      ∙ ap (take_attributes (parser none streams epg_url) (entry_line e)) (
          parse_extinf-extinf_line e.duration e.name e.first e.others w.duration_word w.attributes
            w.no_quote w.no_comma w.name_trimmed)
      ∙ ap (λ o. some (parser (some (entry_attributes e)) streams (or_keep epg_url o)))
          (no_header (entry_line e) is_entry)
    where
      is_entry : has_prefix (entry_line e) extinf ≡ true
      is_entry = unfold has_prefix in refl

  read_line_url :
      (streams : List Stream) (epg_url url : Text) (attrs : TextMap Text)
      → is_url url ≡ true
      → read_line vod_regex u (parser (some attrs) streams epg_url) url
        ≡ some (parser none (streams ++ stream_of vod_regex u attrs url ∷ []) epg_url)
  unfolding read_line
  read_line_url streams epg_url url attrs h =
      ap
        (λ b.
          if b
          then take_attributes (parser (some attrs) streams epg_url) url (parse_extinf url)
          else some (take_url vod_regex u (parser (some attrs) streams epg_url) (some attrs) url))
        (url_no_entry url h)
      ∙ ap
          (λ b. some (
            if b
            then parser none (streams ++ stream_of vod_regex u attrs url ∷ []) epg_url
            else parser (some attrs) streams epg_url))
          h

  read_lines_written :
      (streams : List Stream) (epg_url : Text) (es : List Entry)
      → AreWritable es
      → read_lines vod_regex u (parser none streams epg_url) (write_playlist es)
        ≡ some (parser none (streams ++ map entry_stream es) epg_url)
  unfolding read_lines
  read_lines_written streams epg_url [] w =
      ap (λ s. some (parser none s epg_url)) (sym (append-nil streams))
  read_lines_written streams epg_url (e ∷ es) w =
      ap
        (λ o. and_then o (λ p.
          and_then (read_line vod_regex u p (trim_space e.url))
            (λ p'. read_lines vod_regex u p' (write_playlist es))))
        (ap (read_line vod_regex u (parser none streams epg_url)) (trim_space-entry_line e w.0)
          ∙ read_line_entry streams epg_url e w.0)
      ∙ ap (λ o. and_then o (λ p'. read_lines vod_regex u p' (write_playlist es)))
          (ap (read_line vod_regex u (parser (some (entry_attributes e)) streams epg_url))
              w.0.url_trimmed
            ∙ read_line_url streams epg_url e.url (entry_attributes e) w.0.url_named)
      ∙ read_lines_written (streams ++ entry_stream e ∷ []) epg_url es w.1
      ∙ ap (λ s. some (parser none s epg_url))
          (append_assoc streams (entry_stream e ∷ []) (map entry_stream es))

  -- The lines of entries that can be written are read back as one stream for each entry.
  pub parse_m3u8_fallback-write_playlist :
      (epg_url : Text) (es : List Entry)
      → AreWritable es
      → parse_m3u8_fallback vod_regex u epg_url (write_playlist es)
        ≡ some (record { current_attrs = none; streams = map entry_stream es; epg_url = epg_url })
  unfolding parse_m3u8_fallback
  parse_m3u8_fallback-write_playlist epg_url es w = read_lines_written [] epg_url es w
