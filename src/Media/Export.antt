-- ===== src/Media/Export.antt =====
-- The exported playlist of local media, read back by the fallback parser of work/parser/m3u8.go.
use kptv_proxy.Prelude.{
  ℕ, suc, ◌≡◌, refl, subst, ap, ◌∙◌, inl, inr, Bool, true, false, not, ◌&&◌, none, some, List, [],
  ◌∷◌, ◌++◌, map, length, Bool-cases, if◌then◌else◌, arith,
}
use kptv_proxy.Text.{Text, Unicode, codes, trim_space}
use kptv_proxy.Filter.Types.{Stream}
use kptv_proxy.M3u8.{quote, comma, with_name}
use kptv_proxy.Text.Split.{Lacks}
use kptv_proxy.M3u8.Written.{AreAttributes, insert_all}
use kptv_proxy.M3u8.Fallback.{is_url, stream_of, parse_m3u8_fallback}
use kptv_proxy.M3u8.Playlist.{
  Entry, write_playlist, AreWritable, entry_stream, parse_m3u8_fallback-write_playlist,
}
use kptv_proxy.Media.{
  MediaEntry, Account, Wanted, itoa, sanitize, all_attrs, pairs_of, duration_of, stream_url,
  container_extension, is_wanted, entry_lines, write_entries, write_playlist_entries,
}
use kptv_proxy.Media.Numbers.{itoa-IsWord}
use kptv_proxy.Media.Attributes.{AreQuoteFree, all_attrs-AreAttributes, trim_space-sanitize}

abbrev pub entry_url : Unicode → Account → MediaEntry → Text
entry_url u a e = stream_url a e.hash (container_extension u e)

-- An entry with some attribute, whose texts have no quotes and whose title has no comma, and an
-- account whose base is a URL without spaces around it.
pub record IsExportable (u : Unicode) (a : Account) (e : MediaEntry) : Type 0 where
  pub first : Text × Text
  pub others : List (Text × Text)
  pub listed : pairs_of (all_attrs e a) ≡ first ∷ others
  pub quote_free : AreQuoteFree (pairs_of (all_attrs e a))
  pub title_no_quote : Lacks quote (sanitize e.display)
  pub title_no_comma : Lacks comma (sanitize e.display)
  pub url_trimmed : trim_space (entry_url u a e) ≡ entry_url u a e
  pub url_named : is_url (entry_url u a e) ≡ true

abbrev pub AreExportable : Unicode → Account → List MediaEntry → Type 0
AreExportable u a [] = Unit {0}
AreExportable u a (e ∷ es) = IsExportable u a e × AreExportable u a es

abbrev pub wanted_entries : (Text → Text → Bool) → Wanted → List MediaEntry → List MediaEntry
wanted_entries equal_fold w [] = []
wanted_entries equal_fold w (e ∷ es) =
    let rest = wanted_entries equal_fold w es in if is_wanted equal_fold w e then e ∷ rest else rest

-- The stream that a reader gets for an entry.
abbrev pub exported_stream : (Text → Bool) → Unicode → Account → MediaEntry → Stream
exported_stream vod_regex u a e =
    stream_of vod_regex u
      (with_name (sanitize e.display)
        (insert_all (pairs_of (all_attrs e a)) ((codes "duration", itoa (duration_of e)) ∷ [])))
      (entry_url u a e)

none_wanted :
    (equal_fold : Text → Text → Bool) (w : Wanted) (es : List MediaEntry)
    → w.enable_vod ≡ false
    → w.enable_series ≡ false
    → wanted_entries equal_fold w es ≡ []
none_wanted equal_fold w [] v s = refl
none_wanted equal_fold w (e ∷ es) v s = ground (arith, none_wanted equal_fold w es v s, v, s)

module _ (vod_regex : Text → Bool) (equal_fold : Text → Text → Bool) (u : Unicode) (a : Account)
    (w : Wanted) where
  -- What was written, as a playlist of entries.
  record IsPlaylist (wanted : List MediaEntry) (out : List Text × ℕ) : Type 0 where
    written : List Entry
    lines : out.0 ≡ write_playlist written
    writable : AreWritable written
    streams : map (entry_stream vod_regex u) written ≡ map (exported_stream vod_regex u a) wanted
    counted : out.1 ≡ length wanted

  one_more :
      (e : MediaEntry) (wanted : List MediaEntry) (out : List Text × ℕ)
      → IsExportable u a e
      → IsPlaylist wanted out
      → IsPlaylist (e ∷ wanted) (entry_lines u a e ++ out.0, suc out.1)
  one_more e wanted out x p =
      let entry : Entry = record {
        duration = itoa (duration_of e);
        first = x.first;
        others = x.others;
        name = sanitize e.display;
        url = entry_url u a e;
      } in
      record {
        written = entry ∷ p.written;
        lines = rw (x.listed, p.lines) refl;
        writable = (
          record {
            duration_word = itoa-IsWord (duration_of e);
            attributes = subst AreAttributes x.listed (all_attrs-AreAttributes e a x.quote_free);
            no_quote = x.title_no_quote;
            no_comma = x.title_no_comma;
            name_trimmed = trim_space-sanitize e.display;
            url_trimmed = x.url_trimmed;
            url_named = x.url_named;
          },
          p.writable,
        );
        streams = rw (x.listed, p.streams) refl;
        counted = ap suc p.counted;
      }

  write_entries-IsPlaylist :
      (es : List MediaEntry)
      → AreExportable u a es
      → IsPlaylist (wanted_entries equal_fold w es) (write_entries equal_fold u a w es)
  unfolding write_entries
  write_entries-IsPlaylist [] x = record {
    written = [];
    lines = refl;
    writable = tt;
    streams = refl;
    counted = refl;
  }
  write_entries-IsPlaylist (e ∷ es) x = elim (Bool-cases (is_wanted equal_fold w e)) [
    | inl b ↦ rw b (
        one_more e (wanted_entries equal_fold w es) (write_entries equal_fold u a w es) x.0
          (write_entries-IsPlaylist es x.1))
    | inr b ↦ rw b (write_entries-IsPlaylist es x.1)
  ]

  read_playlist :
      (epg_url : Text) (wanted : List MediaEntry) (out : List Text × ℕ)
      → IsPlaylist wanted out
      → (parse_m3u8_fallback vod_regex u epg_url out.0
          ≡ some (record {
            current_attrs = none;
            streams = map (exported_stream vod_regex u a) wanted;
            epg_url = epg_url;
          }))
        × (out.1 ≡ length wanted)
  read_playlist epg_url wanted out p = (
    ap (parse_m3u8_fallback vod_regex u epg_url) p.lines
        ∙ parse_m3u8_fallback-write_playlist vod_regex u epg_url p.written p.writable
        ∙ ap (λ s. some (record { current_attrs = none; streams = s; epg_url = epg_url }))
            p.streams,
    p.counted,
  )

  write_playlist_entries-IsPlaylist :
      (es : List MediaEntry)
      → AreExportable u a es
      → IsPlaylist (wanted_entries equal_fold w es) (write_playlist_entries equal_fold u a w es)
  unfolding write_playlist_entries
  write_playlist_entries-IsPlaylist es x =
      elim (Bool-cases (not w.enable_vod && not w.enable_series)) [
        | inl b ↦
            rw (b, none_wanted equal_fold w es (ground (arith, b)) (ground (arith, b)))
              (record { written = []; lines = refl; writable = tt; streams = refl; counted = refl })
        | inr b ↦ rw b (write_entries-IsPlaylist es x)
      ]

  -- The playlist that is exported for local media is read back by the fallback parser as one stream
  -- for each entry that the account and the request want, in order, with the entry's URL, duration,
  -- escaped attributes and title, and their number is the one that is returned, if every entry has
  -- an attribute, no attribute or title has a quote, no title has a comma, and every entry's URL
  -- begins with http:// or https:// and has no spaces around it.
  pub parse_m3u8_fallback-write_playlist_entries :
      (epg_url : Text) (es : List MediaEntry)
      → AreExportable u a es
      → (parse_m3u8_fallback vod_regex u epg_url (write_playlist_entries equal_fold u a w es).0
          ≡ some (record {
            current_attrs = none;
            streams = map (exported_stream vod_regex u a) (wanted_entries equal_fold w es);
            epg_url = epg_url;
          }))
        × ((write_playlist_entries equal_fold u a w es).1 ≡ length (wanted_entries equal_fold w es))
  parse_m3u8_fallback-write_playlist_entries epg_url es x =
      read_playlist epg_url (wanted_entries equal_fold w es)
        (write_playlist_entries equal_fold u a w es) (write_playlist_entries-IsPlaylist es x)
