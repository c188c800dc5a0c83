-- ===== src/M3u8/Lines.antt =====
-- The lines that ParseM3U8Fallback of work/parser/m3u8.go reads off a text: bufio.Scanner with its
-- own split function and its own limit.
use kptv_proxy.Prelude.{
  ℕ, ◌<◌, ◌≡◌, refl, ap, none, some, map, ◌∙◌, Bool, Option, List, [], ◌∷◌, ◌++◌, ◌==◌, leb, ◌&&◌,
  ◌||◌, if◌then◌else◌, arith,
}
use kptv_proxy.Text.{Text, Unicode, is_empty, byte_len}
use kptv_proxy.Text.Split.{Lacks, split, split-append}
use kptv_proxy.Text.{is_space, trim_right, trim_space}
use kptv_proxy.M3u8.Fallback.{Parser, parse_m3u8_fallback}
use kptv_proxy.M3u8.Playlist.{
  Entry, entry_line, write_playlist, AreWritable, entry_stream, trimmed_right,
  trim_space-entry_line, parse_m3u8_fallback-write_playlist,
}

abbrev pub newline : ℕ
newline = 10

abbrev pub carriage_return : ℕ
carriage_return = 13

-- bufio.MaxScanTokenSize.
abbrev pub max_scan_token_size : ℕ
max_scan_token_size = 65536

-- A line without the carriage return at its end.
unfoldable pub drop_cr : Text → Text
drop_cr [] = []
drop_cr (c ∷ s) =
    let rest = drop_cr s in if is_empty s && c == carriage_return then [] else c ∷ rest

-- A line that does not fit the scanner's buffer ends the scan, and an empty one behind the last
-- newline is no line.
unfoldable pub lines_of : List Text → List Text
lines_of [] = []
lines_of (l ∷ []) =
    if is_empty l || leb max_scan_token_size (byte_len l) then [] else drop_cr l ∷ []
lines_of (l ∷ m ∷ ls) =
    let rest = lines_of (m ∷ ls) in
    if leb max_scan_token_size (byte_len l) then [] else drop_cr l ∷ rest

unfoldable pub scan_lines : Text → List Text
scan_lines text = lines_of (split newline text)

-- The parser on a text.
unfoldable pub parse_m3u8_text : (Text → Bool) → Unicode → Text → Text → Option Parser
parse_m3u8_text vod_regex u epg_url text = parse_m3u8_fallback vod_regex u epg_url (scan_lines text)

-- Lines as they are written, each with a newline behind it.
abbrev pub write_lines : List Text → Text
write_lines [] = []
write_lines (l ∷ ls) = l ++ newline ∷ write_lines ls

-- A line that comes back as it was written.
pub record IsLine (l : Text) : Type 0 where
  pub one_line : Lacks newline l
  pub no_cr : drop_cr l ≡ l
  pub fits : byte_len l < max_scan_token_size

abbrev pub AreLines : List Text → Type 0
AreLines [] = Unit {0}
AreLines (l ∷ ls) = IsLine l × AreLines ls

lines_of-kept :
    (l : Text) (rest : List Text)
    → IsLine l
    → ¬ (rest ≡ [])
    → lines_of (l ∷ rest) ≡ l ∷ lines_of rest
unfolding lines_of
lines_of-kept l [] v n = absurd (n refl)
lines_of-kept l (m ∷ ls) v n = ground (arith, v.fits, v.no_cr)

split_some : (c : ℕ) (s : Text) → ¬ (split c s ≡ [])
unfolding split
split_some c [] = λ e. cc e
split_some c (d ∷ s) = λ e. ground (arith, e)

pub scan_lines-write_lines : (ls : List Text) → AreLines ls → scan_lines (write_lines ls) ≡ ls
unfolding scan_lines
scan_lines-write_lines [] v = unfold lines_of in unfold split in refl
scan_lines-write_lines (l ∷ ls) v =
    ap lines_of (split-append newline l (write_lines ls) v.0.one_line)
    ∙ lines_of-kept l (split newline (write_lines ls)) v.0 (split_some newline (write_lines ls))
    ∙ ap (λ r. l ∷ r) (scan_lines-write_lines ls v.1)

drop_cr-trimmed : (s : Text) → trim_right s ≡ s → drop_cr s ≡ s
unfolding drop_cr trim_right is_space
drop_cr-trimmed [] e = refl
drop_cr-trimmed (c ∷ s) e = ground (arith, e, drop_cr-trimmed s)

trimmed-IsLine :
    (s : Text) → trim_space s ≡ s → Lacks newline s → byte_len s < max_scan_token_size → IsLine s
trimmed-IsLine s e l f = record {
  one_line = l;
  no_cr = drop_cr-trimmed s (trimmed_right s e);
  fits = f;
}

-- The two lines of an entry have no line break in them and fit the scanner's buffer.
pub record FitsLines (e : Entry) : Type 0 where
  pub entry_one_line : Lacks newline (entry_line e)
  pub entry_fits : byte_len (entry_line e) < max_scan_token_size
  pub url_one_line : Lacks newline e.url
  pub url_fits : byte_len e.url < max_scan_token_size

abbrev pub AllFitLines : List Entry → Type 0
AllFitLines [] = Unit {0}
AllFitLines (e ∷ es) = FitsLines e × AllFitLines es

write_playlist-AreLines :
    (es : List Entry) → AreWritable es → AllFitLines es → AreLines (write_playlist es)
write_playlist-AreLines [] w f = tt
write_playlist-AreLines (e ∷ es) w f = (
  trimmed-IsLine (entry_line e) (trim_space-entry_line e w.0) f.0.entry_one_line f.0.entry_fits,
  (
    trimmed-IsLine e.url w.0.url_trimmed f.0.url_one_line f.0.url_fits,
    write_playlist-AreLines es w.1 f.1,
  ),
)

-- A playlist's text, written line by line, is read back by the fallback parser as one stream for
-- each entry, in order, with its URL, its attributes and its name, and leaves the source's EPG URL as
-- it was, if for each entry the duration is a word, there is at least one attribute, the keys are
-- words without an equals sign, the values have no quotes, the name has no quote, no comma and no
-- blanks around it, the URL is an http or https URL with no blanks around it, and neither line has a
-- line break in it or more than 65535 bytes.
pub parse_m3u8_text-write_playlist :
    (vod_regex : Text → Bool) (u : Unicode) (epg_url : Text) (es : List Entry)
    → AreWritable es
    → AllFitLines es
    → parse_m3u8_text vod_regex u epg_url (write_lines (write_playlist es))
      ≡ some (record {
        current_attrs = none;
        streams = map (entry_stream vod_regex u) es;
        epg_url = epg_url;
      })
unfolding parse_m3u8_text
parse_m3u8_text-write_playlist vod_regex u epg_url es w f =
    ap (parse_m3u8_fallback vod_regex u epg_url)
      (scan_lines-write_lines (write_playlist es) (write_playlist-AreLines es w f))
    ∙ parse_m3u8_fallback-write_playlist vod_regex u epg_url es w
