-- ===== src/M3u8/Tests.antt =====
-- Lines, playlists and orders of streams on concrete inputs.
use kptv_proxy.Prelude.{ℕ, ◌≡◌, ◌≢◌, refl, Bool, min, none, some, List, [], ◌∷◌, ◌++◌, map, arith}
use kptv_proxy.Text.{Text, codes, is_space, text_eq, has_prefix, trim_space, join}
use kptv_proxy.Text.Split.{split}
use kptv_proxy.Text.Ascii.{ascii}
use kptv_proxy.Text.Maps.{TextMap, insert}
use kptv_proxy.Text.Sorting.{AreOrdered}
use kptv_proxy.M3u8.{
  cut, scan_back, trim_blanks, trim_prefix, take_value, extract, parse_extinf, extinf, comma,
  with_name,
}
use kptv_proxy.M3u8.Fuel.{parse_extinf_total}
use kptv_proxy.M3u8.Written.{extinf_line, insert_all, parse_extinf-extinf_line, parse_extinf_bare}
use kptv_proxy.M3u8.Fallback.{Parser, has_substring, parse_m3u8_fallback}
use kptv_proxy.M3u8.Header.{parse_m3u8_fallback_keeps_epg}
use kptv_proxy.M3u8.Playlist.{Entry, entry_stream, write_playlist, IsWritable}
use kptv_proxy.M3u8.Lines.{
  scan_lines, lines_of, drop_cr, parse_m3u8_text, write_lines, FitsLines,
  parse_m3u8_text-write_playlist,
}
use kptv_proxy.M3u8.Order.{OrderedStream, SortSettings, ranks, sort_streams}
use kptv_proxy.M3u8.Order.Counts.{count, count-sort_streams}
use kptv_proxy.M3u8.Order.Playback.{playback_before, sort_streams-AreOrdered}

abbrev line : Text
line = codes "#EXTINF:-1 tvg-id=\"a,b\" group-title=\"The News\" odd=x,Channel One"

line_read :
    parse_extinf line
    ≡ some (
        (codes "duration", codes "-1")
        ∷ (codes "tvg-id", codes "a,b")
        ∷ (codes "group-title", codes "The News")
        ∷ (codes "odd", codes "x")
        ∷ (codes "tvg-name", codes "Channel One")
        ∷ [])
unfolding parse_extinf scan_back trim_prefix has_prefix cut trim_space extract trim_blanks
    take_value insert text_eq
line_read = refl

parse_extinf_total_example : parse_extinf line ≢ none
parse_extinf_total_example = parse_extinf_total line

one_two_trimmed : trim_space (codes "One Two") ≡ codes "One Two"
unfolding trim_space
one_two_trimmed = refl

parse_extinf-extinf_line_example :
    parse_extinf (
      extinf_line
        (codes "60")
        ((codes "tvg-id", codes "a") ∷ (codes "group-title", codes "b c") ∷ [])
        (codes "One Two"))
    ≡ some (
        with_name (codes "One Two") (
          insert_all
            ((codes "tvg-id", codes "a") ∷ (codes "group-title", codes "b c") ∷ [])
            ((codes "duration", codes "60") ∷ [])))
unfolding is_space
parse_extinf-extinf_line_example =
    parse_extinf-extinf_line (codes "60") (codes "One Two") (codes "tvg-id", codes "a")
      ((codes "group-title", codes "b c") ∷ []) (refl, (refl, (refl, tt)))
      (
        (
          (refl, (refl, (refl, (refl, (refl, (refl, (refl, tt))))))),
          (refl, (refl, (refl, (refl, (refl, (refl, tt)))))),
          (refl, tt),
        ),
        (
          (
            (
              refl,
              (
                refl,
                (refl, (refl, (refl, (refl, (refl, (refl, (refl, (refl, (refl, (refl, tt)))))))))),
              ),
            ),
            (
              refl,
              (refl, (refl, (refl, (refl, (refl, (refl, (refl, (refl, (refl, (refl, tt)))))))))),
            ),
            (refl, (refl, (refl, tt))),
          ),
          tt,
        ),
      )
      (refl, (refl, (refl, (refl, (refl, (refl, (refl, tt)))))))
      (refl, (refl, (refl, (refl, (refl, (refl, (refl, tt))))))) one_two_trimmed

parse_extinf_bare_example :
    parse_extinf (extinf ++ (codes "60" ++ comma ∷ codes "One"))
    ≡ some ((codes "duration", codes "60") ∷ [])
unfolding is_space
parse_extinf_bare_example =
    parse_extinf_bare (codes "60") (codes "One") (refl, (refl, tt)) (refl, (refl, (refl, tt)))
      (refl, (refl, (refl, tt)))

abbrev vod : Text → Bool
vod s = has_substring s (codes "/vod/")

parse_m3u8_fallback_keeps_epg_example :
    (p : Parser) × (parse_m3u8_fallback vod ascii
        (codes "http://old")
        (codes "#EXTM3U x-tvg-url=\"http://new\"" ∷ line ∷ codes "http://one" ∷ [])
      ≡ some p)
    × (p.epg_url ≡ codes "http://old")
parse_m3u8_fallback_keeps_epg_example =
    parse_m3u8_fallback_keeps_epg vod ascii (codes "http://old")
      (codes "#EXTM3U x-tvg-url=\"http://new\"" ∷ line ∷ codes "http://one" ∷ [])

abbrev entry : Entry
entry = record {
  duration = codes "60";
  first = (codes "tvg-id", codes "a");
  others = [];
  name = codes "One Two";
  url = codes "http://one";
}

entry-IsWritable : IsWritable entry
unfolding is_space trim_space has_prefix
entry-IsWritable = record {
  duration_word = (refl, (refl, (refl, tt)));
  attributes = (
    (
      (refl, (refl, (refl, (refl, (refl, (refl, (refl, tt))))))),
      (refl, (refl, (refl, (refl, (refl, (refl, tt)))))),
      (refl, tt),
    ),
    tt,
  );
  no_quote = (refl, (refl, (refl, (refl, (refl, (refl, (refl, tt)))))));
  no_comma = (refl, (refl, (refl, (refl, (refl, (refl, (refl, tt)))))));
  name_trimmed = refl;
  url_trimmed = refl;
  url_named = refl;
}

entry-FitsLines : FitsLines entry
unfolding join
entry-FitsLines = record {
  entry_one_line = (
    refl,
    (
      refl,
      (
        refl,
        (
          refl,
          (
            refl,
            (
              refl,
              (
                refl,
                (
                  refl,
                  (
                    refl,
                    (
                      refl,
                      (
                        refl,
                        (
                          refl,
                          (
                            refl,
                            (
                              refl,
                              (
                                refl,
                                (
                                  refl,
                                  (
                                    refl,
                                    (
                                      refl,
                                      (
                                        refl,
                                        (
                                          refl,
                                          (
                                            refl,
                                            (
                                              refl,
                                              (
                                                refl,
                                                (refl, (refl, (refl, (refl, (refl, (refl, tt)))))),
                                              ),
                                            ),
                                          ),
                                        ),
                                      ),
                                    ),
                                  ),
                                ),
                              ),
                            ),
                          ),
                        ),
                      ),
                    ),
                  ),
                ),
              ),
            ),
          ),
        ),
      ),
    ),
  );
  entry_fits = omega arith;
  url_one_line = (refl, (refl, (refl, (refl, (refl, (refl, (refl, (refl, (refl, (refl, tt))))))))));
  url_fits = omega arith;
}

-- A text with both ends of a line, a last line without one, and what stops the scan.
scan_lines_example : scan_lines (codes "a\r\n\nb") ≡ codes "a" ∷ [] ∷ codes "b" ∷ []
unfolding scan_lines split lines_of drop_cr
scan_lines_example = refl

parse_m3u8_text-write_playlist_example :
    parse_m3u8_text vod ascii [] (write_lines (write_playlist (entry ∷ entry ∷ [])))
    ≡ some (record {
      current_attrs = none;
      streams = map (entry_stream vod ascii) (entry ∷ entry ∷ []);
      epg_url = [];
    })
parse_m3u8_text-write_playlist_example =
    parse_m3u8_text-write_playlist vod ascii [] (entry ∷ entry ∷ [])
      (entry-IsWritable, (entry-IsWritable, tt)) (entry-FitsLines, (entry-FitsLines, tt))

abbrev settings : SortSettings
settings = record { sort_field = codes "tvg-name"; sort_direction = codes "asc" }

abbrev stream : Text → Text → ℕ → OrderedStream
stream hash name place = record {
  url_hash = hash;
  attributes = (codes "tvg-name", name) ∷ [];
  import_order = 0;
  source_order = place;
}

abbrev streams : List OrderedStream
streams =
    stream (codes "1") (codes "b") 2
    ∷ stream (codes "2") (codes "a") 1
    ∷ stream (codes "1") (codes "a") 1
    ∷ stream (codes "3") (codes "a") 1
    ∷ []

abbrev orders : TextMap (TextMap ℕ)
orders = (codes "One", (codes "3", 0) ∷ []) ∷ []

count-sort_streams_example :
    count (codes "1") (sort_streams settings (codes "One") orders streams)
    ≡ min 1 (count (codes "1") streams)
count-sort_streams_example = count-sort_streams settings (codes "One") orders streams (codes "1")

sort_streams-AreOrdered_example :
    AreOrdered
      (playback_before settings (ranks orders (codes "One")))
      (sort_streams settings (codes "One") orders streams)
sort_streams-AreOrdered_example = sort_streams-AreOrdered settings (codes "One") orders streams
