-- ===== src/Media/Tests.antt =====
-- A film and a song in the exported playlist.
use kptv_proxy.Prelude.{◌≡◌, refl, Bool, true, false, none, some, [], ◌∷◌, map, length}
use kptv_proxy.Text.{
  Text, codes, is_space, text_eq, has_prefix, trim_space, words, fields, join, to_lower,
}
use kptv_proxy.Text.Ascii.{ascii}
use kptv_proxy.M3u8.{trim_prefix}
use kptv_proxy.M3u8.Fallback.{has_substring, parse_m3u8_fallback}
use kptv_proxy.Media.{
  MediaEntry, Account, Wanted, digits, itoa, sanitize, attr_value, escape_m3u_attribute,
  container_extension, stream_url, all_attrs, pairs_of, write_playlist_entries,
}
use kptv_proxy.Media.Export.{
  IsExportable, wanted_entries, exported_stream, parse_m3u8_fallback-write_playlist_entries,
}

abbrev film : MediaEntry
film = record {
  hash = codes "f1";
  path = codes "/m/a.MKV";
  media_type = codes "movies";
  group_title = codes "G";
  tvg_name = [];
  display = codes "A  B";
  duration = 0;
  disc = 0;
  track = 0;
  season = 0;
  episode = 0;
  critic_rating = 0;
  year = codes "1999";
  artist = [];
  album = [];
  series = [];
  episode_title = [];
  title = [];
  plot = [];
  tagline = [];
  poster = [];
  fanart = [];
  rating = none;
  mpaa = [];
  country = [];
  premiered = [];
  imdb_id = [];
  tmdb_id = [];
  tvdb_id = [];
  collection = [];
  genres = codes "x" ∷ codes "y" ∷ [];
  studios = [];
  directors = [];
  cast = [];
}

abbrev account : Account
account = record { base_url = codes "http://h"; username = codes "u"; password = codes "p" }

abbrev wanted : Wanted
wanted = record { enable_vod = true; enable_series = false; group_filter = []; type_filter = [] }

abbrev vod : Text → Bool
vod s = has_substring s (codes "/vod/")

film-IsExportable : IsExportable ascii account film
unfolding is_space has_prefix trim_space words fields join to_lower trim_prefix digits itoa sanitize
    attr_value escape_m3u_attribute container_extension stream_url all_attrs pairs_of text_eq
film-IsExportable = record {
  first = (codes "group-title", codes "G");
  others = (codes "tvg-genre", codes "x; y") ∷ (codes "tvg-year", codes "1999") ∷ [];
  listed = refl;
  quote_free =
      ((refl, tt), ((refl, (refl, (refl, (refl, tt)))), ((refl, (refl, (refl, (refl, tt)))), tt)));
  title_no_quote = (refl, (refl, (refl, tt)));
  title_no_comma = (refl, (refl, (refl, tt)));
  url_trimmed = refl;
  url_named = refl;
}

parse_m3u8_fallback-write_playlist_entries_example :
    (parse_m3u8_fallback vod ascii []
        (write_playlist_entries text_eq ascii account wanted (film ∷ [])).0
      ≡ some (record {
        current_attrs = none;
        streams =
            map (exported_stream vod ascii account) (wanted_entries text_eq wanted (film ∷ []));
        epg_url = [];
      }))
    × ((write_playlist_entries text_eq ascii account wanted (film ∷ [])).1
        ≡ length (wanted_entries text_eq wanted (film ∷ [])))
parse_m3u8_fallback-write_playlist_entries_example =
    parse_m3u8_fallback-write_playlist_entries vod text_eq ascii account wanted [] (film ∷ [])
      (film-IsExportable, tt)
