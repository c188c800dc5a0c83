-- ===== src/Lib.antt =====
-- KPTV Proxy (Go): an IPTV proxy that imports the catalogs of several sources, filters them into
-- channels and restreams each channel from one upstream connection to many clients. This library
-- models the parts that decide which streams are kept, which are dead and what bytes are shown.
--
-- The parts, and the files that model them:
--   * The byte ring of a restreamer, work/buffer/buffer.go: Ring. RingBuffer is the struct, with
--     the data slice as an Option (nil is none) and writePos as the bit pattern of an int64, whose
--     additions wrap at 2^64. Write, Reset, Destroy, IsDestroyed, GetWritePosition and
--     PeekRecentData are Ring.write, reset, destroy, is_destroyed, get_write_position and
--     peek_recent_data. A method that takes the lock has its locked section as a function of its
--     own. A panic is a result. Ring/Log is the abstract log; Ring/Window says when a buffer stands
--     for a log.
--   * The buffer pool of the same file: Pool. ByteBuffer and BufferPool with Get, Put and Cleanup as
--     get, put and cleanup; Pool/Users is a sequence of what its users do, who touch a
--     buffer only while they hold it and put it back once.
--   * Filter rules and source settings, work/config/filterrules.go and work/config/sourcefilters.go:
--     Config. NormalizeRules, normalizeDefault, Normalize, EffectiveRules, EffectiveDefault,
--     GroupKey, dedupeGroups, normalizeQualityTiers, HasContentFilters and ImportsType stand under
--     those names in snake case. An error is a value of Config.Rules.Error.
--   * The import filter, work/filter: Filter. Filter/Rules is rules.go and groups.go,
--     Filter/Stages, Quality, Compile and Apply are filter.go, Filter/Report is report.go. Apply
--     calls the rules, then the group filter, the type gate and the patterns for each stream, then
--     the quality stage over the whole catalog, and writes every outcome into the report.
--     GetOrCreateFilter compiles the settings that Config resolves; Filter/Cache is its cache over
--     sequences of calls, and Filter/Signature says which settings filterSignature tells apart.
--   * Dead streams, work/deadstreams/deadstreams.go over work/db/overrides.go: Overrides. The table and
--     its snapshot in memory are the state; the SQL statements are functions on the rows.
--     MarkStreamDeadByHash, ReviveStream, IsStreamDead and GetDeadStreamReason stand under those names
--     in snake case. What the database answers is an argument of each call.
--   * A stream's failures, work/stream/stream.go: Failures. HandleStreamFailure is
--     handle_stream_failure, which marks the stream dead through Overrides.
--   * HLS segments, work/restream/hls.go: Segments. SegmentTracker and its methods stand under their
--     names in snake case, with `none` for a panic; Segments/Queue is the bounded queue that it stands
--     for while only unknown segments are marked, as the stream does, and Segments/Memory what it
--     remembers in any case. Segments/Refresh is the loop of streamHLSSegmentsFrom over one playlist, with the answers
--     of the upstream as an argument.
--   * Playlists, work/parser/m3u8.go: M3u8. ParseEXTINF is parse_extinf, ParseM3U8Fallback is
--     parse_m3u8_fallback in M3u8/Fallback, over the lines that the scanner yields, which are
--     scan_lines in M3u8/Lines, and SortStreams is sort_streams in M3u8/Order.
--   * Local media, work/localscan/playlist.go: Media. WritePlaylistEntries, formatEntry, buildAttrs and
--     sanitize are write_playlist_entries, entry_lines, pairs_of over all_attrs, and sanitize. An
--     entry is its two lines. Media/Export reads them with M3u8.
--   * The watcher, work/watcher/watcher.go: Watcher. StreamWatcher's checkStreamHealth and
--     evaluateStreamHealthFromState are check_stream_health and evaluate_stream_health, over what one
--     check reads; findNextAvailableStream and triggerStreamSwitch are in Watcher/Choice;
--     WatcherManager is Watcher/Manager, with the semaphore as the number of slots taken and `none` for
--     a call that waits for ever.
--   * Sessions, work/users/session.go: Sessions. CreateSession, GetSession, DeleteSession,
--     DeleteSessionsForUser and sessionCleanup stand under those names in snake case; the rows are a
--     list, and Sessions/Refine has the plain table that they stand for.
--   * Random ids, work/users/token.go: Tokens. randomAlnum is random_alnum, over a list of what
--     crypto/rand.Read gives.
--   * Text is Go's strings as lists of code points, with the functions of strings and unicode that
--     the code calls. Prelude holds what all the modules share.
--
-- Parameters. What sync.Pool hands out is a number of the caller's choosing, and how far append grows
-- a slice is the record Pool.Growth. The regular expressions of github.com/grafana/regexp are the record
-- Config.Rules.Regexps: compiling, matching, and finding the first place. The case tables of unicode
-- are the record Text.Unicode with the laws the code relies on: lowering twice is lowering once, it
-- leaves a to z as they are, and it turns nothing into or out of white space. Config/Literals and
-- Text/Ascii instantiate them for the examples. The pattern for films of work/utils/utils.go,
-- strings.EqualFold and the hash of a session's id are arguments.
--
-- Bounds. All loops are structural recursions but two, which run on fuel: the attributes of an
-- #EXTINF line, where the fuel is the length of the text and each attribute shortens it, and the
-- digits of a number, where it is twenty, enough for 64 bits. The theorems on the ring ask
-- for fewer than 2^63 bytes written, the range of its int64 position, and the one on failures for
-- fewer than 2^31, the range of its int32 counter. The watcher reads the clock once for each check.
-- Those on playlists and sessions have no bounds.
--
-- Not modelled: invalid UTF-8; places in a name are counted in code points where the source
-- counts bytes; the labels and the wording of error messages; logging and metrics; two catalog
-- entries that are one and the same object. The HTTP handlers, the rest of the database layer,
-- the parsers of HLS playlists and of Xtream Codes catalogs, the restreamer's goroutines, the
-- watcher's restart of a stream, calls of the watcher's manager that overlap, users and permissions,
-- the scanner of local media and the web clients are left out.
pub mod Prelude
pub mod Text
pub mod Ring
pub mod Config
pub mod Filter
pub mod Failures
pub mod M3u8
pub mod Media
pub mod Overrides
pub mod Pool
pub mod Segments
pub mod Sessions
pub mod Tokens
pub mod Watcher
