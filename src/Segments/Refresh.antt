-- ===== src/Segments/Refresh.antt =====
-- One refresh of streamHLSSegmentsFrom of work/restream/hls.go: the segments of a playlist, sent
-- unless they were sent before. What the upstream answers and whether the stream is cancelled is
-- given by the number of the attempt. A stop of the whole stream is an ending.
use kptv_proxy.Prelude.{
  ℕ, ◌+◌, ◌-◌, ◌*◌, ◌/◌, Bool, not, ◌&&◌, Option, none, some, List, [], ◌∷◌, ◌++◌, length, drop,
  ltb, ◌==◌, if◌then◌else◌,
}
use kptv_proxy.Ring.{add64}
use kptv_proxy.Text.{Text, contains}
use kptv_proxy.Segments.{SegmentTracker, new_segment_tracker, has_processed, mark_processed, size}

abbrev pub hls_live_edge_segments : ℕ
hls_live_edge_segments = 3

abbrev pub hls_max_segment_errors : ℕ
hls_max_segment_errors = 5

pub record Upstream : Type 0 where
  pub sends : ℕ → Option ℕ
  pub cancelled : ℕ → Bool

-- The variables of the loop; `sent` are the segments that were streamed, in order.
pub record Loop : Type 0 where
  pub tracker : SegmentTracker
  pub attempt : ℕ
  pub segment_errors : ℕ
  pub total_bytes : ℕ
  pub sent : List Text

pub data Ending : Type 0 where
  ended cancelled aborted panicked : Ending

-- The segments that the first refresh does not skip.
abbrev pub held_back : List Text → List Text
held_back segments = drop (length segments - hls_live_edge_segments) segments

-- What becomes of one segment: the loop goes on, or the stream stops.
abbrev pub mark_in : Loop → Text → Loop × Ending
mark_in l url = elim (mark_processed l.tracker url) [
  | none ↦ (l, panicked)
  | some st ↦ (record l { tracker = st }, ended)
]

-- What the upstream answers to one segment: an error, or the bytes that were streamed.
abbrev pub failed : Loop → Loop
failed l = record l { attempt = l.attempt + 1; segment_errors = l.segment_errors + 1 }

abbrev pub streamed : Loop → SegmentTracker → Text → ℕ → Loop
streamed l st url n = record l {
  tracker = st;
  attempt = l.attempt + 1;
  total_bytes = add64 l.total_bytes n;
  sent = l.sent ++ url ∷ [];
}

abbrev pub answered : Option ℕ → Loop → Text → Loop × Ending
answered none l url =
    if ltb hls_max_segment_errors (failed l).segment_errors
    then (failed l, aborted)
    else (failed l, ended)
answered (some n) l url = elim (mark_processed l.tracker url) [
  | none ↦ (l, panicked)
  | some st ↦ (streamed l st url n, ended)
]

abbrev pub send : Upstream → Loop → Text → Loop × Ending
send up l url = answered (up.sends l.attempt) l url

unfoldable pub visit : Upstream → Bool → List Text → Loop → Text → Loop × Ending
visit up is_first segments l url =
    if has_processed l.tracker url
    then (l, ended)
    else if is_first && not (contains (held_back segments) url)
    then mark_in l url
    else if up.cancelled l.attempt
    then (l, cancelled)
    else send up l url

-- The loop over the segments.
abbrev pub go_on : Loop × Ending → (Loop → Loop × Ending) → Loop × Ending
go_on (l, ended) next = next l
go_on (l, cancelled) next = (l, cancelled)
go_on (l, aborted) next = (l, aborted)
go_on (l, panicked) next = (l, panicked)

unfoldable pub refresh_from : Upstream → Bool → List Text → List Text → Loop → Loop × Ending
refresh_from up is_first segments [] l = (l, ended)
refresh_from up is_first segments (url ∷ rest) l =
    go_on (visit up is_first segments l url) (λ l'. refresh_from up is_first segments rest l')

-- On the first refresh a tracker that is too small for the playlist is replaced.
unfoldable pub tracker_for : SegmentTracker → List Text → SegmentTracker
tracker_for st segments =
    if (size st == 0) && ltb (st.max_size / 2) (length segments)
    then new_segment_tracker (length segments * 2)
    else st

unfoldable pub refresh : Upstream → SegmentTracker → ℕ → List Text → Loop × Ending
refresh up st total segments = refresh_from up (size st == 0) segments segments (record {
  tracker = tracker_for st segments;
  attempt = 0;
  segment_errors = 0;
  total_bytes = total;
  sent = [];
})
