-- ===== src/Segments.antt =====
-- SegmentTracker of work/restream/hls.go, the bounded memory of the segments that an HLS stream has
-- sent. `none` stands for a run-time panic: an index out of range or a remainder by zero. A method
-- holds the tracker's lock throughout.
pub mod Queue
pub mod Slots
pub mod Holds
pub mod Tracked
pub mod Refine
pub mod Memory
pub mod Repeats
pub mod Refresh
pub mod Live
pub mod Replay
mod Tests
use kptv_proxy.Prelude.{
  ℕ, suc, ◌+◌, ◌%◌, Bool, true, false, not, Option, none, some, List, [], ◌∷◌, map, get_elem?, set,
  replicate, leb, ◌==◌, if◌then◌else◌,
}
use kptv_proxy.Text.{Text, is_empty}
use kptv_proxy.Text.Maps.{TextMap, lookup, insert, delete}

pub record SegmentTracker : Type 0 where
  pub segments : List Text
  pub segment_map : TextMap ℕ
  pub head : ℕ
  pub max_size : ℕ
  pub current_size : ℕ

unfoldable pub new_segment_tracker : ℕ → SegmentTracker
new_segment_tracker max_size = record {
  segments = replicate max_size [];
  segment_map = [];
  head = 0;
  max_size = max_size;
  current_size = 0;
}

abbrev pub exists {ℓ} : {A : Type ℓ} → Option A → Bool
exists none = false
exists (some a) = true

unfoldable pub has_processed : SegmentTracker → Text → Bool
has_processed st url = exists (lookup url st.segment_map)

-- The step at the head: the slot is written, the map gets its place, and the head moves on.
unfoldable pub store_at_head : SegmentTracker → Text → Option SegmentTracker
store_at_head st url = elim (get_elem? st.segments st.head) [
  | none ↦ none
  | some _ ↦
      if st.max_size == 0
      then none
      else some (record st {
        segments = set st.segments st.head url;
        segment_map = insert url st.head st.segment_map;
        head = (st.head + 1) % st.max_size;
      })
]

-- A full tracker forgets the segment that is about to be overwritten; an empty slot is no segment.
unfoldable pub forget : SegmentTracker → Text → SegmentTracker
forget st old = if is_empty old then st else record st { segment_map = delete old st.segment_map }

unfoldable pub mark_processed : SegmentTracker → Text → Option SegmentTracker
unfolding forget
mark_processed st url =
    if leb st.max_size st.current_size
    then elim (get_elem? st.segments st.head) [
      | none ↦ none
      | some old ↦ store_at_head (forget st old) url
    ]
    else store_at_head (record st { current_size = st.current_size + 1 }) url

unfoldable pub size : SegmentTracker → ℕ
size st = st.current_size

unfoldable pub clear : SegmentTracker → SegmentTracker
clear st = record st {
  segment_map = [];
  segments = map (λ _. []) st.segments;
  head = 0;
  current_size = 0;
}

-- The slots that are not empty.
unfoldable pub filled : List Text → List Text
filled [] = []
filled (s ∷ slots) = let rest = filled slots in if is_empty s then rest else s ∷ rest

unfoldable pub get_tracked_segments : SegmentTracker → List Text
unfolding filled
get_tracked_segments st = filled st.segments
