-- ===== src/Segments/Memory.antt =====
-- What a tracker of work/restream/hls.go remembers if a segment may be marked again: the last marks,
-- repeated or not, and which segments are known. A mark on a full queue drops the oldest mark, and
-- its segment is no longer known, also where a later mark of it is in the queue.
use kptv_proxy.Prelude.{ℕ, Bool, true, false, not, ◌&&◌, ◌||◌, List, [], ◌∷◌, length, leb}
use kptv_proxy.Text.{Text, contains, text_eq}
use kptv_proxy.Segments.Queue.{
  Op, visit, marks, has, sizes, clears, tracked, Reply, seen, count, done, holds, push,
}
use kptv_proxy.Segments.Slots.{oldest}

pub record Memory : Type 0 where
  pub queue : List Text
  pub known : Text → Bool

abbrev pub nothing : Memory
nothing = record { queue = []; known = λ u. false }

abbrev pub dropped : ℕ → List Text → Text → Bool
dropped n q u = leb n (length q) && text_eq (oldest q) u

abbrev pub remember : ℕ → Memory → Text → Memory
remember n m url = record {
  queue = push n m.queue url;
  known = λ u. text_eq url u || (not (dropped n m.queue u) && m.known u);
}

abbrev pub unless_known : Bool → Memory → Memory → Memory
unless_known true old new = old
unless_known false old new = new

unfoldable pub step : ℕ → Memory → Op → Memory × Reply
step n m (visit url) = (unless_known (m.known url) m (remember n m url), seen (m.known url))
step n m (marks url) = (remember n m url, done)
step n m (has url) = (m, seen (m.known url))
step n m sizes = (m, count (length m.queue))
step n m clears = (nothing, done)
step n m tracked = (m, holds (contains m.queue))

unfoldable pub run : ℕ → Memory → List Op → List Reply
run n m [] = []
run n m (op ∷ ops) = let (m', r) = step n m op in r ∷ run n m' ops
