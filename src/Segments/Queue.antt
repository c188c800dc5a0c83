-- ===== src/Segments/Queue.antt =====
-- What a stream may rely on: the last segments that were marked, oldest first, at most `max_size`.
use kptv_proxy.Prelude.{ℕ, Bool, List, [], ◌∷◌, ◌++◌, length, leb, if◌then◌else◌}
use kptv_proxy.Text.{Text, contains}

-- The tail of a list.
abbrev pub rest_of : List Text → List Text
rest_of [] = []
rest_of (x ∷ xs) = xs

-- A segment at the end, and the oldest one out if the queue is full.
abbrev pub push : ℕ → List Text → Text → List Text
push max_size q url = if leb max_size (length q) then rest_of q ++ url ∷ [] else q ++ url ∷ []

-- The calls of a tracker. `visit` is what a stream does with a segment: it marks it unless it has
-- seen it. `marks` is a call of MarkProcessed alone.
pub data Op : Type 0 where
  visit marks has : Text → Op
  sizes clears tracked : Op

pub data Reply : Type 0 where
  seen : Bool → Reply
  count : ℕ → Reply
  done : Reply
  holds : (Text → Bool) → Reply

unfoldable pub step : ℕ → List Text → Op → List Text × Reply
step n q (visit url) = (if contains q url then q else push n q url, seen (contains q url))
step n q (marks url) = (push n q url, done)
step n q (has url) = (q, seen (contains q url))
step n q sizes = (q, count (length q))
step n q clears = ([], done)
step n q tracked = (q, holds (contains q))

unfoldable pub run : ℕ → List Text → List Op → List Reply
run n q [] = []
run n q (op ∷ ops) = let (q', r) = step n q op in r ∷ run n q' ops
