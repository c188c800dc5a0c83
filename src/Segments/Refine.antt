-- ===== src/Segments/Refine.antt =====
-- The tracker against its queue, over sequences of calls.
use kptv_proxy.Prelude.{
  ℕ, ◌<◌, ◌≡◌, refl, sym, subst, ap, fun_ext, ◌∙◌, inl, inr, Bool, true, false, Option, none, some,
  List, [], ◌∷◌, map, replicate, Bool-cases, if◌then◌else◌, arith,
}
use kptv_proxy.Text.{Text, is_empty, contains}
use kptv_proxy.Segments.{
  SegmentTracker, new_segment_tracker, has_processed, mark_processed, size, clear,
  get_tracked_segments,
}
use kptv_proxy.Segments.Tracked.{length-Shape, blank, tracked-Shape}
use kptv_proxy.Segments.Queue
use kptv_proxy.Segments.Queue.{
  Op, visit, marks, has, sizes, clears, tracked, Reply, seen, count, done, holds, push,
}
use kptv_proxy.Segments.Slots.{head-Shape}
use kptv_proxy.Segments.Holds.{Holds, marked, mark-Holds, empty-Holds}

-- `if HasProcessed(s) { … } else { MarkProcessed(s) }`, as the stream calls the two.
unfoldable pub visit_segment : SegmentTracker → Text → Option (SegmentTracker × Bool)
visit_segment st url =
    if has_processed st url
    then some (st, true)
    else elim (mark_processed st url) [ none ↦ none | some st' ↦ some (st', false) ]

unfoldable pub step : SegmentTracker → Op → Option (SegmentTracker × Reply)
step st (visit url) = elim (visit_segment st url) [
  | none ↦ none
  | some (st', b) ↦ some (st', seen b)
]
step st (marks url) = elim (mark_processed st url) [ none ↦ none | some st' ↦ some (st', done) ]
step st (has url) = some (st, seen (has_processed st url))
step st sizes = some (st, count (size st))
step st clears = some (clear st, done)
step st tracked = some (st, holds (contains (get_tracked_segments st)))

unfoldable pub run : SegmentTracker → List Op → Option (List Reply)
run st [] = some []
run st (op ∷ ops) = elim (step st op) [
  | none ↦ none
  | some (st', r) ↦ elim (run st' ops) [ none ↦ none | some rs ↦ some (r ∷ rs) ]
]

-- The empty segment is never marked, since a playlist's blank lines are skipped, and MarkProcessed is
-- called only with a segment that is not among the last ones marked.
abbrev pub IsFresh : List Text → Op → Type 0
IsFresh q (visit url) = is_empty url ≡ false
IsFresh q (marks url) = (is_empty url ≡ false) × (contains q url ≡ false)
IsFresh q (has url) = Unit {0}
IsFresh q sizes = Unit {0}
IsFresh q clears = Unit {0}
IsFresh q tracked = Unit {0}

abbrev pub AreFresh : ℕ → List Text → List Op → Type 0
AreFresh n q [] = Unit {0}
AreFresh n q (op ∷ ops) = IsFresh q op × AreFresh n (Queue.step n q op).0 ops

abbrev StepHolds : ℕ → List Text → Option (SegmentTracker × Reply) → Op → Type 0
StepHolds n q none op = ⊥
StepHolds n q (some (st, r)) op = (r ≡ (Queue.step n q op).1) × Holds n st (Queue.step n q op).0

pub step_known :
    (st : SegmentTracker) (url : Text)
    → has_processed st url ≡ true
    → step st (visit url) ≡ some (st, seen true)
unfolding step visit_segment
step_known st url e = ground (arith, e)

pub step_new :
    (st st' : SegmentTracker) (url : Text)
    → has_processed st url ≡ false
    → mark_processed st url ≡ some st'
    → step st (visit url) ≡ some (st', seen false)
unfolding step visit_segment
step_new st st' url e f = ground (arith, e, f)

visit-Holds :
    (n : ℕ) (st : SegmentTracker) (q : List Text) (url : Text)
    → Holds n st q
    → is_empty url ≡ false
    → StepHolds n q (step st (visit url)) (visit url)
unfolding has_processed Queue.step
visit-Holds n st q url v w = elim (Bool-cases (contains q url)) [
  | inl old ↦
      subst (λ o. StepHolds n q o (visit url)) (sym (step_known st url (v.known url ∙ old)))
        (rw old (refl, v))
  | inr new ↦
      let (e, v') = mark-Holds n st q url v new w in
      subst (λ o. StepHolds n q o (visit url))
        (sym (step_new st (marked st q url) url (v.known url ∙ new) e)) (rw new (refl, v'))
]

pub step-marks :
    (st st' : SegmentTracker) (url : Text)
    → mark_processed st url ≡ some st'
    → step st (marks url) ≡ some (st', done)
unfolding step
step-marks st st' url f = ground (arith, f)

marks-Holds :
    (n : ℕ) (st : SegmentTracker) (q : List Text) (url : Text)
    → Holds n st q
    → (is_empty url ≡ false) × (contains q url ≡ false)
    → StepHolds n q (step st (marks url)) (marks url)
unfolding Queue.step
marks-Holds n st q url v w =
    let (e, v') = mark-Holds n st q url v w.1 w.0 in
    subst (λ o. StepHolds n q o (marks url)) (sym (step-marks st (marked st q url) url e))
      (refl, v')

clear-Holds : (n : ℕ) (st : SegmentTracker) (q : List Text) → Holds n st q → Holds n (clear st) []
unfolding clear
clear-Holds n st q v =
    let len = length-Shape n st.segments st.head st.current_size q v.shape in
    subst
      (λ k.
        Holds n
          (record {
            segments = map (λ _. []) st.segments;
            segment_map = [];
            head = 0;
            max_size = k;
            current_size = 0;
          })
          [])
      (sym v.sized)
      (empty-Holds n (map (λ _. []) st.segments) []
        (head-Shape n st.segments st.head st.current_size q v.shape).1
        (blank st.segments ∙ ap (λ k. replicate k []) len) refl)

step-Holds :
    (n : ℕ) (st : SegmentTracker) (q : List Text) (op : Op)
    → Holds n st q
    → IsFresh q op
    → StepHolds n q (step st op) op
step-Holds n st q (visit url) v w = visit-Holds n st q url v w
step-Holds n st q (marks url) v w = marks-Holds n st q url v w
step-Holds n st q (has url) v w = unfold step has_processed Queue.step in (ap seen (v.known url), v)
step-Holds n st q sizes v w =
    unfold step size Queue.step in
    (ap count (head-Shape n st.segments st.head st.current_size q v.shape).3, v)
step-Holds n st q clears v w = unfold step Queue.step in (refl, clear-Holds n st q v)
step-Holds n st q tracked v w =
    unfold step get_tracked_segments Queue.step in
    (ap holds (fun_ext (tracked-Shape n st.segments st.head st.current_size q v.shape v.full)), v)

run-Holds :
    (n : ℕ) (st : SegmentTracker) (q : List Text) (ops : List Op)
    → Holds n st q
    → AreFresh n q ops
    → run st ops ≡ some (Queue.run n q ops)
unfolding run Queue.run
run-Holds n st q [] v w = refl
run-Holds n st q (op ∷ ops) v w =
    next (step st op) (λ st' v'. run-Holds n st' (Queue.step n q op).0 ops v' w.1)
      (step-Holds n st q op v w.0)
  where
    next :
        (o : Option (SegmentTracker × Reply))
        → ((st' : SegmentTracker)
            → Holds n st' (Queue.step n q op).0
            → run st' ops ≡ some (Queue.run n (Queue.step n q op).0 ops))
        → StepHolds n q o op
        → elim o as (λ _. Option (List Reply)) [
          | none ↦ none
          | some (st', r) ↦ elim (run st' ops) [ none ↦ none | some rs ↦ some (r ∷ rs) ]
        ]
          ≡ some (Queue.run n q (op ∷ ops))
    next none g h = absurd h
    next (some (st', r)) g h = rw (g st' h.1, h.0) refl

-- From a new tracker of a size `n` above 0, calls that mark no empty segment, and MarkProcessed alone
-- only with a segment that is not among the last `n` marked since the last clearing, run without a
-- panic, and the replies are those of a bounded queue: a segment is known exactly if it is among the
-- last `n` that were marked since the last clearing, the size is their number, and the tracked
-- segments are these.
pub run_queues :
    (n : ℕ) (ops : List Op)
    → 0 < n
    → AreFresh n [] ops
    → run (new_segment_tracker n) ops ≡ some (Queue.run n [] ops)
unfolding new_segment_tracker
run_queues n ops p w =
    run-Holds n (new_segment_tracker n) [] ops (empty-Holds n (replicate n []) [] p refl refl) w
