-- ===== src/Segments/Repeats.antt =====
-- The tracker against what it remembers, over any sequences of calls, marks of known segments
-- included.
use kptv_proxy.Prelude.{
  ℕ, ◌+◌, ◌%◌, ◌<◌, ◌≡◌, refl, sym, subst, ap, fun_ext, ◌∙◌, inl, inr, Bool, true, false, not, ◌&&◌,
  Option, none, some, List, [], ◌∷◌, map, length, set, replicate, leb, zero, suc, Bool-cases,
  if◌then◌else◌, arith,
}
use kptv_proxy.Text.{Text, is_empty, text_eq}
use kptv_proxy.Text.Maps.{TextMap, lookup, insert, lookup-insert, lookup-delete}
use kptv_proxy.Segments.{
  SegmentTracker, new_segment_tracker, has_processed, exists, mark_processed, size, clear,
  get_tracked_segments,
}
use kptv_proxy.Segments.Queue.{
  Op, visit, marks, has, sizes, clears, tracked, Reply, seen, count, holds, push,
}
use kptv_proxy.Segments.Slots.{
  Shape, filling, AreFull, grown, next-Shape, head-Shape, oldest, snoc-AreFull,
}
use kptv_proxy.Segments.Holds.{
  marked, mark_processed-marked, kept_map, kept_queue, kept-AreFull, push-kept_queue,
}
use kptv_proxy.Segments.Memory
use kptv_proxy.Segments.Memory.{Memory, nothing, dropped, remember}
use kptv_proxy.Segments.Refine.{step, run, step_known, step_new, step-marks}
use kptv_proxy.Segments.Tracked.{length-Shape, blank, tracked-Shape}

-- The tracker stands for what it remembers.
record Remembers (n : ℕ) (st : SegmentTracker) (m : Memory) : Type 0 where
  sized : st.max_size ≡ n
  shape : Shape n st.segments st.head st.current_size m.queue
  known : (u : Text) → exists (lookup u st.segment_map) ≡ m.known u
  full : AreFull m.queue

kept_known :
    (full : Bool) (s : TextMap ℕ) (q : List Text) (k : Text → Bool)
    → ((u : Text) → exists (lookup u s) ≡ k u)
    → AreFull q
    → (full ≡ true → 0 < length q)
    → (u : Text)
    → exists (lookup u (kept_map full (oldest q) s)) ≡ (not (full && text_eq (oldest q) u) && k u)
kept_known false s q k e f p u = e u
kept_known true s [] k e f p u = absurd (omega (arith, p refl))
kept_known true s (o ∷ q) k e f p u = rw f.0 (ap exists (lookup-delete o u s) ∙ ground (arith, e u))

mark-Remembers :
    (n : ℕ) (st : SegmentTracker) (m : Memory) (url : Text)
    → Remembers n st m
    → is_empty url ≡ false
    → (mark_processed st url ≡ some (marked st m.queue url))
      × Remembers n (marked st m.queue url) (remember n m url)
mark-Remembers n st m url v word =
    let q = m.queue in
    let (at_head, pos, same, len) = head-Shape n st.segments st.head st.current_size q v.shape in
    let fits : leb st.max_size st.current_size ≡ leb n (length q) =
      ap (λ k. leb k st.current_size) v.sized ∙ same in
    (
      mark_processed-marked st q url
          (at_head
            ∙ ap (λ b. some (if b then oldest q else []))
                (ap (λ k. leb k st.current_size) (sym v.sized)))
          (omega (arith, pos, v.sized)),
      record {
        sized = v.sized;
        shape =
            subst
              (λ k.
                Shape n (set st.segments st.head url) ((st.head + 1) % k) (grown k st.current_size)
                  (push n q url))
              (sym v.sized) (next-Shape n st.segments st.head st.current_size q url v.shape);
        known = λ u.
            ap (λ b. exists (lookup u (insert url st.head (kept_map b (oldest q) st.segment_map))))
              fits
            ∙ ap exists (
                lookup-insert url u st.head (kept_map (leb n (length q)) (oldest q) st.segment_map))
            ∙ ground (
              arith,
              kept_known (leb n (length q)) st.segment_map q m.known v.known v.full
                  (λ e. ground (arith, e, pos)) u,
            );
        full = subst AreFull (sym (push-kept_queue n q url)) (
            snoc-AreFull (kept_queue (leb n (length q)) q) url word
              (kept-AreFull (leb n (length q)) q v.full));
      },
    )

empty-Remembers :
    (n : ℕ) (slots : List Text) (s : TextMap ℕ)
    → 0 < n
    → slots ≡ replicate n []
    → s ≡ []
    → Remembers n
        (record { segments = slots; segment_map = s; head = 0; max_size = n; current_size = 0 })
        nothing
empty-Remembers zero slots s p e f = absurd (omega arith)
empty-Remembers (suc n) slots s p e f = record {
  sized = refl;
  shape = filling n e refl (omega arith) refl;
  known = λ u. ap (λ r. exists (lookup u r)) f ∙ unfold lookup in refl;
  full = tt;
}

abbrev StepRemembers : ℕ → Memory → Option (SegmentTracker × Reply) → Op → Type 0
StepRemembers n m none op = ⊥
StepRemembers n m (some (st, r)) op =
    (r ≡ (Memory.step n m op).1) × Remembers n st (Memory.step n m op).0

visit-Remembers :
    (n : ℕ) (st : SegmentTracker) (m : Memory) (url : Text)
    → Remembers n st m
    → is_empty url ≡ false
    → StepRemembers n m (step st (visit url)) (visit url)
unfolding has_processed Memory.step
visit-Remembers n st m url v w = elim (Bool-cases (m.known url)) [
  | inl old ↦
      subst (λ o. StepRemembers n m o (visit url)) (sym (step_known st url (v.known url ∙ old)))
        (rw old (refl, v))
  | inr new ↦
      let (e, v') = mark-Remembers n st m url v w in
      subst (λ o. StepRemembers n m o (visit url))
        (sym (step_new st (marked st m.queue url) url (v.known url ∙ new) e)) (rw new (refl, v'))
]

clear-Remembers :
    (n : ℕ) (st : SegmentTracker) (m : Memory) → Remembers n st m → Remembers n (clear st) nothing
unfolding clear
clear-Remembers n st m v =
    let len = length-Shape n st.segments st.head st.current_size m.queue v.shape in
    subst
      (λ k.
        Remembers n
          (record {
            segments = map (λ _. []) st.segments;
            segment_map = [];
            head = 0;
            max_size = k;
            current_size = 0;
          })
          nothing)
      (sym v.sized)
      (empty-Remembers n (map (λ _. []) st.segments) []
        (head-Shape n st.segments st.head st.current_size m.queue v.shape).1
        (blank st.segments ∙ ap (λ k. replicate k []) len) refl)

-- The empty segment is never marked.
abbrev pub IsNamed : Op → Type 0
IsNamed (visit url) = is_empty url ≡ false
IsNamed (marks url) = is_empty url ≡ false
IsNamed (has url) = Unit {0}
IsNamed sizes = Unit {0}
IsNamed clears = Unit {0}
IsNamed tracked = Unit {0}

abbrev pub AreNamed : List Op → Type 0
AreNamed [] = Unit {0}
AreNamed (op ∷ ops) = IsNamed op × AreNamed ops

step-Remembers :
    (n : ℕ) (st : SegmentTracker) (m : Memory) (op : Op)
    → Remembers n st m
    → IsNamed op
    → StepRemembers n m (step st op) op
step-Remembers n st m (visit url) v w = visit-Remembers n st m url v w
step-Remembers n st m (marks url) v w =
    let (e, v') = mark-Remembers n st m url v w in
    subst (λ o. StepRemembers n m o (marks url)) (sym (step-marks st (marked st m.queue url) url e))
      (unfold Memory.step in (refl, v'))
step-Remembers n st m (has url) v w =
    unfold step has_processed Memory.step in (ap seen (v.known url), v)
step-Remembers n st m sizes v w =
    unfold step size Memory.step in
    (ap count (head-Shape n st.segments st.head st.current_size m.queue v.shape).3, v)
step-Remembers n st m clears v w = unfold step Memory.step in (refl, clear-Remembers n st m v)
step-Remembers n st m tracked v w =
    unfold step get_tracked_segments Memory.step in
    (
      ap holds
          (fun_ext (tracked-Shape n st.segments st.head st.current_size m.queue v.shape v.full)),
      v,
    )

run-Remembers :
    (n : ℕ) (st : SegmentTracker) (m : Memory) (ops : List Op)
    → Remembers n st m
    → AreNamed ops
    → run st ops ≡ some (Memory.run n m ops)
unfolding run Memory.run
run-Remembers n st m [] v w = refl
run-Remembers n st m (op ∷ ops) v w =
    next (step st op) (λ st' v'. run-Remembers n st' (Memory.step n m op).0 ops v' w.1)
      (step-Remembers n st m op v w.0)
  where
    next :
        (o : Option (SegmentTracker × Reply))
        → ((st' : SegmentTracker)
            → Remembers n st' (Memory.step n m op).0
            → run st' ops ≡ some (Memory.run n (Memory.step n m op).0 ops))
        → StepRemembers n m o op
        → elim o as (λ _. Option (List Reply)) [
          | none ↦ none
          | some (st', r) ↦ elim (run st' ops) [ none ↦ none | some rs ↦ some (r ∷ rs) ]
        ]
          ≡ some (Memory.run n m (op ∷ ops))
    next none g h = absurd h
    next (some (st', r)) g h = rw (g st' h.1, h.0) refl

-- From a new tracker of a size `n` above 0, any calls that mark no empty segment, marks of known
-- segments included, run without a panic. The size is the number of the last marks since the last
-- clearing, at most `n`, and the tracked segments are theirs. A mark makes its segment known and, if
-- there are `n` marks already, drops the oldest of them, whose segment, unless it is the one marked
-- now, is no longer known, also where another of the last marks is of it.
pub run_remembers :
    (n : ℕ) (ops : List Op)
    → 0 < n
    → AreNamed ops
    → run (new_segment_tracker n) ops ≡ some (Memory.run n nothing ops)
unfolding new_segment_tracker
run_remembers n ops p w =
    run-Remembers n (new_segment_tracker n) nothing ops
      (empty-Remembers n (replicate n []) [] p refl refl) w
