-- ===== src/Segments/Replay.antt =====
-- The loop over a whole playlist, and the refresh after it.
use kptv_proxy.Prelude.{
  ℕ, ◌+◌, ◌*◌, ◌/◌, ◌<◌, ◌≤◌, ◌≡◌, refl, sym, subst, ap, ◌∙◌, inl, inr, Bool, true, List, [], ◌∷◌,
  length, ltb, ◌==◌, Bool-cases, replicate, if◌then◌else◌, arith,
}
use kptv_proxy.Text.{Text, contains}
use kptv_proxy.Segments.{SegmentTracker, new_segment_tracker, has_processed, size}
use kptv_proxy.Segments.Slots.{AreDistinct, AreFull, head-Shape}
use kptv_proxy.Segments.Holds.{Holds, empty-Holds}
use kptv_proxy.Segments.Refresh.{
  Upstream, Loop, Ending, ended, cancelled, aborted, panicked, visit, go_on, refresh_from, refresh,
  tracker_for,
}
use kptv_proxy.Segments.Live.{Kept, Visited, VisitHolds, visit-VisitHolds}

-- Every segment of a list is in the queue.
abbrev pub AreIn : List Text → List Text → Type 0
AreIn [] q = Unit {0}
AreIn (url ∷ rest) q = (contains q url ≡ true) × AreIn rest q

pub record Moved (m : ℕ) (rest : List Text) (q : List Text) (l l' : Loop) : Type 0 where
  pub later : List Text
  pub kept : Kept m later l'
  pub stays : (u : Text) → contains q u ≡ true → contains later u ≡ true
  pub errors : l.segment_errors ≤ l'.segment_errors
  pub found : l'.segment_errors ≡ l.segment_errors → AreIn rest later

abbrev pub LoopHolds : ℕ → List Text → List Text → Loop → Loop × Ending → Type 0
LoopHolds m rest q l (l', ended) = Moved m rest q l l'
LoopHolds m rest q l (l', cancelled) = AreDistinct l'.sent
LoopHolds m rest q l (l', aborted) = AreDistinct l'.sent
LoopHolds m rest q l (l', panicked) = ⊥

moved_on :
    (m : ℕ) (url : Text) (rest q : List Text) (l l' : Loop) (v : Visited m q url l l')
    → (r : Loop × Ending) → LoopHolds m rest v.later l' r
    → LoopHolds m (url ∷ rest) q l r
moved_on m url rest q l l' v (l'', ended) w = record {
  later = w.later;
  kept = w.kept;
  stays = λ u e. w.stays u (v.stays u e);
  errors = omega (arith, v.errors, w.errors);
  found = λ e. (
    w.stays url (v.found (omega (arith, e, v.errors, w.errors))),
    w.found (omega (arith, e, v.errors, w.errors)),
  );
}
moved_on m url rest q l l' v (l'', cancelled) w = w
moved_on m url rest q l l' v (l'', aborted) w = w
moved_on m url rest q l l' v (l'', panicked) w = absurd w

refresh_from-LoopHolds :
    (m : ℕ) (up : Upstream) (b : Bool) (segments rest q : List Text) (l : Loop)
    → Kept m q l
    → length q + length rest ≤ m
    → AreFull rest
    → LoopHolds m rest q l (refresh_from up b segments rest l)
unfolding refresh_from
refresh_from-LoopHolds m up b segments [] q l k p f = record {
  later = q;
  kept = k;
  stays = λ u e. e;
  errors = omega arith;
  found = λ _. tt;
}
refresh_from-LoopHolds m up b segments (url ∷ rest) q l k p f =
    next (visit up b segments l url)
      (visit-VisitHolds m q url up b segments l k (omega (arith, p)) f.0)
      (λ q' l' k' p'. refresh_from-LoopHolds m up b segments rest q' l' k' p' f.1)
  where
    next :
        (r : Loop × Ending)
        → VisitHolds m q url l r
        → ((q' : List Text) (l' : Loop)
            → Kept m q' l'
            → length q' + length rest ≤ m
            → LoopHolds m rest q' l' (refresh_from up b segments rest l'))
        → LoopHolds m (url ∷ rest) q l (go_on r (λ l'. refresh_from up b segments rest l'))
    next (l', ended) v g =
        moved_on m url rest q l l' v (refresh_from up b segments rest l')
          (g v.later l' v.kept (omega (arith, v.near, p)))
    next (l', cancelled) v g = v
    next (l', aborted) v g = v
    next (l', panicked) v g = absurd v

-- A tracker that knows the whole playlist: nothing to do.
refresh_from_known :
    (m : ℕ) (up : Upstream) (b : Bool) (segments rest q : List Text) (l : Loop)
    → Holds m l.tracker q
    → AreIn rest q
    → refresh_from up b segments rest l ≡ (l, ended)
unfolding refresh_from
refresh_from_known m up b segments [] q l h i = refl
refresh_from_known m up b segments (url ∷ rest) q l h i =
    ap (λ r. go_on r (λ l'. refresh_from up b segments rest l')) known
    ∙ refresh_from_known m up b segments rest q l h i.1
  where
    known : visit up b segments l url ≡ (l, ended)
    known = unfold visit has_processed in ground (arith, h.known url, i.0)

-- The loop at the start of a refresh.
abbrev pub start : SegmentTracker → ℕ → Loop
start st total = record {
  tracker = st;
  attempt = 0;
  segment_errors = 0;
  total_bytes = total;
  sent = [];
}

new-Holds : (n : ℕ) → 0 < n → Holds n (new_segment_tracker n) []
unfolding new_segment_tracker
new-Holds n p = empty-Holds n (replicate n []) [] p refl refl

start-Kept : (m : ℕ) (st : SegmentTracker) (total : ℕ) → Holds m st [] → Kept m [] (start st total)
unfolding contains
start-Kept m st total h = record { holds = h; once = tt; sent_known = λ u e. e }

tracker_for_new :
    (n : ℕ) (segments : List Text)
    → tracker_for (new_segment_tracker n) segments ≡ (
        if ltb (n / 2) (length segments)
        then new_segment_tracker (length segments * 2)
        else new_segment_tracker n)
unfolding tracker_for size new_segment_tracker
tracker_for_new n segments = refl

-- The capacity that a first refresh works with.
abbrev pub capacity : ℕ → List Text → ℕ
capacity n segments = if ltb (n / 2) (length segments) then length segments * 2 else n

tracker_for-Holds :
    (n : ℕ) (segments : List Text)
    → 0 < n
    → Holds (capacity n segments) (tracker_for (new_segment_tracker n) segments) []
tracker_for-Holds n segments p =
    subst (λ st. Holds (capacity n segments) st []) (sym (tracker_for_new n segments))
      (elim (Bool-cases (ltb (n / 2) (length segments))) [
        | inl e ↦ rw e (new-Holds (length segments * 2) (ground (arith, e)))
        | inr e ↦ rw e (new-Holds n p)
      ])

first-LoopHolds :
    (n : ℕ) (up : Upstream) (segments : List Text) (total : ℕ)
    → 0 < n
    → AreFull segments
    → LoopHolds
        (capacity n segments)
        segments
        []
        (start (tracker_for (new_segment_tracker n) segments) total)
        (refresh up (new_segment_tracker n) total segments)
unfolding refresh
first-LoopHolds n up segments total p f =
    refresh_from-LoopHolds (capacity n segments) up (size (new_segment_tracker n) == 0) segments
      segments [] (start (tracker_for (new_segment_tracker n) segments) total)
      (start-Kept (capacity n segments) (tracker_for (new_segment_tracker n) segments) total
        (tracker_for-Holds n segments p))
      (ground arith) f

tracker_for_used :
    (m : ℕ) (st : SegmentTracker) (q segments : List Text)
    → Holds m st q
    → AreIn segments q
    → tracker_for st segments ≡ st
unfolding tracker_for size contains
tracker_for_used m st q [] h i = ground arith
tracker_for_used m st [] (url ∷ rest) h i = absurd (cc i.0)
tracker_for_used m st (u ∷ q) (url ∷ rest) h i =
    ground (arith, (head-Shape m st.segments st.head st.current_size (u ∷ q) h.shape).3)

refresh_known :
    (m : ℕ) (up : Upstream) (st : SegmentTracker) (total : ℕ) (segments q : List Text)
    → Holds m st q
    → AreIn segments q
    → refresh up st total segments ≡ (start st total, ended)
unfolding refresh
refresh_known m up st total segments q h i =
    ap (λ t. refresh_from up (size st == 0) segments segments (start t total))
      (tracker_for_used m st q segments h i)
    ∙ refresh_from_known m up (size st == 0) segments segments q (start st total) h i

-- The first refresh of an HLS playlist of segments that are not empty, with a new tracker of a size
-- above 0, never indexes the tracker out of range, and however it ends, no segment was streamed
-- twice.
pub refresh_once :
    (n : ℕ) (up : Upstream) (segments : List Text) (total : ℕ)
    → 0 < n
    → AreFull segments
    → ¬ ((refresh up (new_segment_tracker n) total segments).1 ≡ panicked)
      × AreDistinct (refresh up (new_segment_tracker n) total segments).0.sent
refresh_once n up segments total p f =
    all (refresh up (new_segment_tracker n) total segments)
      (first-LoopHolds n up segments total p f)
  where
    all :
        (r : Loop × Ending)
        → LoopHolds
            (capacity n segments)
            segments
            []
            (start (tracker_for (new_segment_tracker n) segments) total)
            r
        → ¬ (r.1 ≡ panicked) × AreDistinct r.0.sent
    all (l, ended) w = (λ e. cc e, w.kept.once)
    all (l, cancelled) w = (λ e. cc e, w)
    all (l, aborted) w = (λ e. cc e, w)
    all (l, panicked) w = absurd w

-- If the first refresh, with a new tracker of a size above 0, reads an HLS playlist of segments
-- that are not empty to its end and no segment failed, then another refresh of the same playlist,
-- whatever the upstream answers, ends without streaming any segment and leaves the tracker as it
-- was.
pub no_replay :
    (n : ℕ) (up up' : Upstream) (segments : List Text) (total total' : ℕ)
    → 0 < n
    → AreFull segments
    → (refresh up (new_segment_tracker n) total segments).1 ≡ ended
    → (refresh up (new_segment_tracker n) total segments).0.segment_errors ≡ 0
    → refresh up' (refresh up (new_segment_tracker n) total segments).0.tracker total' segments
      ≡ (start (refresh up (new_segment_tracker n) total segments).0.tracker total', ended)
no_replay n up up' segments total total' p f =
    all (refresh up (new_segment_tracker n) total segments)
      (first-LoopHolds n up segments total p f)
  where
    all :
        (r : Loop × Ending)
        → LoopHolds
            (capacity n segments)
            segments
            []
            (start (tracker_for (new_segment_tracker n) segments) total)
            r
        → r.1 ≡ ended
        → r.0.segment_errors ≡ 0
        → refresh up' r.0.tracker total' segments ≡ (start r.0.tracker total', ended)
    all (l, ended) w e z =
        refresh_known (capacity n segments) up' l.tracker total' segments w.later w.kept.holds
          (w.found z)
    all (l, cancelled) w e z = absurd (cc e)
    all (l, aborted) w e z = absurd (cc e)
    all (l, panicked) w e z = absurd w
