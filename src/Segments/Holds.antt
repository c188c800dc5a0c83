-- ===== src/Segments/Holds.antt =====
-- When a tracker stands for a queue, and marking a segment.
use kptv_proxy.Prelude.{
  ℕ, zero, suc, ◌+◌, ◌%◌, ◌<◌, ◌≡◌, refl, sym, subst, ap, ◌∙◌, Bool, true, false, some, List, [],
  ◌∷◌, ◌++◌, length, get_elem?, set, replicate, leb, if◌then◌else◌, arith,
}
use kptv_proxy.Text.{Text, is_empty, contains}
use kptv_proxy.Text.Equality.{text_eq→eq, contains_snoc}
use kptv_proxy.Text.Maps.{TextMap, lookup, insert, delete, lookup-insert, lookup-delete}
use kptv_proxy.Segments.{SegmentTracker, exists, store_at_head, forget, mark_processed}
use kptv_proxy.Segments.Queue.{push, rest_of}
use kptv_proxy.Segments.Slots.{
  Shape, filling, AreDistinct, AreFull, grown, next-Shape, head-Shape, oldest, snoc-AreDistinct,
  snoc-AreFull,
}

pub record Holds (n : ℕ) (st : SegmentTracker) (q : List Text) : Type 0 where
  pub sized : st.max_size ≡ n
  pub shape : Shape n st.segments st.head st.current_size q
  pub known : (u : Text) → exists (lookup u st.segment_map) ≡ contains q u
  pub distinct : AreDistinct q
  pub full : AreFull q

-- The map after the oldest segment is forgotten.
abbrev pub kept_map : Bool → Text → TextMap ℕ → TextMap ℕ
kept_map full old m = if full then (if is_empty old then m else delete old m) else m

-- The queue after the oldest segment is forgotten.
abbrev pub kept_queue : Bool → List Text → List Text
kept_queue full q = if full then rest_of q else q

kept_new :
    (full : Bool) (q : List Text) (u : Text)
    → contains q u ≡ false
    → contains (kept_queue full q) u ≡ false
unfolding contains
kept_new false q u e = e
kept_new true [] u e = e
kept_new true (o ∷ q) u e = ground (arith, e)

kept-AreDistinct : (full : Bool) (q : List Text) → AreDistinct q → AreDistinct (kept_queue full q)
kept-AreDistinct false q v = v
kept-AreDistinct true [] v = v
kept-AreDistinct true (o ∷ q) v = v.1

pub kept-AreFull : (full : Bool) (q : List Text) → AreFull q → AreFull (kept_queue full q)
kept-AreFull false q v = v
kept-AreFull true [] v = v
kept-AreFull true (o ∷ q) v = v.1

none_known : (u : Text) → exists (lookup {V = ℕ} u []) ≡ contains [] u
unfolding lookup contains
none_known u = refl

pub push-kept_queue :
    (n : ℕ) (q : List Text) (u : Text) → push n q u ≡ kept_queue (leb n (length q)) q ++ u ∷ []
push-kept_queue n q u = ground arith

kept_known :
    (full : Bool) (m : TextMap ℕ) (q : List Text)
    → ((u : Text) → exists (lookup u m) ≡ contains q u)
    → AreDistinct q
    → AreFull q
    → (full ≡ true → 0 < length q)
    → (u : Text) → exists (lookup u (kept_map full (oldest q) m)) ≡ contains (kept_queue full q) u
unfolding contains
kept_known false m q k d f p u = k u
kept_known true m [] k d f p u = absurd (omega (arith, p refl))
kept_known true m (o ∷ q) k d f p u =
    rw f.0 (ap exists (lookup-delete o u m) ∙ ground (arith, k u, text_eq→eq o u, d.0))

new_known :
    (m : TextMap ℕ) (q : List Text) (i : ℕ) (url : Text)
    → ((u : Text) → exists (lookup u m) ≡ contains q u)
    → (u : Text) → exists (lookup u (insert url i m)) ≡ contains (q ++ url ∷ []) u
new_known m q i url k u =
    ap exists (lookup-insert url u i m) ∙ ground (arith, k u, contains_snoc q url u)

-- The tracker after a mark.
abbrev pub marked : SegmentTracker → List Text → Text → SegmentTracker
marked st q url = record {
  segments = set st.segments st.head url;
  segment_map =
      insert url st.head (kept_map (leb st.max_size st.current_size) (oldest q) st.segment_map);
  head = (st.head + 1) % st.max_size;
  max_size = st.max_size;
  current_size = grown st.max_size st.current_size;
}

store_at_head_lem :
    (st : SegmentTracker) (url old : Text)
    → get_elem? st.segments st.head ≡ some old
    → 0 < st.max_size
    → store_at_head st url
      ≡ some (record st {
        segments = set st.segments st.head url;
        segment_map = insert url st.head st.segment_map;
        head = (st.head + 1) % st.max_size;
      })
unfolding store_at_head
store_at_head_lem st url old e p = ground (arith, e)

pub mark_processed-marked :
    (st : SegmentTracker) (q : List Text) (url : Text)
    → get_elem? st.segments st.head
      ≡ some (if leb st.max_size st.current_size then oldest q else [])
    → 0 < st.max_size
    → mark_processed st url ≡ some (marked st q url)
unfolding mark_processed forget
mark_processed-marked st q url e p = ground (
  arith,
  e,
  p,
  store_at_head_lem st url (oldest q),
  store_at_head_lem (record st { segment_map = delete (oldest q) st.segment_map }) url (oldest q),
  store_at_head_lem (record st { current_size = st.current_size + 1 }) url [],
)

-- A mark of a new segment pushes it on the queue.
pub mark-Holds :
    (n : ℕ) (st : SegmentTracker) (q : List Text) (url : Text)
    → Holds n st q
    → contains q url ≡ false
    → is_empty url ≡ false
    → (mark_processed st url ≡ some (marked st q url)) × Holds n (marked st q url) (push n q url)
mark-Holds n st q url v new word =
    let (at_head, pos, same, len) = head-Shape n st.segments st.head st.current_size q v.shape in
    let fits : leb st.max_size st.current_size ≡ leb n (length q) =
      ap (λ k. leb k st.current_size) v.sized ∙ same in
    (
      mark_processed-marked st q url
          (at_head
            ∙ ap (λ b. some (if b then oldest q else []))
                (ap (λ k. leb k st.current_size) (sym v.sized)))
          (omega (arith, pos, v.sized)),
      record {
        sized = v.sized;
        shape =
            subst
              (λ k.
                Shape n (set st.segments st.head url) ((st.head + 1) % k) (grown k st.current_size)
                  (push n q url))
              (sym v.sized) (next-Shape n st.segments st.head st.current_size q url v.shape);
        known = λ u.
            ap (λ b. exists (lookup u (insert url st.head (kept_map b (oldest q) st.segment_map))))
              fits
            ∙ new_known (kept_map (leb n (length q)) (oldest q) st.segment_map)
                (kept_queue (leb n (length q)) q) st.head url
                (kept_known (leb n (length q)) st.segment_map q v.known v.distinct v.full
                  (λ e. ground (arith, e, pos)))
                u
            ∙ ap (λ r. contains r u) (sym (push-kept_queue n q url));
        distinct = subst AreDistinct (sym (push-kept_queue n q url)) (
            snoc-AreDistinct (kept_queue (leb n (length q)) q) url
              (kept_new (leb n (length q)) q url new)
              (kept-AreDistinct (leb n (length q)) q v.distinct));
        full = subst AreFull (sym (push-kept_queue n q url)) (
            snoc-AreFull (kept_queue (leb n (length q)) q) url word
              (kept-AreFull (leb n (length q)) q v.full));
      },
    )

-- An empty tracker stands for the empty queue.
pub empty-Holds :
    (n : ℕ) (slots : List Text) (m : TextMap ℕ)
    → 0 < n
    → slots ≡ replicate n []
    → m ≡ []
    → Holds n
        (record { segments = slots; segment_map = m; head = 0; max_size = n; current_size = 0 })
        []
empty-Holds zero slots m p e f = absurd (omega arith)
empty-Holds (suc n) slots m p e f = record {
  sized = refl;
  shape = filling n e refl (omega arith) refl;
  known = λ u. ap (λ r. exists (lookup u r)) f ∙ none_known u;
  distinct = tt;
  full = tt;
}
