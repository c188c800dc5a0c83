-- ===== src/M3u8/Order/Playback.antt =====
-- The order in which the streams of a channel are tried.
use kptv_proxy.Prelude.{
  ℕ, ◌≡◌, refl, ◌∙◌, inl, inr, Bool, true, false, not, List, [], ◌∷◌, ◌++◌, Bool-cases,
  if◌then◌else◌, arith,
}
use kptv_proxy.Text.{Text, contains}
use kptv_proxy.Text.Maps.{TextMap, lookup}
use kptv_proxy.Text.Order.{insert_sorted, sort_stable}
use kptv_proxy.Text.Sorting.{
  text_lt_asym, text_lt_trans, NoneBefore, AreOrdered, IsWeakOrder, lex, sort_stable-AreOrdered,
  sort_stable_twice,
}
use kptv_proxy.M3u8.Fallback.{get}
use kptv_proxy.M3u8.Order.{
  OrderedStream, SortSettings, precedes, dedupe, ranks, is_ranked, ranked_before, select,
  apply_order, sort_streams,
}

-- The order that the channel's viewers get: the streams with a custom rank first, by rank, and the
-- configured order among the others and among equal ranks.
abbrev pub playback_before : SortSettings → TextMap ℕ → OrderedStream → OrderedStream → Bool
playback_before cfg order s1 s2 =
    if is_ranked order s1
    then if is_ranked order s2 then lex (ranked_before order) (precedes cfg) s1 s2 else true
    else if is_ranked order s2
    then false
    else precedes cfg s1 s2

precedes-IsWeakOrder : (cfg : SortSettings) → IsWeakOrder (precedes cfg)
unfolding precedes
precedes-IsWeakOrder cfg = record {
  asym = λ x y h. ground (
    arith,
    h,
    text_lt_asym (get x.attributes cfg.sort_field) (get y.attributes cfg.sort_field),
    text_lt_asym (get y.attributes cfg.sort_field) (get x.attributes cfg.sort_field),
  );
  trans = λ x y z h g. ground (
    arith,
    h,
    g,
    text_lt_trans (get x.attributes cfg.sort_field) (get y.attributes cfg.sort_field)
        (get z.attributes cfg.sort_field),
    text_lt_trans (get z.attributes cfg.sort_field) (get y.attributes cfg.sort_field)
        (get x.attributes cfg.sort_field),
  );
}

ranked_before-IsWeakOrder : (order : TextMap ℕ) → IsWeakOrder (ranked_before order)
ranked_before-IsWeakOrder order = record {
  asym = λ x y h. ground (arith, h);
  trans = λ x y z h g. ground (arith, h, g);
}

dedupe-NoneBefore :
    (less : OrderedStream → OrderedStream → Bool) (x : OrderedStream) (seen : List Text)
    (ys : List OrderedStream)
    → NoneBefore less x ys
    → NoneBefore less x (dedupe seen ys)
unfolding dedupe
dedupe-NoneBefore less x seen [] n = tt
dedupe-NoneBefore less x seen (y ∷ ys) n = elim (Bool-cases (contains seen y.url_hash)) [
  | inl e ↦ rw e (dedupe-NoneBefore less x seen ys n.1)
  | inr e ↦ rw e (n.0, dedupe-NoneBefore less x (y.url_hash ∷ seen) ys n.1)
]

dedupe-AreOrdered :
    (less : OrderedStream → OrderedStream → Bool) (seen : List Text) (xs : List OrderedStream)
    → AreOrdered less xs
    → AreOrdered less (dedupe seen xs)
unfolding dedupe
dedupe-AreOrdered less seen [] o = tt
dedupe-AreOrdered less seen (x ∷ xs) o = elim (Bool-cases (contains seen x.url_hash)) [
  | inl e ↦ rw e (dedupe-AreOrdered less seen xs o.1)
  | inr e ↦ rw e (
    dedupe-NoneBefore less x (x.url_hash ∷ seen) xs o.0,
    dedupe-AreOrdered less (x.url_hash ∷ seen) xs o.1,
  )
]

select-NoneBefore :
    (less : OrderedStream → OrderedStream → Bool) (p : OrderedStream → Bool) (x : OrderedStream)
    (ys : List OrderedStream)
    → NoneBefore less x ys
    → NoneBefore less x (select p ys)
select-NoneBefore less p x [] n = tt
select-NoneBefore less p x (y ∷ ys) n = elim (Bool-cases (p y)) [
  | inl e ↦ rw e (n.0, select-NoneBefore less p x ys n.1)
  | inr e ↦ rw e (select-NoneBefore less p x ys n.1)
]

select-AreOrdered :
    (less : OrderedStream → OrderedStream → Bool) (p : OrderedStream → Bool)
    (xs : List OrderedStream)
    → AreOrdered less xs
    → AreOrdered less (select p xs)
select-AreOrdered less p [] o = tt
select-AreOrdered less p (x ∷ xs) o = elim (Bool-cases (p x)) [
  | inl e ↦ rw e (select-NoneBefore less p x xs o.0, select-AreOrdered less p xs o.1)
  | inr e ↦ rw e (select-AreOrdered less p xs o.1)
]

-- All of a list satisfy a test.
abbrev All : (OrderedStream → Bool) → List OrderedStream → Type 0
All p [] = Unit {0}
All p (x ∷ xs) = (p x ≡ true) × All p xs

select-All : (p : OrderedStream → Bool) (xs : List OrderedStream) → All p (select p xs)
select-All p [] = tt
select-All p (x ∷ xs) = elim (Bool-cases (p x)) [
  | inl e ↦ rw e (e, select-All p xs)
  | inr e ↦ rw e (select-All p xs)
]

-- An order against one that agrees with it on some streams.
agree_none :
    (less by : OrderedStream → OrderedStream → Bool) (p : OrderedStream → Bool)
    → ((x y : OrderedStream) → p x ≡ true → p y ≡ true → by y x ≡ less y x)
    → (x : OrderedStream) (ys : List OrderedStream) → p x ≡ true
    → All p ys
    → NoneBefore less x ys
    → NoneBefore by x ys
agree_none less by p a x [] e q n = tt
agree_none less by p a x (y ∷ ys) e q n = (a x y e q.0 ∙ n.0, agree_none less by p a x ys e q.1 n.1)

agree :
    (less by : OrderedStream → OrderedStream → Bool) (p : OrderedStream → Bool)
    → ((x y : OrderedStream) → p x ≡ true → p y ≡ true → by y x ≡ less y x)
    → (xs : List OrderedStream) → All p xs
    → AreOrdered less xs
    → AreOrdered by xs
agree less by p a [] q o = tt
agree less by p a (x ∷ xs) q o =
    (agree_none less by p a x xs q.0 q.1 o.0, agree less by p a xs q.1 o.1)

-- Sorting permutes, so a test that all satisfy stays so.
insert_sorted-All :
    (p : OrderedStream → Bool) (less : OrderedStream → OrderedStream → Bool) (x : OrderedStream)
    (ys : List OrderedStream)
    → p x ≡ true
    → All p ys
    → All p (insert_sorted less x ys)
unfolding insert_sorted
insert_sorted-All p less x [] e q = (e, tt)
insert_sorted-All p less x (y ∷ ys) e q = elim (Bool-cases (less y x)) [
  | inl b ↦ rw b (q.0, insert_sorted-All p less x ys e q.1)
  | inr b ↦ rw b (e, q)
]

sort_stable-All :
    (p : OrderedStream → Bool) (less : OrderedStream → OrderedStream → Bool)
    (xs : List OrderedStream)
    → All p xs
    → All p (sort_stable less xs)
unfolding sort_stable
sort_stable-All p less [] q = tt
sort_stable-All p less (x ∷ xs) q =
    insert_sorted-All p less x (sort_stable less xs) q.0 (sort_stable-All p less xs q.1)

-- Two ordered lists of which none of the second comes before one of the first.
append-NoneBefore :
    (less : OrderedStream → OrderedStream → Bool) (x : OrderedStream) (xs ys : List OrderedStream)
    → NoneBefore less x xs
    → NoneBefore less x ys
    → NoneBefore less x (xs ++ ys)
append-NoneBefore less x [] ys n m = m
append-NoneBefore less x (y ∷ xs) ys n m = (n.0, append-NoneBefore less x xs ys n.1 m)

append-AreOrdered :
    (less : OrderedStream → OrderedStream → Bool) (p q : OrderedStream → Bool)
    → ((x y : OrderedStream) → p x ≡ true → q y ≡ true → less y x ≡ false)
    → (xs ys : List OrderedStream) → All p xs
    → All q ys
    → AreOrdered less xs
    → AreOrdered less ys
    → AreOrdered less (xs ++ ys)
append-AreOrdered less p q a [] ys v w o r = r
append-AreOrdered less p q a (x ∷ xs) ys v w o r = (
  append-NoneBefore less x xs ys o.0 (none_of ys w),
  append-AreOrdered less p q a xs ys v.1 w o.1 r,
)
  where
    none_of : (ys : List OrderedStream) → All q ys → NoneBefore less x ys
    none_of [] w = tt
    none_of (y ∷ ys) w = (a x y v.0 w.0, none_of ys w.1)

no_ranks :
    (cfg : SortSettings) (xs : List OrderedStream)
    → AreOrdered (precedes cfg) xs
    → AreOrdered (playback_before cfg []) xs
unfolding lookup
no_ranks cfg xs o =
    agree (precedes cfg) (playback_before cfg []) (λ _. true) (λ x y e f. refl) xs (all_true xs) o
  where
    all_true : (xs : List OrderedStream) → All (λ _. true) xs
    all_true [] = tt
    all_true (x ∷ xs) = (refl, all_true xs)

apply_order-AreOrdered :
    (cfg : SortSettings) (order : TextMap ℕ) (xs : List OrderedStream)
    → AreOrdered (precedes cfg) xs
    → AreOrdered (playback_before cfg order) (apply_order order xs)
unfolding apply_order
apply_order-AreOrdered cfg [] xs o = no_ranks cfg xs o
apply_order-AreOrdered cfg (entry ∷ rest) xs o =
    let order = entry ∷ rest in
    let chosen = select (is_ranked order) xs in
    let others = select (λ s. not (is_ranked order s)) xs in
    append-AreOrdered (playback_before cfg order) (is_ranked order) (λ s. not (is_ranked order s))
      (λ x y e f. ground (arith, e, f)) (sort_stable (ranked_before order) chosen) others
      (sort_stable-All (is_ranked order) (ranked_before order) chosen
        (select-All (is_ranked order) xs))
      (select-All (λ s. not (is_ranked order s)) xs)
      (agree (lex (ranked_before order) (precedes cfg)) (playback_before cfg order)
        (is_ranked order) (λ x y e f. rw (e, f) refl) (sort_stable (ranked_before order) chosen)
        (sort_stable-All (is_ranked order) (ranked_before order) chosen
          (select-All (is_ranked order) xs))
        (sort_stable_twice (ranked_before order) (precedes cfg) (ranked_before-IsWeakOrder order)
          (precedes-IsWeakOrder cfg) chosen
          (select-AreOrdered (precedes cfg) (is_ranked order) xs o)))
      (agree (precedes cfg) (playback_before cfg order) (λ s. not (is_ranked order s))
        (λ x y e f. ground (arith, e, f)) others (select-All (λ s. not (is_ranked order s)) xs)
        (select-AreOrdered (precedes cfg) (λ s. not (is_ranked order s)) xs o))

-- The sorted streams are in the order of playback: those with a custom rank for the channel come
-- first, by rank, and the others, like those of equal rank, in the configured order: by the
-- source's place, then by the place of import or by an attribute, up or down.
pub sort_streams-AreOrdered :
    (cfg : SortSettings) (channel_name : Text) (all_orders : TextMap (TextMap ℕ))
    (streams : List OrderedStream)
    → AreOrdered
        (playback_before cfg (ranks all_orders channel_name))
        (sort_streams cfg channel_name all_orders streams)
unfolding sort_streams
sort_streams-AreOrdered cfg channel_name all_orders [] = tt
sort_streams-AreOrdered cfg channel_name all_orders (s ∷ streams) =
    apply_order-AreOrdered cfg (ranks all_orders channel_name)
      (dedupe [] (sort_stable (precedes cfg) (s ∷ streams)))
      (dedupe-AreOrdered (precedes cfg) [] (sort_stable (precedes cfg) (s ∷ streams))
        (sort_stable-AreOrdered (precedes cfg) (precedes-IsWeakOrder cfg) (s ∷ streams)))
