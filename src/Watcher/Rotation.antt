-- ===== src/Watcher/Rotation.antt =====
-- The next available stream in rotation.
use kptv_proxy.Prelude.{
  ℕ, zero, suc, ◌+◌, ◌-◌, ◌%◌, ◌≤◌, ◌<◌, ◌≡◌, ◌≢◌, refl, sym, subst, ap, ◌∙◌, inl, inr, true, false,
  Option, none, some, List, length, ltb, leb, ◌==◌, dec_lt, Bool-cases, if◌then◌else◌, arith,
}
use native.Mathlib.Nat.{mod-eq_of_lt, mod-eq-sub-mod, add-mod_right}
use kptv_proxy.Watcher.Choice.{ChannelStream, available_at, search_from, find_next_available_stream}

-- The first stream after the current one that is available, or that there is none.
abbrev pub IsNext : List ChannelStream → ℕ → ℕ → ℕ → Option ℕ → Type 0
IsNext streams current i last none =
    (k : ℕ) → i ≤ k → k < last → available_at streams ((current + k) % length streams) ≡ false
IsNext streams current i last (some j) =
    (k : ℕ) × (i ≤ k)
    × (k < last)
    × (j ≡ (current + k) % length streams)
    × (available_at streams j ≡ true)
    × ((m : ℕ) → i ≤ m → m < k → available_at streams ((current + m) % length streams) ≡ false)

-- One more stream that is not available, before others.
one_earlier :
    (streams : List ChannelStream) (current i bound : ℕ)
    → available_at streams ((current + i) % length streams) ≡ false
    → ((k : ℕ)
        → i + 1 ≤ k
        → k < bound
        → available_at streams ((current + k) % length streams) ≡ false)
    → (k : ℕ) → i ≤ k
    → k < bound
    → available_at streams ((current + k) % length streams) ≡ false
one_earlier streams current i bound e h k p q = elim (Bool-cases (k == i)) [
  | inl s ↦
      subst (λ m. available_at streams ((current + m) % length streams) ≡ false) (ground (arith, s))
        e
  | inr s ↦ h k (ground (arith, s, p)) q
]

later_IsNext :
    (streams : List ChannelStream) (current i last : ℕ) (o : Option ℕ)
    → available_at streams ((current + i) % length streams) ≡ false
    → IsNext streams current (i + 1) last o
    → IsNext streams current i last o
later_IsNext streams current i last none e h = one_earlier streams current i last e h
later_IsNext streams current i last (some j) e (k, p, q, at, a, before) =
    (k, omega (arith, p), q, at, a, one_earlier streams current i k e before)

search_from-IsNext :
    (streams : List ChannelStream) (current i left : ℕ)
    → IsNext streams current i (i + left) (search_from streams current i left)
unfolding search_from
search_from-IsNext streams current i zero = λ k p q. absurd (omega (arith, p, q))
search_from-IsNext streams current i (suc left) =
    elim (Bool-cases (available_at streams ((current + i) % length streams))) [
      | inl e ↦ rw e (i, omega arith, omega arith, refl, e, λ m p q. absurd (omega (arith, p, q)))
      | inr e ↦ rw e (
          later_IsNext streams current i (i + suc left) (search_from streams current (i + 1) left) e
            (subst
              (λ n. IsNext streams current (i + 1) n (search_from streams current (i + 1) left))
              (omega arith) (search_from-IsNext streams current (i + 1) left)))
    ]

-- How far a stream is after another in rotation.
abbrev pub distance : ℕ → ℕ → ℕ → ℕ
distance n current j = if ltb current j then j - current else j + n - current

rotate_lem : (n current j : ℕ) → current < n → j < n → (current + distance n current j) % n ≡ j
rotate_lem n current j p q = elim (Bool-cases (ltb current j)) [
  | inl e ↦ rw e (ap (λ m. m % n) (ground (arith, e)) ∙ mod-eq_of_lt {n = j} {m = n} q)
  | inr e ↦
      rw e (
        ap (λ m. m % n) (ground (arith, e, p)) ∙ add-mod_right j n ∙ mod-eq_of_lt {n = j} {m = n} q)
]

distance_bounds :
    (n current j : ℕ)
    → current < n
    → j < n
    → j ≢ current
    → (1 ≤ distance n current j) × (distance n current j < n)
distance_bounds n current j p q d = elim (Bool-cases (ltb current j)) [
  | inl e ↦ rw e (ground (arith, e, q), ground (arith, e, q))
  | inr e ↦
      let below : (j < current) = before e in
      rw e (omega (arith, p, below), omega (arith, p, below))
]
  where
    before : ltb current j ≡ false → j < current
    before e = elim (dec_lt j current) [ yes l ↦ l | no l ↦ absurd (d (ground (arith, e, l))) ]

not_current : (n current k : ℕ) → current < n → 1 ≤ k → k < n → (current + k) % n ≢ current
not_current n current k p q r e = elim (dec_lt (current + k) n) [
  | yes l ↦ absurd (omega (arith, sym (mod-eq_of_lt {n = current + k} {m = n} l) ∙ e, q))
  | no l ↦ absurd (
      omega (
        arith,
        sym (mod-eq_of_lt {n = current + k - n} {m = n} (omega (arith, p, r)))
            ∙ sym (mod-eq-sub-mod {n = current + k} {m = n} (omega (arith, l)))
            ∙ e,
        r,
        q,
      ))
]

distance_of :
    (n current k : ℕ) → current < n → 1 ≤ k → k < n → distance n current ((current + k) % n) ≡ k
distance_of n current k p q r = elim (dec_lt (current + k) n) [
  | yes l ↦ ap (distance n current) (mod-eq_of_lt {n = current + k} {m = n} l) ∙ ground (arith, q)
  | no l ↦
      ap (distance n current) (
        mod-eq-sub-mod {n = current + k} {m = n} (omega (arith, l))
        ∙ mod-eq_of_lt {n = current + k - n} {m = n} (omega (arith, p, r)))
      ∙ ground (arith, p, r, l)
]

-- What the search promises: none of the other streams is available, or one of them is, the nearest
-- in rotation.
abbrev pub IsChosen : List ChannelStream → ℕ → Option ℕ → Type 0
IsChosen streams current none =
    (j : ℕ) → j < length streams → j ≢ current → available_at streams j ≡ false
IsChosen streams current (some j) =
    (j ≢ current)
    × (available_at streams j ≡ true)
    × ((i : ℕ)
        → i < length streams
        → i ≢ current
        → distance (length streams) current i < distance (length streams) current j
        → available_at streams i ≡ false)

next-IsChosen :
    (streams : List ChannelStream) (current : ℕ) (o : Option ℕ)
    → current < length streams
    → IsNext streams current 1 (length streams) o
    → IsChosen streams current o
next-IsChosen streams current none p h = λ j q d.
    let (a, b) = distance_bounds (length streams) current j p q d in
    subst (λ i. available_at streams i ≡ false) (rotate_lem (length streams) current j p q)
      (h (distance (length streams) current j) a b)
next-IsChosen streams current (some j) p (k, a, b, at, c, before) = (
  subst (λ i. i ≢ current) (sym at) (not_current (length streams) current k p a b),
  c,
  λ i q d near.
      let closer : (distance (length streams) current i < k) =
        subst (λ m. distance (length streams) current i < m)
          (ap (distance (length streams) current) at ∙ distance_of (length streams) current k p a b)
          near in
      subst (λ m. available_at streams m ≡ false) (rotate_lem (length streams) current i p q)
        (before (distance (length streams) current i)
          (distance_bounds (length streams) current i p q d).0 closer),
)

-- findNextAvailableStream chooses the nearest stream after the current one in rotation that is
-- neither blocked nor dead and whose source has room, and it finds none exactly where no other
-- stream is so; the current stream itself is never chosen. The current index is one of the
-- channel's streams.
pub find_next_available_stream-IsChosen :
    (streams : List ChannelStream) (current : ℕ)
    → current < length streams
    → IsChosen streams current (find_next_available_stream streams current)
unfolding find_next_available_stream
find_next_available_stream-IsChosen streams current p = elim (Bool-cases (leb (length streams) 1)) [
  | inl e ↦ rw e (λ j q d. absurd (d (ground (arith, e, p, q))))
  | inr e ↦ rw e (
      next-IsChosen streams current (search_from streams current 1 (length streams - 1)) p (
        subst (λ n. IsNext streams current 1 n (search_from streams current 1 (length streams - 1)))
          (omega (arith, p)) (search_from-IsNext streams current 1 (length streams - 1))))
]
