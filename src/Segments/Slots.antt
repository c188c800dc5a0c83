-- ===== src/Segments/Slots.antt =====
-- The slots of a tracker against a queue, and what a write at the head does to the two.
use kptv_proxy.Prelude.{
  ℕ, zero, suc, ◌+◌, ◌%◌, ◌<◌, ◌≡◌, refl, sym, ap, ◌∙◌, false, some, List, [], ◌∷◌, ◌++◌,
  append_assoc, length, length-append, get_elem?, set, replicate, leb, if◌then◌else◌, arith,
}
use kptv_proxy.Text.{Text, is_empty, contains}
use kptv_proxy.Text.Equality.{text_eq_sym, contains_snoc}
use kptv_proxy.Segments.Queue.{push, rest_of}

get-middle :
    (xs : List Text) (y : Text) (ys : List Text) → get_elem? (xs ++ y ∷ ys) (length xs) ≡ some y
get-middle [] y ys = refl
get-middle (x ∷ xs) y ys = get-middle xs y ys

set-middle :
    (xs : List Text) (y v : Text) (ys : List Text) → set (xs ++ y ∷ ys) (length xs) v ≡ xs ++ v ∷ ys
set-middle [] y v ys = refl
set-middle (x ∷ xs) y v ys = ap (λ r. x ∷ r) (set-middle xs y v ys)

-- No segment twice, and none that is empty.
abbrev pub AreDistinct : List Text → Type 0
AreDistinct [] = Unit {0}
AreDistinct (x ∷ xs) = (contains xs x ≡ false) × AreDistinct xs

abbrev pub AreFull : List Text → Type 0
AreFull [] = Unit {0}
AreFull (x ∷ xs) = (is_empty x ≡ false) × AreFull xs

pub snoc-AreDistinct :
    (q : List Text) (u : Text) → contains q u ≡ false → AreDistinct q → AreDistinct (q ++ u ∷ [])
unfolding contains
snoc-AreDistinct [] u e v = (refl, tt)
snoc-AreDistinct (x ∷ q) u e v = (
  contains_snoc q u x ∙ ground (arith, v.0, text_eq_sym x u, e),
  snoc-AreDistinct q u (ground (arith, e)) v.1,
)

pub snoc-AreFull :
    (q : List Text) (u : Text) → is_empty u ≡ false → AreFull q → AreFull (q ++ u ∷ [])
snoc-AreFull [] u e v = (e, tt)
snoc-AreFull (x ∷ q) u e v = (v.0, snoc-AreFull q u e v.1)

-- The slots of a queue of capacity `n`: free slots behind it, or all in use, from the head on and
-- round the end.
pub data Shape (n : ℕ) (slots : List Text) (head current : ℕ) (q : List Text) : Type 0 where
  filling :
      (k : ℕ)
      → slots ≡ q ++ [] ∷ replicate k []
      → head ≡ length q
      → n ≡ suc (length q + k)
      → current ≡ length q
      → Shape n slots head current q
  wrapped :
      (o : Text) (a b : List Text)
      → slots ≡ b ++ o ∷ a
      → q ≡ o ∷ (a ++ b)
      → head ≡ length b
      → n ≡ suc (length a + length b)
      → current ≡ n
      → Shape n slots head current q

pub append_nil : (xs : List Text) → xs ++ [] ≡ xs
append_nil [] = refl
append_nil (x ∷ xs) = ap (λ r. x ∷ r) (append_nil xs)

-- A queue that has just filled its slots.
turned : (n head : ℕ) (q : List Text) → 0 < length q → n ≡ length q → head ≡ 0 → Shape n q head n q
turned n head [] p e h = absurd (omega arith)
turned n head (o ∷ a) p e h =
    wrapped o a [] refl (ap (λ r. o ∷ r) (sym (append_nil a))) h (omega (arith, e)) refl

next_place : (h n : ℕ) → h + 1 < n → (h + 1) % n ≡ h + 1
next_place h n e = grind arith

last_place : (h n : ℕ) → n ≡ h + 1 → (h + 1) % n ≡ 0
last_place h n e = rw e (grind arith)

-- The size after a mark, and the slots after it.
abbrev pub grown : ℕ → ℕ → ℕ
grown n current = if leb n current then current else current + 1

Shape-cong :
    (n : ℕ) {slots slots' q q' : List Text} {head head' current current' : ℕ}
    → slots ≡ slots'
    → head ≡ head'
    → current ≡ current'
    → q ≡ q'
    → Shape n slots head current q
    → Shape n slots' head' current' q'
Shape-cong n {slots' = slots'} {q' = q'} {head' = head'} {current' = current'} s h c e
      (filling k s' h' n' c') =
    filling k (sym s ∙ s' ∙ ap (λ r. r ++ [] ∷ replicate k []) e) (sym h ∙ h' ∙ ap length e)
      (n' ∙ ap (λ r. suc (length r + k)) e) (sym c ∙ c' ∙ ap length e)
Shape-cong n s h c e (wrapped o a b s' q' h' n' c') =
    wrapped o a b (sym s ∙ s') (sym e ∙ q') (sym h ∙ h') n' (sym c ∙ c')

length_snoc : (q : List Text) (u : Text) → length (q ++ u ∷ []) ≡ suc (length q)
length_snoc q u = omega (arith, length-append q (u ∷ []))

fill-Shape :
    (n k : ℕ) (q : List Text) (u : Text)
    → n ≡ suc (length q + k)
    → Shape n (q ++ u ∷ replicate k []) ((length q + 1) % n) (length q + 1) (q ++ u ∷ [])
fill-Shape n zero q u e = Shape-cong n refl refl (omega (arith, e)) refl (
    turned n ((length q + 1) % n) (q ++ u ∷ []) (omega (arith, length_snoc q u))
      (omega (arith, e, length_snoc q u)) (last_place (length q) n (omega (arith, e))))
fill-Shape n (suc k) q u e =
    filling k (sym (append_assoc q (u ∷ []) ([] ∷ replicate k [])))
      (next_place (length q) n (omega (arith, e)) ∙ omega (arith, length_snoc q u))
      (omega (arith, e, length_snoc q u)) (omega (arith, length_snoc q u))

wrap-Shape :
    (n : ℕ) (u : Text) (a b : List Text)
    → n ≡ suc (length a + length b)
    → Shape n (b ++ u ∷ a) ((length b + 1) % n) n ((a ++ b) ++ u ∷ [])
wrap-Shape n u [] b e =
    turned n ((length b + 1) % n) (b ++ u ∷ []) (omega (arith, length_snoc b u))
      (omega (arith, e, length_snoc b u)) (last_place (length b) n (omega (arith, e)))
wrap-Shape n u (o ∷ a) b e =
    wrapped o a (b ++ u ∷ []) (sym (append_assoc b (u ∷ []) (o ∷ a)))
      (ap (λ r. o ∷ r) (append_assoc a b (u ∷ [])))
      (next_place (length b) n (omega (arith, e)) ∙ omega (arith, length_snoc b u))
      (omega (arith, e, length_snoc b u)) refl

-- What the head's slot holds before a mark, and the shape after it.
pub next-Shape :
    (n : ℕ) (slots : List Text) (head current : ℕ) (q : List Text) (u : Text)
    → Shape n slots head current q
    → Shape n (set slots head u) ((head + 1) % n) (grown n current) (push n q u)
next-Shape n slots head current q u (filling k s h e c) =
    Shape-cong n
      (sym (
        ap (λ i. set slots i u) h
        ∙ ap (λ r. set r (length q) u) s
        ∙ set-middle q [] u (replicate k [])))
      (ap (λ i. (i + 1) % n) (sym h)) (ground (arith, e, c)) (ground (arith, e))
      (fill-Shape n k q u e)
next-Shape n slots head current q u (wrapped o a b s e h m c) =
    Shape-cong n
      (sym (ap (λ i. set slots i u) h ∙ ap (λ r. set r (length b) u) s ∙ set-middle b o u a))
      (ap (λ i. (i + 1) % n) (sym h)) (ground (arith, c))
      (ap (λ r. r ++ u ∷ []) (ap rest_of (sym e))
        ∙ ground (arith, ap length e, length-append a b, m))
      (wrap-Shape n u a b m)

-- The oldest segment of a full queue.
abbrev pub oldest : List Text → Text
oldest [] = []
oldest (x ∷ xs) = x

pub head-Shape :
    (n : ℕ) (slots : List Text) (head current : ℕ) (q : List Text)
    → Shape n slots head current q
    → (get_elem? slots head ≡ some (if leb n current then oldest q else []))
      × (0 < n)
      × (leb n current ≡ leb n (length q))
      × (current ≡ length q)
head-Shape n slots head current q (filling k s h e c) = (
  ap (get_elem? slots) h
      ∙ ap (λ r. get_elem? r (length q)) s
      ∙ get-middle q [] (replicate k [])
      ∙ ground (arith, e, c),
  omega (arith, e),
  ap (leb n) c,
  c,
)
head-Shape n slots head current q (wrapped o a b s e h m c) =
    let full : length q ≡ n = omega (arith, ap length e, length-append a b, m) in
    (
      ap (get_elem? slots) h
          ∙ ap (λ r. get_elem? r (length b)) s
          ∙ get-middle b o a
          ∙ ground (arith, c, e),
      omega (arith, m),
      ap (leb n) (c ∙ sym full),
      c ∙ sym full,
    )
