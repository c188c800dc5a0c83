-- ===== src/Segments/Tracked.antt =====
-- The slots of a tracker of work/restream/hls.go: their number, after a clearing, and which segments
-- GetTrackedSegments finds in them.
use kptv_proxy.Prelude.{
  ℕ, zero, suc, ◌≡◌, refl, sym, subst, ap, ◌∙◌, false, ◌||◌, List, [], ◌∷◌, ◌++◌, map, length,
  length-append, length-replicate, replicate, arith,
}
use kptv_proxy.Text.{Text, is_empty, contains}
use kptv_proxy.Segments.{filled}
use kptv_proxy.Segments.Slots.{Shape, filling, wrapped, AreFull}

pub length-Shape :
    (n : ℕ) (slots : List Text) (head current : ℕ) (q : List Text)
    → Shape n slots head current q
    → length slots ≡ n
length-Shape n slots head current q (filling k s h e c) =
    omega (
      arith,
      ap length s,
      length-append q ([] ∷ replicate k []),
      length-replicate {A = Text} k [],
      e,
    )
length-Shape n slots head current q (wrapped o a b s e h m c) =
    omega (arith, ap length s, length-append b (o ∷ a), m)

pub blank : (slots : List Text) → map {B = Text} (λ _. []) slots ≡ replicate (length slots) []
blank [] = refl
blank (s ∷ slots) = ap (λ r. [] ∷ r) (blank slots)

contains-append :
    (xs ys : List Text) (u : Text) → contains (xs ++ ys) u ≡ (contains xs u || contains ys u)
unfolding contains
contains-append [] ys u = refl
contains-append (x ∷ xs) ys u = ground (arith, contains-append xs ys u)

filled-append : (xs ys : List Text) → filled (xs ++ ys) ≡ filled xs ++ filled ys
unfolding filled
filled-append [] ys = refl
filled-append (x ∷ xs) ys = ground (arith, filled-append xs ys)

filled-AreFull : (q : List Text) → AreFull q → filled q ≡ q
unfolding filled
filled-AreFull [] v = refl
filled-AreFull (x ∷ q) v = ground (arith, filled-AreFull q v.1, v.0)

filled_blank : (k : ℕ) → filled (replicate k []) ≡ []
unfolding filled
filled_blank zero = refl
filled_blank (suc k) = filled_blank k

split-AreFull :
    (o : Text) (a b : List Text)
    → AreFull (o ∷ (a ++ b))
    → (is_empty o ≡ false) × AreFull a × AreFull b
split-AreFull o [] b v = (v.0, tt, v.1)
split-AreFull o (x ∷ a) b v = let (y, z, w) = split-AreFull x a b v.1 in (v.0, (y, z), w)

swapped :
    (o : Text) (a b : List Text) (u : Text)
    → (contains b u || contains (o ∷ a) u) ≡ contains (o ∷ (a ++ b)) u
unfolding contains
swapped o a b u = ground (arith, contains-append a b u)

pub tracked-Shape :
    (n : ℕ) (slots : List Text) (head current : ℕ) (q : List Text)
    → Shape n slots head current q
    → AreFull q
    → (u : Text) → contains (filled slots) u ≡ contains q u
tracked-Shape n slots head current q (filling k s h e c) v u =
    ap (λ r. contains (filled r) u) s
    ∙ ap (λ r. contains r u) (filled-append q (replicate (suc k) []))
    ∙ contains-append (filled q) (filled (replicate (suc k) [])) u
    ∙ rw (filled-AreFull q v, filled_blank (suc k)) (unfold contains in ground arith)
tracked-Shape n slots head current q (wrapped o a b s e h m c) v u =
    let (x, y, z) = split-AreFull o a b (subst AreFull e v) in
    ap (λ r. contains (filled r) u) s
    ∙ ap (λ r. contains r u) (filled-append b (o ∷ a))
    ∙ contains-append (filled b) (filled (o ∷ a)) u
    ∙ rw (filled-AreFull b z, filled-AreFull (o ∷ a) (x, y))
        (swapped o a b u ∙ ap (λ r. contains r u) (sym e))
