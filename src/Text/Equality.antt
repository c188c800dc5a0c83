-- ===== src/Text/Equality.antt =====
-- Comparing texts.
use kptv_proxy.Prelude.{
  ◌≡◌, refl, sym, ap, ◌∙◌, ◌↔◌, ◌⊎◌, inl, inr, ◌≢◌, true, false, ◌||◌, List, [], ◌∷◌, ◌++◌,
  Bool-cases, arith,
}
use kptv_proxy.Text.{Text, text_eq, contains}

pub text_eq_refl : (s : Text) → text_eq s s ≡ true
unfolding text_eq
text_eq_refl [] = refl
text_eq_refl (c ∷ s) = ground (arith, text_eq_refl s)

pub text_eq→eq : (s t : Text) → text_eq s t ≡ true → s ≡ t
unfolding text_eq
text_eq→eq [] [] h = refl
text_eq→eq [] (d ∷ t) h = cc
text_eq→eq (c ∷ s) [] h = cc
text_eq→eq (c ∷ s) (d ∷ t) h = ground (arith, text_eq→eq s t)

pub text_eq_iff : (s t : Text) → (text_eq s t ≡ true) ↔ (s ≡ t)
text_eq_iff s t = (text_eq→eq s t, λ e. rw e (text_eq_refl t))

pub text_eq_ne : (s t : Text) → text_eq s t ≡ false → s ≢ t
text_eq_ne s t h e = cc ((text_eq_iff s t).1 e)

pub ne→text_eq : (s t : Text) → s ≢ t → text_eq s t ≡ false
ne→text_eq s t n = elim (Bool-cases (text_eq s t)) [
  | inl same ↦ absurd (n (text_eq→eq s t same))
  | inr other ↦ other
]

pub contains-cons :
    (a v : Text) (l : List Text) → contains (a ∷ l) v ≡ true → (a ≡ v) ⊎ (contains l v ≡ true)
unfolding contains
contains-cons a v l h = ground (arith, text_eq→eq a v)

pub contains_snoc :
    (l : List Text) (k v : Text) → contains (l ++ k ∷ []) v ≡ (contains l v || text_eq k v)
unfolding contains
contains_snoc [] k v = ground arith
contains_snoc (a ∷ l) k v = ground (arith, contains_snoc l k v)

pub text_eq_sym : (s t : Text) → text_eq s t ≡ false → text_eq t s ≡ false
text_eq_sym s t e = elim (Bool-cases (text_eq t s)) [
  | inl y ↦ absurd (cc (sym e ∙ ap (text_eq s) (text_eq→eq t s y) ∙ text_eq_refl s))
  | inr y ↦ y
]
