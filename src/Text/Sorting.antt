-- ===== src/Text/Sorting.antt =====
-- Stable insertion: what it puts in order, and that strings are ordered.
use kptv_proxy.Prelude.{
  ◌≡◌, refl, sym, subst, ap, ◌∙◌, Bool, true, false, List, [], ◌∷◌, if◌then◌else◌, arith,
}
use kptv_proxy.Text.{Text}
use kptv_proxy.Text.Order.{text_lt, insert_sorted, sort_stable}

pub text_lt_asym : (s t : Text) → text_lt s t ≡ true → text_lt t s ≡ false
unfolding text_lt
text_lt_asym s [] h = absurd (ground (arith, h))
text_lt_asym [] (d ∷ t) h = refl
text_lt_asym (c ∷ s) (d ∷ t) h = ground (arith, h, text_lt_asym s t)

pub text_lt_trans : (s t r : Text) → text_lt t s ≡ false → text_lt r t ≡ false → text_lt r s ≡ false
unfolding text_lt
text_lt_trans [] t r h g = ground (arith, h, g)
text_lt_trans (c ∷ s) [] r h g = absurd (ground (arith, h))
text_lt_trans (c ∷ s) (d ∷ t) [] h g = absurd (ground (arith, g))
text_lt_trans (c ∷ s) (d ∷ t) (e ∷ r) h g = ground (arith, h, g, text_lt_trans s t r)

module _ {A : Type 0} (less : A → A → Bool) where
  abbrev pub NoneBefore : A → List A → Type 0
  NoneBefore x [] = Unit {0}
  NoneBefore x (y ∷ ys) = (less y x ≡ false) × NoneBefore x ys

  -- No element comes before an earlier one.
  abbrev pub AreOrdered : List A → Type 0
  AreOrdered [] = Unit {0}
  AreOrdered (x ∷ xs) = NoneBefore x xs × AreOrdered xs

-- An order in which ties are equivalent.
pub record IsWeakOrder {A : Type 0} (less : A → A → Bool) : Type 0 where
  pub asym : (x y : A) → less x y ≡ true → less y x ≡ false
  pub trans : (x y z : A) → less y x ≡ false → less z y ≡ false → less z x ≡ false

module _ {A : Type 0} (less : A → A → Bool) where
  NoneBefore-trans :
      IsWeakOrder less
      → (x y : A) (ys : List A) → less y x ≡ false
      → NoneBefore less y ys
      → NoneBefore less x ys
  NoneBefore-trans w x y [] h n = tt
  NoneBefore-trans w x y (z ∷ ys) h n = (w.trans x y z h n.0, NoneBefore-trans w x y ys h n.1)

module _ {A : Type 0} (less by : A → A → Bool) where
  -- Insertion by another order keeps what comes before.
  pub NoneBefore-insert_sorted :
      (x y : A) (ys : List A)
      → less y x ≡ false
      → NoneBefore less x ys
      → NoneBefore less x (insert_sorted by y ys)
  unfolding insert_sorted
  NoneBefore-insert_sorted x y [] h n = (h, tt)
  NoneBefore-insert_sorted x y (z ∷ ys) h n =
      chosen (by z y) (NoneBefore-insert_sorted x y ys h n.1)
    where
      chosen :
          (b : Bool)
          → NoneBefore less x (insert_sorted by y ys)
          → NoneBefore less x (if b then z ∷ insert_sorted by y ys else y ∷ z ∷ ys)
      chosen true m = (n.0, m)
      chosen false m = (h, n)

  pub NoneBefore-sort_stable :
      (x : A) (ys : List A) → NoneBefore less x ys → NoneBefore less x (sort_stable by ys)
  unfolding sort_stable
  NoneBefore-sort_stable x [] n = tt
  NoneBefore-sort_stable x (y ∷ ys) n =
      NoneBefore-insert_sorted x y (sort_stable by ys) n.0 (NoneBefore-sort_stable x ys n.1)

  -- By the first order, and by the second among its ties.
  abbrev pub lex : A → A → Bool
  lex x y = if less x y then true else if less y x then false else by x y

module _ {A : Type 0} (less : A → A → Bool) (w : IsWeakOrder less) where
  insert_sorted-AreOrdered :
      (x : A) (ys : List A) → AreOrdered less ys → AreOrdered less (insert_sorted less x ys)
  unfolding insert_sorted
  insert_sorted-AreOrdered x [] o = (tt, tt)
  insert_sorted-AreOrdered x (y ∷ ys) o = chosen (less y x) refl (insert_sorted-AreOrdered x ys o.1)
    where
      chosen :
          (b : Bool)
          → less y x ≡ b
          → AreOrdered less (insert_sorted less x ys)
          → AreOrdered less (if b then y ∷ insert_sorted less x ys else x ∷ y ∷ ys)
      chosen true e m = (NoneBefore-insert_sorted less less y x ys (w.asym y x e) o.0, m)
      chosen false e m = ((e, NoneBefore-trans less w x y ys e o.0), o)

  pub sort_stable-AreOrdered : (xs : List A) → AreOrdered less (sort_stable less xs)
  unfolding sort_stable
  sort_stable-AreOrdered [] = tt
  sort_stable-AreOrdered (x ∷ xs) =
      insert_sorted-AreOrdered x (sort_stable less xs) (sort_stable-AreOrdered xs)

module _ {A : Type 0} (less by : A → A → Bool) where
  insert_sorted-lex :
      (x : A) (ys : List A)
      → NoneBefore by x ys
      → insert_sorted less x ys ≡ insert_sorted (lex less by) x ys
  unfolding insert_sorted
  insert_sorted-lex x [] n = refl
  insert_sorted-lex x (y ∷ ys) n = ground (arith, n.0, insert_sorted-lex x ys n.1)

  -- Sorting by one order a list that is in the other order sorts by the two.
  sort_stable-lex :
      (xs : List A) → AreOrdered by xs → sort_stable less xs ≡ sort_stable (lex less by) xs
  unfolding sort_stable
  sort_stable-lex [] o = refl
  sort_stable-lex (x ∷ xs) o =
      insert_sorted-lex x (sort_stable less xs) (NoneBefore-sort_stable by less x xs o.0)
      ∙ ap (insert_sorted (lex less by) x) (sort_stable-lex xs o.1)

  pub lex-IsWeakOrder : IsWeakOrder less → IsWeakOrder by → IsWeakOrder (lex less by)
  lex-IsWeakOrder v w = record {
    asym = λ x y h. ground (arith, h, v.asym x y, v.asym y x, w.asym x y);
    trans = λ x y z h g. ground (
      arith,
      h,
      g,
      v.asym x y,
      v.asym y x,
      v.asym y z,
      v.asym z y,
      v.asym x z,
      v.asym z x,
      v.trans x y z,
      v.trans z y x,
      v.trans y x z,
      v.trans x z y,
      v.trans y z x,
      v.trans z x y,
      w.trans x y z,
    );
  }

  -- A list in one order that is sorted by another is in the order of the two.
  pub sort_stable_twice :
      IsWeakOrder less
      → IsWeakOrder by
      → (xs : List A) → AreOrdered by xs
      → AreOrdered (lex less by) (sort_stable less xs)
  sort_stable_twice v w xs o =
      subst (AreOrdered (lex less by)) (sym (sort_stable-lex xs o))
        (sort_stable-AreOrdered (lex less by) (lex-IsWeakOrder v w) xs)
