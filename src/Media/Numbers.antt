-- ===== src/Media/Numbers.antt =====
-- The decimal text of a number is a word.
use kptv_proxy.Prelude.{
  ℕ, zero, suc, ◌+◌, ◌-◌, ◌/◌, ◌%◌, ◌^◌, ◌≡◌, refl, inl, inr, false, [], ◌∷◌, ◌++◌, ltb, ◌==◌,
  Bool-cases, arith,
}
use kptv_proxy.Text.{Text, is_space, is_empty}
use kptv_proxy.Text.Fields.{NoSpace, IsWord}
use kptv_proxy.Media.{digits, itoa}

digit_no_space : (d : ℕ) → is_space (48 + d % 10) ≡ false
unfolding is_space
digit_no_space d = ground arith

pub NoSpace-append : (s t : Text) → NoSpace s → NoSpace t → NoSpace (s ++ t)
NoSpace-append [] t a b = b
NoSpace-append (c ∷ s) t a b = (a.0, NoSpace-append s t a.1 b)

is_empty_snoc : (s : Text) (c : ℕ) → is_empty (s ++ c ∷ []) ≡ false
is_empty_snoc [] c = refl
is_empty_snoc (x ∷ s) c = refl

digits-NoSpace : (fuel n : ℕ) → NoSpace (digits fuel n)
unfolding digits
digits-NoSpace zero n = tt
digits-NoSpace (suc fuel) n = elim (Bool-cases (n / 10 == 0)) [
  | inl e ↦ rw e (digit_no_space n, tt)
  | inr e ↦ rw e (
      NoSpace-append (digits fuel (n / 10)) ((48 + n % 10) ∷ []) (digits-NoSpace fuel (n / 10))
        (digit_no_space n, tt))
]

digits_some : (fuel n : ℕ) → is_empty (digits (suc fuel) n) ≡ false
unfolding digits
digits_some fuel n = elim (Bool-cases (n / 10 == 0)) [
  | inl e ↦ rw e refl
  | inr e ↦ rw e (is_empty_snoc (digits fuel (n / 10)) (48 + n % 10))
]

pub itoa-IsWord : (n : ℕ) → IsWord (itoa n)
unfolding itoa is_space
itoa-IsWord n = elim (Bool-cases (ltb n (2 ^ 63))) [
  | inl e ↦ rw e (digits_some 19 n, digits-NoSpace 20 n)
  | inr e ↦ rw e (refl, (refl, digits-NoSpace 20 (2 ^ 64 - n)))
]
