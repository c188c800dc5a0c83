-- ===== src/Tokens/Uniform.antt =====
-- How many bytes stand for one character.
use kptv_proxy.Prelude.{
  ℕ, zero, suc, ◌<◌, ◌≡◌, refl, subst, inl, inr, Bool, true, not, ◌&&◌, leb, ◌==◌, ==_iff,
  Bool-cases, if◌then◌else◌, arith,
}
use kptv_proxy.Tokens.{limit, char_of}

-- The bytes below a number that are not rejected and have a given character.
unfoldable pub bytes_for : ℕ → ℕ → ℕ
bytes_for zero c = 0
bytes_for (suc b) c =
    let rest = bytes_for b c in if not (leb limit b) && char_of b == c then suc rest else rest

-- A test for all numbers below one.
abbrev all_below : ℕ → (ℕ → Bool) → Bool
all_below zero p = true
all_below (suc n) p = p n && all_below n p

all_below_lem : (n : ℕ) (p : ℕ → Bool) → all_below n p ≡ true → (i : ℕ) → i < n → p i ≡ true
all_below_lem zero p h i q = absurd (omega (arith, q))
all_below_lem (suc n) p h i q = elim (Bool-cases (i == n)) [
  | inl e ↦ subst (λ k. p k ≡ true) {x = n} {y = i} (ground (arith, e)) (ground (arith, h))
  | inr e ↦ all_below_lem n p (ground (arith, h)) i (ground (arith, e, q))
]

uniform_test : all_below 62 (λ i. bytes_for 256 (char_of i) == 4) ≡ true
unfolding bytes_for
uniform_test = refl

-- Each of the 62 characters that randomAlnum draws from stands for exactly four of the 256 bytes.
pub bytes_for_each : (i : ℕ) → i < 62 → bytes_for 256 (char_of i) ≡ 4
bytes_for_each i p =
    (==_iff (bytes_for 256 (char_of i)) 4).0
      (all_below_lem 62 (λ i. bytes_for 256 (char_of i) == 4) uniform_test i p)
