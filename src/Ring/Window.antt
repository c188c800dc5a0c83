-- ===== src/Ring/Window.antt =====
-- What it means for a buffer to hold the tail of the bytes written so far.
use native.Mathlib.Nat.{mod-lt, mod-eq_of_lt, mod-eq-sub-mod, mod-add-mod}
use kptv_proxy.Prelude.{
  ℕ, ◌+◌, ◌-◌, ◌%◌, ◌<◌, ◌≤◌, ◌≡◌, ◌⊎◌, subst, false, some, List, length, get_or, dec_lt, arith,
}
use kptv_proxy.Ring.{RingBuffer}

-- `h` is all that was written since the start or the last reset. Its last `size` bytes lie at their
-- positions modulo `size`.
pub record Holds (rb : RingBuffer) (store h : List ℕ) : Type 0 where
  pub live : rb.destroyed ≡ false
  pub stored : rb.buf ≡ some store
  pub full : length store ≡ rb.size
  pub at_end : rb.write_pos ≡ length h
  pub window :
      (j : ℕ) → j < length h → length h ≤ j + rb.size → get_or store (j % rb.size) 0 ≡ get_or h j 0

abbrev pub Represents : RingBuffer → List ℕ → Type 0
Represents rb h = (store : List ℕ) × Holds rb store h

-- A step of fewer than `s` places round the ring goes on by `k`, or comes round once.
pub mod_step :
    (a k s : ℕ)
    → 0 < s
    → k < s
    → ((a + k) % s < s) × (((a + k) % s ≡ a % s + k) ⊎ ((a + k) % s + s ≡ a % s + k))
mod_step a k s p h = elim (dec_lt (a % s + k) s) [
  | yes c ↦ omega (arith, mod-lt (a + k) p, mod-lt a p, mod-add-mod a s k, mod-eq_of_lt c)
  | no c ↦ omega (
    arith,
    mod-lt (a + k) p,
    mod-lt a p,
    mod-add-mod a s k,
    mod-eq-sub-mod {n = a % s + k} {m = s} (omega arith),
    mod-eq_of_lt {n = a % s + k - s} {m = s} (omega (arith, mod-lt a p)),
  )
]

-- The same between two positions.
pub mod_between :
    (a j s : ℕ)
    → a ≤ j
    → j < a + s
    → (j % s < s) × ((j % s ≡ a % s + (j - a)) ⊎ (j % s + s ≡ a % s + (j - a)))
mod_between a j s p h =
    subst (λ m. (m % s < s) × ((m % s ≡ a % s + (j - a)) ⊎ (m % s + s ≡ a % s + (j - a))))
      (omega arith) (mod_step a (j - a) s (omega arith) (omega arith))
