-- ===== src/Prelude/Words.antt =====
-- Comparisons of signed machine integers, given as bit patterns.
use Prim.Native.Nat.{ℕ, ◌+◌, ◌%◌, ◌^◌}
use mathlib.Core.Bool.{Bool}
use kptv_proxy.Prelude.Tests.{ltb, ◌==◌}

-- `<` and `==` on int64.
abbrev pub lt64 : ℕ → ℕ → Bool
lt64 a b = ltb ((a + 2 ^ 63) % 2 ^ 64) ((b + 2 ^ 63) % 2 ^ 64)

abbrev pub same64 : ℕ → ℕ → Bool
same64 a b = a % 2 ^ 64 == b % 2 ^ 64

-- `<` on int32.
abbrev pub lt32 : ℕ → ℕ → Bool
lt32 a b = ltb ((a + 2 ^ 31) % 2 ^ 32) ((b + 2 ^ 31) % 2 ^ 32)
