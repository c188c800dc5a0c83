-- ===== src/Text/Ascii.antt =====
-- Letter case of ASCII: the parameter on case at a concrete function.
use kptv_proxy.Prelude.{ℕ, ◌+◌, ◌≤◌, ◌≡◌, ◌&&◌, leb, if◌then◌else◌, arith}
use kptv_proxy.Text.{Unicode, is_space}

abbrev pub to_lower_ascii : ℕ → ℕ
to_lower_ascii c = if leb 65 c && leb c 90 then c + 32 else c

pub to_lower_ascii_idem : (c : ℕ) → to_lower_ascii (to_lower_ascii c) ≡ to_lower_ascii c
to_lower_ascii_idem c = ground arith

pub to_lower_ascii_lower : (c : ℕ) → 97 ≤ c → c ≤ 122 → to_lower_ascii c ≡ c
to_lower_ascii_lower c l h = ground arith

pub to_lower_ascii_space : (c : ℕ) → is_space (to_lower_ascii c) ≡ is_space c
unfolding is_space
to_lower_ascii_space c = ground arith

abbrev pub ascii : Unicode
ascii = record {
  to_lower_rune = to_lower_ascii;
  lower_idem = to_lower_ascii_idem;
  lower_lower = to_lower_ascii_lower;
  lower_space = to_lower_ascii_space;
}
