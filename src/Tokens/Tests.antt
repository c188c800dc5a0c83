-- ===== src/Tokens/Tests.antt =====
-- Drawing from concrete bytes.
use kptv_proxy.Prelude.{ℕ, ◌≡◌, refl, List, [], ◌∷◌, some, map, take, arith}
use kptv_proxy.Text.{codes}
use kptv_proxy.Tokens.{char_of, draw, draw_all, random_alnum, finished}
use kptv_proxy.Tokens.Draws.{kept_chars, concat, random_alnum_lem}
use kptv_proxy.Tokens.Uniform.{bytes_for, bytes_for_each}

abbrev buffers : List (List ℕ)
buffers = (0 ∷ 250 ∷ 63 ∷ []) ∷ (255 ∷ 247 ∷ 1 ∷ []) ∷ []

drawn : random_alnum 3 (map some buffers) ≡ finished (codes "ab9")
unfolding random_alnum draw_all draw
drawn = refl

random_alnum_lem_example :
    random_alnum 3 (map some buffers) ≡ finished (take 3 (kept_chars (concat buffers)))
random_alnum_lem_example = random_alnum_lem 3 buffers (omega arith)

bytes_for_each_example : bytes_for 256 (char_of 61) ≡ 4
bytes_for_each_example = bytes_for_each 61 (omega arith)
