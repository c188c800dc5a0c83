-- ===== src/Tokens.antt =====
-- randomAlnum of work/users/token.go, from which session ids and API tokens are drawn. What
-- crypto/rand.Read gives is an argument: a list of reads, `none` for an error.
pub mod Draws
pub mod Uniform
mod Tests
use kptv_proxy.Prelude.{
  ℕ, suc, ◌+◌, ◌-◌, ◌%◌, Bool, true, false, Option, none, some, List, [], ◌∷◌, ◌++◌, length, get_or,
  ltb, leb, ◌==◌, if◌then◌else◌,
}
use kptv_proxy.Text.{Text, codes}

abbrev pub chars : Text
chars = codes "abcdefghijklmnopqrstuvwxyzABCDEFGHIJKLMNOPQRSTUVWXYZ0123456789"

-- The largest multiple of 62 that a byte reaches.
abbrev pub limit : ℕ
limit = 256 - 256 % 62

abbrev pub char_of : ℕ → ℕ
char_of b = get_or chars (b % 62) 0

-- The loop over one buffer, which breaks when enough is drawn.
unfoldable pub draw : ℕ → Text → List ℕ → Text
draw n out [] = out
draw n out (b ∷ buf) =
    let skipped = draw n out buf in
    let more = draw n (out ++ char_of b ∷ []) buf in
    if leb limit b
    then skipped
    else if length (out ++ char_of b ∷ []) == n
    then out ++ char_of b ∷ []
    else more

-- `waiting` is the loop before a read that is not in the list.
pub data Drawn : Type 0 where
  finished : Text → Drawn
  failed waiting : Drawn

unfoldable pub draw_all : ℕ → List (Option (List ℕ)) → Text → Drawn
draw_all n [] out = if ltb (length out) n then waiting else finished out
draw_all n (none ∷ reads) out = if ltb (length out) n then failed else finished out
draw_all n (some buf ∷ reads) out =
    let next = draw_all n reads (draw n out buf) in
    if ltb (length out) n then next else finished out

unfoldable pub random_alnum : ℕ → List (Option (List ℕ)) → Drawn
random_alnum n reads = draw_all n reads []
