-- ===== src/Text.antt =====
-- Text as Go's standard library handles it: a string is the list of its code points. Invalid UTF-8
-- is not modelled. What the unicode tables say of letter case is a parameter.
pub mod Equality
pub mod Trim
pub mod Split
pub mod Fields
pub mod Maps
pub mod Order
pub mod Ascii
pub mod Sorting
use Prim.Native.Char.{code}
use Prim.Native.String.{String}
use kptv_proxy.Prelude.{
  ℕ, zero, suc, ◌+◌, ◌≤◌, ◌≡◌, Bool, true, false, ◌&&◌, ◌||◌, List, [], ◌∷◌, ◌++◌, map, reverse,
  ltb, leb, ◌==◌, if◌then◌else◌,
}

abbrev pub Text : Type 0
Text = List ℕ

-- A literal of the source.
abbrev pub codes : String → Text
codes String.[] = []
codes (String.◌∷◌ c s) = code c ∷ codes s

-- unicode.IsSpace: the White_Space property.
unfoldable pub is_space : ℕ → Bool
is_space c =
    (leb 9 c && leb c 13)
    || c == 32
    || c == 0x85
    || c == 0xa0
    || c == 0x1680
    || (leb 0x2000 c && leb c 0x200a)
    || c == 0x2028
    || c == 0x2029
    || c == 0x202f
    || c == 0x205f
    || c == 0x3000

-- unicode.ToLower, with what the code relies on.
pub record Unicode : Type 0 where
  pub to_lower_rune : ℕ → ℕ
  pub lower_idem : (c : ℕ) → to_lower_rune (to_lower_rune c) ≡ to_lower_rune c
  pub lower_lower : (c : ℕ) → 97 ≤ c → c ≤ 122 → to_lower_rune c ≡ c
  pub lower_space : (c : ℕ) → is_space (to_lower_rune c) ≡ is_space c

-- The length of a string in bytes: its UTF-8 encoding.
abbrev pub rune_len : ℕ → ℕ
rune_len c = if ltb c 0x80 then 1 else if ltb c 0x800 then 2 else if ltb c 0x10000 then 3 else 4

abbrev pub byte_len : Text → ℕ
byte_len [] = 0
byte_len (c ∷ s) = rune_len c + byte_len s

unfoldable pub text_eq : Text → Text → Bool
text_eq [] [] = true
text_eq [] (d ∷ t) = false
text_eq (c ∷ s) [] = false
text_eq (c ∷ s) (d ∷ t) = c == d && text_eq s t

abbrev pub is_empty : Text → Bool
is_empty [] = true
is_empty (c ∷ s) = false

unfoldable pub has_prefix : Text → Text → Bool
has_prefix s [] = true
has_prefix [] (d ∷ p) = false
has_prefix (c ∷ s) (d ∷ p) = c == d && has_prefix s p

-- contains of work/config/filterrules.go and the loops like it.
unfoldable pub contains : List Text → Text → Bool
unfolding text_eq
contains [] v = false
contains (a ∷ allowed) v = text_eq a v || contains allowed v

unfoldable pub to_lower : Unicode → Text → Text
to_lower u s = map u.to_lower_rune s

unfoldable pub trim_left : Text → Text
unfolding is_space
trim_left [] = []
trim_left (c ∷ s) = if is_space c then trim_left s else c ∷ s

-- A space goes from the end if nothing but spaces follows it.
unfoldable pub trim_right : Text → Text
unfolding is_space
trim_right [] = []
trim_right (c ∷ s) = let rest = trim_right s in if is_empty rest && is_space c then [] else c ∷ rest

-- strings.TrimSpace
unfoldable pub trim_space : Text → Text
unfolding trim_left trim_right
trim_space s = trim_right (trim_left s)

-- A word that is empty is no field.
abbrev pub close : Text → List Text → List Text
close [] ws = ws
close (c ∷ w) ws = (c ∷ w) ∷ ws

-- The word at the start of a text, and the fields after it.
unfoldable pub words : Text → Text × List Text
unfolding is_space
words [] = ([], [])
words (c ∷ s) = let (w, ws) = words s in if is_space c then ([], close w ws) else (c ∷ w, ws)

-- strings.Fields
unfoldable pub fields : Text → List Text
unfolding words
fields s = let (w, ws) = words s in close w ws

-- strings.Join
unfoldable pub join : Text → List Text → Text
join sep [] = []
join sep (w ∷ []) = w
join sep (w ∷ v ∷ ws) = w ++ (sep ++ join sep (v ∷ ws))
