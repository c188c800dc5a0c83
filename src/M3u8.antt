-- ===== src/M3u8.antt =====
-- ParseEXTINF of work/parser/m3u8.go. The map of attributes is an association list. The loop over the
-- attributes runs on fuel, and `none` says that the fuel ran out.
pub mod Fuel
pub mod Fallback
pub mod Scan
pub mod Written
pub mod Header
pub mod Lines
pub mod Playlist
pub mod Order
mod Tests
use kptv_proxy.Prelude.{
  ℕ, zero, suc, Bool, true, false, not, ◌&&◌, ◌||◌, Option, none, some, List, [], ◌∷◌, ◌++◌,
  reverse, length, drop, ◌==◌, if◌then◌else◌,
}
use kptv_proxy.Text.{Text, codes, is_empty, has_prefix, trim_space}
use kptv_proxy.Text.Maps.{TextMap, insert}

abbrev pub quote : ℕ
quote = 34

abbrev pub comma : ℕ
comma = 44

abbrev pub equals : ℕ
equals = 61

abbrev pub blank : ℕ
blank = 32

abbrev pub extinf : Text
extinf = codes "#EXTINF:"

abbrev pub put_first : ℕ → Option (Text × Text) → Option (Text × Text)
put_first c none = none
put_first c (some (before, after)) = some (c ∷ before, after)

-- strings.IndexByte, as the text before the first place of a byte and the text after it.
unfoldable pub cut : ℕ → Text → Option (Text × Text)
cut c [] = none
cut c (d ∷ s) = let rest = cut c s in if d == c then some ([], s) else put_first d rest

-- The last comma outside quotes, by a scan from the end: the text before it and the text after it.
unfoldable pub scan_back : Bool → Text → Text → Option (Text × Text)
scan_back in_quotes [] after = none
scan_back in_quotes (c ∷ before) after =
    let toggled = scan_back (not in_quotes) before (c ∷ after) in
    let kept = scan_back in_quotes before (c ∷ after) in
    if c == quote
    then toggled
    else if c == comma && not in_quotes
    then some (reverse before, after)
    else kept

-- strings.TrimLeft of blanks and tabs.
unfoldable pub trim_blanks : Text → Text
trim_blanks [] = []
trim_blanks (c ∷ s) = let rest = trim_blanks s in if c == 32 || c == 9 then rest else c ∷ s

unfoldable pub trim_prefix : Text → Text → Text
trim_prefix s p = if has_prefix s p then drop (length p) s else s

-- What the end of a value, if there is one, leaves.
abbrev pub or_all : Text → Option (Text × Text) → Text × Text
or_all s none = (s, [])
or_all s (some (value, rest)) = (value, rest)

-- A value in quotes up to the next quote, or another up to the next blank, and the rest.
unfoldable pub take_value : Text → Text × Text
take_value [] = ([], [])
take_value (c ∷ s) =
    if c == quote then or_all s (cut quote s) else or_all (c ∷ s) (cut blank (c ∷ s))

abbrev pub add_attribute : Text → Text → TextMap Text → TextMap Text
add_attribute key value attrs = if is_empty key then attrs else insert key value attrs

-- One turn of the loop: an attribute if there is an equals sign, and the loop on what remains.
abbrev pub next_attribute :
    Option (Text × Text)
    → TextMap Text
    → (Text → TextMap Text → Option (TextMap Text))
    → Option (TextMap Text)
next_attribute none attrs loop = some attrs
next_attribute (some (key, after)) attrs loop =
    loop (take_value after).1 (add_attribute (trim_space key) (take_value after).0 attrs)

unfoldable pub extract : ℕ → Text → TextMap Text → Option (TextMap Text)
extract zero remaining attrs = none
extract (suc fuel) remaining attrs =
    next_attribute (cut equals (trim_blanks remaining)) attrs (λ rest more. extract fuel rest more)

-- The channel's name overrides the attribute of that name, unless it is empty.
abbrev pub with_name : Text → TextMap Text → TextMap Text
with_name name attrs = if is_empty name then attrs else insert (codes "tvg-name") name attrs

abbrev pub named : Text → Option (TextMap Text) → Option (TextMap Text)
named name none = none
named name (some attrs) = some (with_name name attrs)

-- The part before the comma: a duration alone, or a duration and attributes after the first blank.
abbrev pub parse_parts : Text → Option (Text × Text) → Text → Option (TextMap Text)
parse_parts attr_part none name = some ((codes "duration", attr_part) ∷ [])
parse_parts attr_part (some (duration, remaining)) name =
    named name (extract (suc (length remaining)) remaining ((codes "duration", duration) ∷ []))

abbrev pub parse_split : Option (Text × Text) → Option (TextMap Text)
parse_split none = some []
parse_split (some (before, after)) =
    parse_parts (trim_space before) (cut blank (trim_space before)) (trim_space after)

unfoldable pub parse_extinf : Text → Option (TextMap Text)
parse_extinf line = parse_split (scan_back false (reverse (trim_prefix line extinf)) [])
