-- ===== src/M3u8/Fuel.antt =====
-- The fuel of the loop over the attributes: the length of the text, which every attribute shortens.
use kptv_proxy.Prelude.{
  ℕ, zero, suc, ◌<◌, ◌≤◌, ◌≢◌, refl, inl, inr, Bool, true, false, Option, none, some, [], ◌∷◌,
  length, reverse, ◌==◌, Bool-cases, if◌then◌else◌, arith,
}
use kptv_proxy.Text.{Text, codes, trim_space}
use kptv_proxy.Text.Maps.{TextMap}
use kptv_proxy.M3u8.{
  cut, put_first, scan_back, trim_blanks, trim_prefix, take_value, or_all, add_attribute,
  next_attribute, extract, quote, blank, equals, parse_extinf, parse_split, parse_parts, named,
  extinf,
}

-- What a cut leaves is shorter.
abbrev Shortens : Text → Option (Text × Text) → Type 0
Shortens s none = Unit {0}
Shortens s (some (before, after)) = length after < length s

cut-Shortens : (c : ℕ) (s : Text) → Shortens s (cut c s)
unfolding cut
cut-Shortens c [] = tt
cut-Shortens c (d ∷ s) = chosen (d == c) (cut c s) (cut-Shortens c s)
  where
    chosen :
        (b : Bool) (o : Option (Text × Text))
        → Shortens s o
        → Shortens (d ∷ s) (if b then some ([], s) else put_first d o)
    chosen true o h = omega arith
    chosen false none h = tt
    chosen false (some (x, y)) h = omega (arith, h)

or_all-length :
    (s : Text) (o : Option (Text × Text)) → Shortens s o → length (or_all s o).1 ≤ length s
or_all-length s none h = omega arith
or_all-length s (some (v, r)) h = omega (arith, h)

take_value-length : (s : Text) → length (take_value s).1 ≤ length s
unfolding take_value
take_value-length [] = omega arith
take_value-length (c ∷ s) = elim (Bool-cases (c == quote)) [
  | inl e ↦ rw e (omega (arith, or_all-length s (cut quote s) (cut-Shortens quote s)))
  | inr e ↦ rw e (or_all-length (c ∷ s) (cut blank (c ∷ s)) (cut-Shortens blank (c ∷ s)))
]

trim_blanks-length : (s : Text) → length (trim_blanks s) ≤ length s
unfolding trim_blanks
trim_blanks-length [] = omega arith
trim_blanks-length (c ∷ s) = ground (arith, trim_blanks-length s)

-- Any fuel above the length of the text suffices.
pub extract_total :
    (fuel : ℕ) (remaining : Text) (attrs : TextMap Text)
    → length remaining < fuel
    → extract fuel remaining attrs ≢ none
unfolding extract
extract_total zero remaining attrs p = absurd (omega (arith, p))
extract_total (suc fuel) remaining attrs p =
    chosen (cut equals (trim_blanks remaining)) (cut-Shortens equals (trim_blanks remaining))
      (λ key after h.
        extract_total fuel (take_value after).1
          (add_attribute (trim_space key) (take_value after).0 attrs)
          (omega (arith, h, p, take_value-length after, trim_blanks-length remaining)))
  where
    chosen :
        (o : Option (Text × Text))
        → Shortens (trim_blanks remaining) o
        → ((key after : Text)
            → length after < length (trim_blanks remaining)
            → extract fuel
                (take_value after).1
                (add_attribute (trim_space key) (take_value after).0 attrs)
              ≢ none)
        → next_attribute o attrs (λ rest more. extract fuel rest more) ≢ none
    chosen none h g = λ e. cc e
    chosen (some (key, after)) h g = g key after h

named_total : (name : Text) (o : Option (TextMap Text)) → o ≢ none → named name o ≢ none
named_total name none h = absurd (h refl)
named_total name (some attrs) h = λ e. cc e

parse_parts_total :
    (part : Text) (o : Option (Text × Text)) (name : Text) → parse_parts part o name ≢ none
parse_parts_total part none name = λ e. cc e
parse_parts_total part (some (duration, remaining)) name =
    named_total name
      (extract (suc (length remaining)) remaining ((codes "duration", duration) ∷ []))
      (extract_total (suc (length remaining)) remaining ((codes "duration", duration) ∷ [])
        (omega arith))

parse_split_total : (o : Option (Text × Text)) → parse_split o ≢ none
parse_split_total none = λ e. cc e
parse_split_total (some (before, after)) =
    parse_parts_total (trim_space before) (cut blank (trim_space before)) (trim_space after)

-- The loop of ParseEXTINF ends on every line.
pub parse_extinf_total : (line : Text) → parse_extinf line ≢ none
unfolding parse_extinf
parse_extinf_total line = parse_split_total (scan_back false (reverse (trim_prefix line extinf)) [])
