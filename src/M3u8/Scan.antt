-- ===== src/M3u8/Scan.antt =====
-- Cutting, trimming and scanning texts of a known form.
use kptv_proxy.Prelude.{
  ℕ, ◌≡◌, refl, ap, ap₂, ◌∙◌, Bool, true, false, ◌&&◌, none, some, [], ◌∷◌, ◌++◌, reverse,
  if◌then◌else◌, arith,
}
use mathlib.Core.List.{reverse_aux, reverse_aux-append, reverse_aux-eq, reverse-reverse}
use kptv_proxy.Text.{Text, is_space, is_empty, trim_left, trim_right, trim_space}
use kptv_proxy.Text.Trim.{trim_left_of_Starts}
use kptv_proxy.Text.Fields.{NoSpace}
use kptv_proxy.Text.Split.{Lacks}
use kptv_proxy.M3u8.{cut, scan_back, trim_blanks, take_value, quote, comma, blank}

pub cut_lem : (c : ℕ) (s t : Text) → Lacks c s → cut c (s ++ c ∷ t) ≡ some (s, t)
unfolding cut
cut_lem c [] t a = ground arith
cut_lem c (d ∷ s) t a = rw (a.0, cut_lem c s t a.1) refl

pub cut-none : (c : ℕ) (s : Text) → Lacks c s → cut c s ≡ none
unfolding cut
cut-none c [] a = refl
cut-none c (d ∷ s) a = rw (a.0, cut-none c s a.1) refl

Lacks-reverse_aux : (c : ℕ) (s r : Text) → Lacks c s → Lacks c r → Lacks c (reverse_aux s r)
Lacks-reverse_aux c [] r a b = b
Lacks-reverse_aux c (d ∷ s) r a b = Lacks-reverse_aux c s (d ∷ r) a.1 (a.0, b)

scan_back_lem :
    (s t after : Text)
    → Lacks quote s
    → Lacks comma s
    → scan_back false (s ++ comma ∷ t) after ≡ some (reverse t, reverse_aux s after)
unfolding scan_back
scan_back_lem [] t after a b = refl
scan_back_lem (c ∷ s) t after a b = rw (a.0, b.0) (scan_back_lem s t (c ∷ after) a.1 b.1)

-- The last comma of a line whose name has neither a comma nor a quote.
pub scan_back_name :
    (before name : Text)
    → Lacks quote name
    → Lacks comma name
    → scan_back false (reverse (before ++ comma ∷ name)) [] ≡ some (before, name)
scan_back_name before name a b =
    ap (λ r. scan_back false r [])
      (reverse_aux-append before (comma ∷ name) [] ∙ reverse_aux-eq name (comma ∷ reverse before))
    ∙ scan_back_lem (reverse name) (reverse before) [] (Lacks-reverse_aux quote name [] a tt)
        (Lacks-reverse_aux comma name [] b tt)
    ∙ ap₂ (λ x y. some (x, y)) (reverse-reverse before) (reverse-reverse name)

pub trim_right_snoc :
    (s : Text) (c : ℕ) → is_space c ≡ false → trim_right (s ++ c ∷ []) ≡ s ++ c ∷ []
unfolding trim_right
trim_right_snoc [] c h = rw h refl
trim_right_snoc (d ∷ s) c h = rw (trim_right_snoc s c h) (filled s)
  where
    filled :
        (s : Text)
        → (if is_empty (s ++ c ∷ []) && is_space d then [] else d ∷ (s ++ c ∷ []))
          ≡ d ∷ (s ++ c ∷ [])
    filled [] = refl
    filled (x ∷ s) = refl

pub trim_right_spaces : (s : Text) → trim_right (s ++ blank ∷ []) ≡ trim_right s
unfolding trim_right is_space
trim_right_spaces [] = refl
trim_right_spaces (d ∷ s) = rw (trim_right_spaces s) refl

pub trim_right-NoSpace : (s : Text) → NoSpace s → trim_right s ≡ s
unfolding trim_right
trim_right-NoSpace [] h = refl
trim_right-NoSpace (c ∷ s) h = rw (trim_right-NoSpace s h.1, h.0) (unchanged (is_empty s))
  where
    unchanged : (b : Bool) → (if b && false then [] else c ∷ s) ≡ c ∷ s
    unchanged true = refl
    unchanged false = refl

pub trim_space-NoSpace : (s : Text) → NoSpace s → trim_space s ≡ s
unfolding trim_space
trim_space-NoSpace [] h = unfold trim_left trim_right in refl
trim_space-NoSpace (c ∷ s) h =
    ap trim_right (trim_left_of_Starts (c ∷ s) h.0) ∙ trim_right-NoSpace (c ∷ s) h

pub NoSpace-Lacks : (s : Text) → NoSpace s → Lacks blank s
NoSpace-Lacks [] h = tt
NoSpace-Lacks (c ∷ s) h = (unfold is_space in ground (arith, h.0), NoSpace-Lacks s h.1)

-- A key begins with no blank.
pub trim_blanks_word : (c : ℕ) (s : Text) → is_space c ≡ false → trim_blanks (c ∷ s) ≡ c ∷ s
unfolding trim_blanks is_space
trim_blanks_word c s h = ground (arith, h)

pub trim_blanks-blank : (s : Text) → trim_blanks (blank ∷ s) ≡ trim_blanks s
unfolding trim_blanks
trim_blanks-blank s = refl

pub take_value_quoted :
    (v rest : Text) → Lacks quote v → take_value (quote ∷ (v ++ quote ∷ rest)) ≡ (v, rest)
unfolding take_value
take_value_quoted v rest a = rw (cut_lem quote v rest a) refl
