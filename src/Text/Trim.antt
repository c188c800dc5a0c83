-- ===== src/Text/Trim.antt =====
-- TrimSpace and ToLower.
use kptv_proxy.Prelude.{◌≡◌, refl, ap, ◌∙◌, false, [], ◌∷◌, arith}
use kptv_proxy.Text.{Text, Unicode, is_space, is_empty, to_lower, trim_left, trim_right, trim_space}

-- A text that does not begin with a space.
abbrev pub Starts : Text → Type 0
Starts [] = Unit {0}
Starts (c ∷ s) = is_space c ≡ false

pub trim_left-Starts : (s : Text) → Starts (trim_left s)
unfolding trim_left
trim_left-Starts [] = tt
trim_left-Starts (c ∷ s) = ground (arith, trim_left-Starts s)

pub trim_left_of_Starts : (s : Text) → Starts s → trim_left s ≡ s
unfolding trim_left
trim_left_of_Starts [] h = refl
trim_left_of_Starts (c ∷ s) h = ground arith

pub trim_right-Starts : (s : Text) → Starts s → Starts (trim_right s)
unfolding trim_right
trim_right-Starts [] h = tt
trim_right-Starts (c ∷ s) h = ground arith

pub trim_right_idem : (s : Text) → trim_right (trim_right s) ≡ trim_right s
unfolding trim_right
trim_right_idem [] = refl
trim_right_idem (c ∷ s) = ground (arith, trim_right_idem s)

-- Trimming twice is trimming once.
pub trim_space_idem : (s : Text) → trim_space (trim_space s) ≡ trim_space s
unfolding trim_space
trim_space_idem s =
    ap trim_right (
      trim_left_of_Starts (trim_right (trim_left s))
        (trim_right-Starts (trim_left s) (trim_left-Starts s)))
    ∙ trim_right_idem (trim_left s)

module _ (u : Unicode) where
  pub to_lower_idem : (s : Text) → to_lower u (to_lower u s) ≡ to_lower u s
  unfolding to_lower
  to_lower_idem [] = refl
  to_lower_idem (c ∷ s) = cc (u.lower_idem c, to_lower_idem s)

  is_empty-to_lower : (s : Text) → is_empty (to_lower u s) ≡ is_empty s
  unfolding to_lower
  is_empty-to_lower [] = refl
  is_empty-to_lower (c ∷ s) = refl

  trim_left-to_lower : (s : Text) → trim_left (to_lower u s) ≡ to_lower u (trim_left s)
  unfolding trim_left to_lower
  trim_left-to_lower [] = refl
  trim_left-to_lower (c ∷ s) = ground (arith, u.lower_space c, trim_left-to_lower s)

  trim_right-to_lower : (s : Text) → trim_right (to_lower u s) ≡ to_lower u (trim_right s)
  unfolding trim_right to_lower
  trim_right-to_lower [] = refl
  trim_right-to_lower (c ∷ s) =
      ground (arith, u.lower_space c, trim_right-to_lower s, is_empty-to_lower (trim_right s))

  pub trim_space-to_lower : (s : Text) → trim_space (to_lower u s) ≡ to_lower u (trim_space s)
  unfolding trim_space
  trim_space-to_lower s = ap trim_right (trim_left-to_lower s) ∙ trim_right-to_lower (trim_left s)

  -- The form in which the code compares what an operator typed.
  abbrev pub tidy : Text → Text
  tidy s = to_lower u (trim_space s)

  pub tidy_idem : (s : Text) → tidy (tidy s) ≡ tidy s
  tidy_idem s =
      ap (to_lower u) (trim_space-to_lower (trim_space s) ∙ ap (to_lower u) (trim_space_idem s))
      ∙ to_lower_idem (trim_space s)
