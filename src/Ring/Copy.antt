-- ===== src/Ring/Copy.antt =====
-- The builtin copy, byte by byte.
use kptv_proxy.Prelude.{
  ℕ, zero, suc, ◌+◌, ◌<◌, ◌≤◌, ◌≡◌, refl, ap, ◌∙◌, ◌⊎◌, inl, inr, List, [], ◌∷◌, length, get_or,
  arith,
}
use kptv_proxy.Ring.{copy_into, copy_at}

length-copy_into : (dst src : List ℕ) → length (copy_into dst src) ≡ length dst
unfolding copy_into
length-copy_into [] src = refl
length-copy_into (x ∷ dst) [] = refl
length-copy_into (x ∷ dst) (y ∷ src) = ap suc (length-copy_into dst src)

pub length-copy_at : (i : ℕ) (dst src : List ℕ) → length (copy_at i dst src) ≡ length dst
unfolding copy_at
length-copy_at zero dst src = length-copy_into dst src
length-copy_at (suc i) [] src = refl
length-copy_at (suc i) (x ∷ dst) src = ap suc (length-copy_at i dst src)

copy_into_hit :
    (dst src : List ℕ) (j : ℕ)
    → j < length src
    → j < length dst
    → get_or (copy_into dst src) j 0 ≡ get_or src j 0
unfolding copy_into
copy_into_hit [] src j h k = elim k [ ]
copy_into_hit (x ∷ dst) [] j h k = elim h [ ]
copy_into_hit (x ∷ dst) (y ∷ src) zero h k = refl
copy_into_hit (x ∷ dst) (y ∷ src) (suc j) h k = copy_into_hit dst src j (omega arith) (omega arith)

copy_into_miss :
    (dst src : List ℕ) (j : ℕ) → length src ≤ j → get_or (copy_into dst src) j 0 ≡ get_or dst j 0
unfolding copy_into
copy_into_miss [] src j h = refl
copy_into_miss (x ∷ dst) [] j h = refl
copy_into_miss (x ∷ dst) (y ∷ src) zero h = absurd (omega arith)
copy_into_miss (x ∷ dst) (y ∷ src) (suc j) h = copy_into_miss dst src j (omega arith)

-- Inside the copied range the source is read.
pub copy_at_hit :
    (i : ℕ) (dst src : List ℕ) (j k : ℕ)
    → j ≡ i + k
    → k < length src
    → j < length dst
    → get_or (copy_at i dst src) j 0 ≡ get_or src k 0
unfolding copy_at
copy_at_hit zero dst src j k e h l =
    let e' : j ≡ k = omega arith in
    copy_into_hit dst src j (omega arith) l ∙ ap (λ m. get_or src m 0) e'
copy_at_hit (suc i) [] src j k e h l = elim l [ ]
copy_at_hit (suc i) (x ∷ dst) src zero k e h l = absurd (omega arith)
copy_at_hit (suc i) (x ∷ dst) src (suc j) k e h l =
    copy_at_hit i dst src j k (omega arith) h (omega arith)

-- Outside it the destination is as it was.
pub copy_at_miss :
    (i : ℕ) (dst src : List ℕ) (j : ℕ)
    → (j < i) ⊎ (i + length src ≤ j)
    → get_or (copy_at i dst src) j 0 ≡ get_or dst j 0
unfolding copy_at
copy_at_miss zero dst src j (inl h) = elim h [ ]
copy_at_miss zero dst src j (inr h) = copy_into_miss dst src j (omega arith)
copy_at_miss (suc i) [] src j h = refl
copy_at_miss (suc i) (x ∷ dst) src zero h = refl
copy_at_miss (suc i) (x ∷ dst) src (suc j) (inl h) = copy_at_miss i dst src j (inl (omega arith))
copy_at_miss (suc i) (x ∷ dst) src (suc j) (inr h) = copy_at_miss i dst src j (inr (omega arith))
