-- ===== src/Sessions/Thin.antt =====
-- Rows against the same rows with some expired ones deleted.
use kptv_proxy.Prelude.{
  ℕ, ◌*◌, ◌≤◌, ◌≡◌, refl, sym, subst, ap, ◌∙◌, inl, inr, ◌⊎◌, Bool, true, false, Option, none, some,
  List, [], ◌∷◌, ◌++◌, Bool-cases, if◌then◌else◌, arith,
}
use kptv_proxy.Text.{Text, text_eq}
use kptv_proxy.Text.Equality.{text_eq→eq, text_eq_sym}
use kptv_proxy.Sessions.{Row, second, find_row, delete_where}

pub data Thinned (now : ℕ) : List Row → List Row → Type 0 where
  nothing : Thinned now [] []
  kept : (r : Row) (all thin : List Row) → Thinned now all thin → Thinned now (r ∷ all) (r ∷ thin)
  dropped :
      (r : Row) (all thin : List Row)
      → r.expires_at * second ≤ now
      → Thinned now all thin
      → Thinned now (r ∷ all) thin

-- Time passes.
pub later_Thinned :
    (now after : ℕ) (all thin : List Row)
    → now ≤ after
    → Thinned now all thin
    → Thinned after all thin
later_Thinned now after all thin p nothing = nothing
later_Thinned now after all thin p (kept r rest few t) =
    kept r rest few (later_Thinned now after rest few p t)
later_Thinned now after all thin p (dropped r rest few e t) =
    dropped r rest few (omega (arith, e, p)) (later_Thinned now after rest few p t)

pub snoc_Thinned :
    (now : ℕ) (all thin : List Row) (r : Row)
    → Thinned now all thin
    → Thinned now (all ++ r ∷ []) (thin ++ r ∷ [])
snoc_Thinned now all thin r nothing = kept r [] [] nothing
snoc_Thinned now all thin r (kept s rest few t) =
    kept s (rest ++ r ∷ []) (few ++ r ∷ []) (snoc_Thinned now rest few r t)
snoc_Thinned now all thin r (dropped s rest few e t) =
    dropped s (rest ++ r ∷ []) (few ++ r ∷ []) e (snoc_Thinned now rest few r t)

-- The same rows deleted from both.
pub delete_where-Thinned :
    (now : ℕ) (chosen : Row → Bool) (all thin : List Row)
    → Thinned now all thin
    → Thinned now (delete_where chosen all) (delete_where chosen thin)
unfolding delete_where
delete_where-Thinned now chosen all thin nothing = nothing
delete_where-Thinned now chosen all thin (kept r rest few t) = elim (Bool-cases (chosen r)) [
  | inl e ↦ rw e (delete_where-Thinned now chosen rest few t)
  | inr e ↦ rw e (
      kept r (delete_where chosen rest) (delete_where chosen few)
        (delete_where-Thinned now chosen rest few t))
]
delete_where-Thinned now chosen all thin (dropped r rest few p t) = elim (Bool-cases (chosen r)) [
  | inl e ↦ rw e (delete_where-Thinned now chosen rest few t)
  | inr e ↦ rw e (
      dropped r (delete_where chosen rest) (delete_where chosen few) p
        (delete_where-Thinned now chosen rest few t))
]

-- The rows that a test chooses have expired.
abbrev pub AreExpired : ℕ → (Row → Bool) → List Row → Type 0
AreExpired now chosen [] = Unit {0}
AreExpired now chosen (r ∷ rows) =
    (chosen r ≡ true → r.expires_at * second ≤ now) × AreExpired now chosen rows

pub all-AreExpired :
    (now : ℕ) (chosen : Row → Bool) (rows : List Row)
    → ((r : Row) → chosen r ≡ true → r.expires_at * second ≤ now)
    → AreExpired now chosen rows
all-AreExpired now chosen [] x = tt
all-AreExpired now chosen (r ∷ rows) x = (x r, all-AreExpired now chosen rows x)

-- Expired rows deleted from the thinner ones.
pub thinner :
    (now : ℕ) (chosen : Row → Bool) (all thin : List Row)
    → AreExpired now chosen thin
    → Thinned now all thin
    → Thinned now all (delete_where chosen thin)
unfolding delete_where
thinner now chosen all thin x nothing = nothing
thinner now chosen all thin x (dropped r rest few p t) =
    dropped r rest (delete_where chosen few) p (thinner now chosen rest few x t)
thinner now chosen all thin x (kept r rest few t) = elim (Bool-cases (chosen r)) [
  | inl e ↦
      rw e (dropped r rest (delete_where chosen few) (x.0 e) (thinner now chosen rest few x.1 t))
  | inr e ↦ rw e (kept r rest (delete_where chosen few) (thinner now chosen rest few x.1 t))
]

-- No hash twice.
abbrev pub AreKeyed : List Row → Type 0
AreKeyed [] = Unit {0}
AreKeyed (r ∷ rows) = (find_row r.id_hash rows ≡ none) × AreKeyed rows

pub find_none :
    (h : Text) (now : ℕ) (all thin : List Row)
    → Thinned now all thin
    → find_row h all ≡ none
    → find_row h thin ≡ none
unfolding find_row
find_none h now all thin nothing e = refl
find_none h now all thin (kept r rest few t) e = ground (arith, e, find_none h now rest few t)
find_none h now all thin (dropped r rest few p t) e = find_none h now rest few t (ground (arith, e))

-- What is found among the thinner rows: the same, or nothing where the row has expired.
abbrev pub IsFound : ℕ → Option Row → Option Row → Type 0
IsFound now all none = (all ≡ none) ⊎ ((r : Row) × (all ≡ some r) × (r.expires_at * second ≤ now))
IsFound now all (some r) = all ≡ some r

pub find_row-IsFound :
    (h : Text) (now : ℕ) (all thin : List Row)
    → AreKeyed all
    → Thinned now all thin
    → IsFound now (find_row h all) (find_row h thin)
unfolding find_row
find_row-IsFound h now all thin a nothing = inl refl
find_row-IsFound h now all thin a (kept r rest few t) = elim (Bool-cases (text_eq r.id_hash h)) [
  | inl e ↦ rw e refl
  | inr e ↦ rw e (find_row-IsFound h now rest few a.1 t)
]
find_row-IsFound h now all thin a (dropped r rest few p t) =
    elim (Bool-cases (text_eq r.id_hash h)) [
      | inl e ↦
          rw
            (
              e,
              find_none h now rest few t
                  (subst (λ k. find_row k rest ≡ none) (text_eq→eq r.id_hash h e) a.0),
            )
            (inr (r, refl, p))
      | inr e ↦ rw e (find_row-IsFound h now rest few a.1 t)
    ]

absent-AreExpired :
    (h : Text) (now : ℕ) (rows : List Row)
    → find_row h rows ≡ none
    → AreExpired now (λ s. text_eq s.id_hash h) rows
unfolding find_row
absent-AreExpired h now [] e = tt
absent-AreExpired h now (r ∷ rows) e =
    (λ g. absurd (ground (arith, g, e)), absent-AreExpired h now rows (ground (arith, e)))

-- If the row of a hash has expired, then so have all with that hash.
pub found-AreExpired :
    (h : Text) (now : ℕ) (r : Row) (all thin : List Row)
    → AreKeyed all
    → Thinned now all thin
    → find_row h thin ≡ some r
    → r.expires_at * second ≤ now
    → AreExpired now (λ s. text_eq s.id_hash h) thin
unfolding find_row
found-AreExpired h now r all thin a nothing e p = tt
found-AreExpired h now r all thin a (dropped s rest few q t) e p =
    found-AreExpired h now r rest few a.1 t e p
found-AreExpired h now r all thin a (kept s rest few t) e p =
    elim (Bool-cases (text_eq s.id_hash h)) [
      | inl g ↦ (
        λ _. subst (λ k. k.expires_at * second ≤ now) (sym (some_inj s r (first g e))) p,
        absent-AreExpired h now few (
            find_none h now rest few t
              (subst (λ k. find_row k rest ≡ none) (text_eq→eq s.id_hash h g) a.0)),
      )
      | inr g ↦
          (λ c. absurd (cc (sym c ∙ g)), found-AreExpired h now r rest few a.1 t (others g e) p)
    ]
  where
    first :
        text_eq s.id_hash h ≡ true
        → (if text_eq s.id_hash h then some s else find_row h few) ≡ some r
        → some s ≡ some r
    first g e = sym (ap (λ b. if b then some s else find_row h few) g) ∙ e

    others :
        text_eq s.id_hash h ≡ false
        → (if text_eq s.id_hash h then some s else find_row h few) ≡ some r
        → find_row h few ≡ some r
    others g e = sym (ap (λ b. if b then some s else find_row h few) g) ∙ e

    some_inj : (s r : Row) → some s ≡ some r → s ≡ r
    some_inj s r e = cc e

-- The key stays one.
find_row-delete_where :
    (h : Text) (chosen : Row → Bool) (rows : List Row)
    → find_row h rows ≡ none
    → find_row h (delete_where chosen rows) ≡ none
unfolding find_row delete_where
find_row-delete_where h chosen [] e = refl
find_row-delete_where h chosen (r ∷ rows) e = ground (arith, e, find_row-delete_where h chosen rows)

pub delete_where-AreKeyed :
    (chosen : Row → Bool) (rows : List Row) → AreKeyed rows → AreKeyed (delete_where chosen rows)
unfolding delete_where
delete_where-AreKeyed chosen [] a = tt
delete_where-AreKeyed chosen (r ∷ rows) a = elim (Bool-cases (chosen r)) [
  | inl e ↦ rw e (delete_where-AreKeyed chosen rows a.1)
  | inr e ↦
      rw e (find_row-delete_where r.id_hash chosen rows a.0, delete_where-AreKeyed chosen rows a.1)
]

find_row_snoc :
    (h : Text) (rows : List Row) (r : Row)
    → find_row h rows ≡ none
    → text_eq r.id_hash h ≡ false
    → find_row h (rows ++ r ∷ []) ≡ none
unfolding find_row
find_row_snoc h [] r e g = rw g refl
find_row_snoc h (s ∷ rows) r e g = ground (arith, e, find_row_snoc h rows r, g)

pub snoc-AreKeyed :
    (rows : List Row) (r : Row)
    → find_row r.id_hash rows ≡ none
    → AreKeyed rows
    → AreKeyed (rows ++ r ∷ [])
unfolding find_row
snoc-AreKeyed [] r e a = (refl, tt)
snoc-AreKeyed (s ∷ rows) r e a = (
  find_row_snoc s.id_hash rows r a.0 (text_eq_sym s.id_hash r.id_hash (ground (arith, e))),
  snoc-AreKeyed rows r (ground (arith, e)) a.1,
)
