-- ===== src/Filter/QualityLaws.antt =====
-- The map of best ranks of applyQualityDedupe against a plain minimum.
use kptv_proxy.Prelude.{
  ℕ, suc, ◌≤◌, min, ◌≡◌, refl, sym, ap, ◌∙◌, ◌⊎◌, inl, inr, Bool, true, false, ◌&&◌, ◌||◌, Option,
  none, some, List, [], ◌∷◌, ltb, ltb→lt, ltb→le, Bool-cases, dec_le, if◌then◌else◌, arith,
}
use kptv_proxy.Text.{Text, text_eq}
use kptv_proxy.Text.Equality.{text_eq→eq, text_eq_refl}
use kptv_proxy.Text.Maps.{TextMap, lookup, insert, lookup-insert}
use kptv_proxy.Filter.Quality.{Mark, best_from, is_better, is_outranked, or_zero}

abbrev pub opt_min : Option ℕ → Option ℕ → Option ℕ
opt_min none b = b
opt_min (some a) none = some a
opt_min (some a) (some b) = some (min a b)

-- The best rank among the marks with key `k`.
unfoldable pub least : Text → List (Option Mark) → Option ℕ
least k [] = none
least k (none ∷ marks) = least k marks
least k (some (rank, key) ∷ marks) =
    let rest = least k marks in if text_eq key k then opt_min (some rank) rest else rest

opt_min_assoc : (a b c : Option ℕ) → opt_min (opt_min a b) c ≡ opt_min a (opt_min b c)
opt_min_assoc none b c = refl
opt_min_assoc (some a) none c = refl
opt_min_assoc (some a) (some b) none = refl
opt_min_assoc (some a) (some b) (some c) = ap some (omega arith)

min_new : (rank : ℕ) (m : Option ℕ) → is_better rank m ≡ true → opt_min m (some rank) ≡ some rank
min_new rank none h = refl
min_new rank (some b) h = ap some (omega (arith, ltb→lt rank b h))

min_old : (rank : ℕ) (m : Option ℕ) → is_better rank m ≡ false → opt_min m (some rank) ≡ m
min_old rank none h = cc
min_old rank (some b) h = ap some (omega (arith, ltb→le rank b h))

best_step :
    (k key : Text) (rank : ℕ) (best : TextMap ℕ)
    → lookup k (if is_better rank (lookup key best) then insert key rank best else best)
      ≡ (if text_eq key k then opt_min (lookup k best) (some rank) else lookup k best)
best_step k key rank best = elim (Bool-cases (is_better rank (lookup key best))) [
  | inl new ↦ rw new (
      ground (
        arith,
        lookup-insert key k rank best,
        text_eq→eq key k,
        min_new rank (lookup key best) new,
      ))
  | inr old ↦ rw old (ground (arith, text_eq→eq key k, min_old rank (lookup key best) old))
]

opt_min-none : (a : Option ℕ) → opt_min a none ≡ a
opt_min-none none = refl
opt_min-none (some a) = refl

-- The map holds for each key the best rank of the marks.
lookup-best_from :
    (k : Text) (best : TextMap ℕ) (marks : List (Option Mark))
    → lookup k (best_from best marks) ≡ opt_min (lookup k best) (least k marks)
unfolding best_from least
lookup-best_from k best [] = sym (opt_min-none (lookup k best))
lookup-best_from k best (none ∷ marks) = lookup-best_from k best marks
lookup-best_from k best (some (rank, key) ∷ marks) =
    lookup-best_from k (if is_better rank (lookup key best) then insert key rank best else best)
      marks
    ∙ ap (λ m. opt_min m (least k marks)) (best_step k key rank best)
    ∙ ground (arith, opt_min_assoc (lookup k best) (some rank) (least k marks))

pub lookup-best :
    (k : Text) (marks : List (Option Mark)) → lookup k (best_from [] marks) ≡ least k marks
unfolding lookup
lookup-best k marks = lookup-best_from k [] marks

-- Some mark with key `k` has a better rank.
unfoldable pub has_better : ℕ → Text → List (Option Mark) → Bool
has_better rank k [] = false
has_better rank k (none ∷ marks) = has_better rank k marks
has_better rank k (some (r, key) ∷ marks) = (text_eq key k && ltb r rank) || has_better rank k marks

abbrev pub below : ℕ → Option ℕ → Bool
below rank none = false
below rank (some b) = ltb b rank

pub min_left : (a b : ℕ) → a ≤ b → min a b ≡ a
min_left a b h = omega arith

pub min_right : (a b : ℕ) → b ≤ a → min a b ≡ b
min_right a b h = omega arith

pub below_min :
    (rank a : ℕ) (m : Option ℕ) → below rank (opt_min (some a) m) ≡ (ltb a rank || below rank m)
below_min rank a none = ground arith
below_min rank a (some b) = elim (dec_le a b) [
  | yes l ↦ ground (arith, min_left a b l)
  | no g ↦ ground (arith, min_right a b (omega arith))
]

pub has_better-least :
    (rank : ℕ) (k : Text) (marks : List (Option Mark))
    → has_better rank k marks ≡ below rank (least k marks)
unfolding has_better least
has_better-least rank k [] = refl
has_better-least rank k (none ∷ marks) = has_better-least rank k marks
has_better-least rank k (some (r, key) ∷ marks) =
    ground (arith, has_better-least rank k marks, below_min rank r (least k marks))

-- A mark that stands in the list.
abbrev pub In : Option Mark → List (Option Mark) → Type 0
In m [] = ⊥
In m (n ∷ marks) = (m ≡ n) ⊎ In m marks

-- The best rank is at most that of any mark with the key.
pub least-In :
    (rank : ℕ) (k : Text) (marks : List (Option Mark))
    → In (some (rank, k)) marks
    → below (suc rank) (least k marks) ≡ true
unfolding least
least-In rank k [] h = absurd h
least-In rank k (none ∷ marks) (inl e) = cc
least-In rank k (none ∷ marks) (inr h) = least-In rank k marks h
least-In rank k (some (r, key) ∷ marks) (inl e) =
    ground (arith, text_eq_refl k, below_min (suc rank) r (least k marks))
least-In rank k (some (r, key) ∷ marks) (inr h) =
    ground (arith, least-In rank k marks h, below_min (suc rank) r (least k marks))

outranked_below :
    (rank : ℕ) (m : Option ℕ) → below (suc rank) m ≡ true → ltb (or_zero m) rank ≡ below rank m
outranked_below rank none h = cc
outranked_below rank (some b) h = refl

-- A mark has a better one in the list.
abbrev pub is_beaten : List (Option Mark) → Option Mark → Bool
is_beaten marks none = false
is_beaten marks (some (rank, k)) = has_better rank k marks

-- The test of the second loop asks just that.
pub is_outranked-beaten :
    (marks : List (Option Mark)) (m : Option Mark)
    → In m marks
    → is_outranked (best_from [] marks) m ≡ is_beaten marks m
unfolding is_outranked
is_outranked-beaten marks none h = refl
is_outranked-beaten marks (some (rank, k)) h =
    rw (lookup-best k marks, has_better-least rank k marks)
      (outranked_below rank (least k marks) (least-In rank k marks h))
