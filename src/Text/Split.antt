-- ===== src/Text/Split.antt =====
-- Cutting a text at each place of a separator, against join.
use kptv_proxy.Prelude.{
  ℕ, ◌≡◌, refl, sym, ap, ap₂, ◌∙◌, false, List, [], ◌∷◌, ◌++◌, ◌==◌, if◌then◌else◌, arith,
}
use kptv_proxy.Text.{Text, is_empty, join}

-- A text without a code point.
abbrev pub Lacks : ℕ → Text → Type 0
Lacks c [] = Unit {0}
Lacks c (d ∷ s) = ((d == c) ≡ false) × Lacks c s

abbrev pub AllLack : ℕ → List Text → Type 0
AllLack c [] = Unit {0}
AllLack c (s ∷ ss) = Lacks c s × AllLack c ss

pub Lacks-append : (c : ℕ) (s t : Text) → Lacks c s → Lacks c t → Lacks c (s ++ t)
Lacks-append c [] t a b = b
Lacks-append c (d ∷ s) t a b = (a.0, Lacks-append c s t a.1 b)

abbrev pub put_on : ℕ → List Text → List Text
put_on d [] = (d ∷ []) ∷ []
put_on d (s ∷ ss) = (d ∷ s) ∷ ss

-- strings.Split at one code point.
unfoldable pub split : ℕ → Text → List Text
split c [] = [] ∷ []
split c (d ∷ s) = let rest = split c s in if d == c then [] ∷ rest else put_on d rest

pub split-append : (c : ℕ) (s t : Text) → Lacks c s → split c (s ++ c ∷ t) ≡ s ∷ split c t
unfolding split
split-append c [] t a = ground arith
split-append c (d ∷ s) t a = rw (a.0, split-append c s t a.1) refl

split_lem : (c : ℕ) (s : Text) → Lacks c s → split c s ≡ s ∷ []
unfolding split
split_lem c [] a = refl
split_lem c (d ∷ s) a = rw (a.0, split_lem c s a.1) refl

pub split-join :
    (c : ℕ) (s : Text) (ss : List Text)
    → AllLack c (s ∷ ss)
    → split c (join (c ∷ []) (s ∷ ss)) ≡ s ∷ ss
unfolding join
split-join c s [] a = split_lem c s a.0
split-join c s (t ∷ ss) a =
    split-append c s (join (c ∷ []) (t ∷ ss)) a.0 ∙ ap (λ r. s ∷ r) (split-join c t ss a.1)

-- Texts without the separator can be told from what they are joined to.
pub join_injective :
    (c : ℕ) (s t : Text) (ss ts : List Text)
    → AllLack c (s ∷ ss)
    → AllLack c (t ∷ ts)
    → join (c ∷ []) (s ∷ ss) ≡ join (c ∷ []) (t ∷ ts)
    → s ∷ ss ≡ t ∷ ts
join_injective c s t ss ts a b e = sym (split-join c s ss a) ∙ ap (split c) e ∙ split-join c t ts b

-- A text is cut at the first place of a separator in one way.
pub cut_injective :
    (c : ℕ) (a b s t : Text) → Lacks c a → Lacks c b → a ++ c ∷ s ≡ b ++ c ∷ t → (a ≡ b) × (s ≡ t)
cut_injective c [] [] s t v w e = (refl, cc e)
cut_injective c [] (d ∷ b) s t v w e = let same : c ≡ d = cc e in absurd (ground (arith, w.0, same))
cut_injective c (d ∷ a) [] s t v w e = let same : d ≡ c = cc e in absurd (ground (arith, v.0, same))
cut_injective c (d ∷ a) (x ∷ b) s t v w e =
    let (p, q) = cut_injective c a b s t v.1 w.1 (cc e) in (ap₂ ◌∷◌ (cc e) p, q)

-- Items of a list that is written with a separator between them.
abbrev pub AreItems : ℕ → List Text → Type 0
AreItems c [] = Unit {0}
AreItems c (s ∷ ss) = (is_empty s ≡ false) × Lacks c s × AreItems c ss

AreItems-AllLack : (c : ℕ) (ss : List Text) → AreItems c ss → AllLack c ss
AreItems-AllLack c [] v = tt
AreItems-AllLack c (s ∷ ss) v = (v.1, AreItems-AllLack c ss v.2)

join_nonempty : (sep s : Text) (ss : List Text) → is_empty s ≡ false → ¬ (join sep (s ∷ ss) ≡ [])
unfolding join
join_nonempty sep [] ss v = λ e. cc v
join_nonempty sep (d ∷ s) [] v = λ e. cc e
join_nonempty sep (d ∷ s) (t ∷ ss) v = λ e. cc e

pub join_items_injective :
    (c : ℕ) (ss ts : List Text)
    → AreItems c ss
    → AreItems c ts
    → join (c ∷ []) ss ≡ join (c ∷ []) ts
    → ss ≡ ts
join_items_injective c [] [] v w e = refl
join_items_injective c [] (t ∷ ts) v w e =
    absurd (join_nonempty (c ∷ []) t ts w.0 (sym e ∙ unfold join in refl))
join_items_injective c (s ∷ ss) [] v w e =
    absurd (join_nonempty (c ∷ []) s ss v.0 (e ∙ unfold join in refl))
join_items_injective c (s ∷ ss) (t ∷ ts) v w e =
    join_injective c s t ss ts (AreItems-AllLack c (s ∷ ss) v) (AreItems-AllLack c (t ∷ ts) w) e
