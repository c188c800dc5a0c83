-- ===== src/Filter/QualityStage.antt =====
-- The quality stage on whole catalogs: its two loops against a plain definition, and what is left.
use kptv_proxy.Prelude.{
  ℕ, suc, ◌≡◌, refl, sym, subst, ap, ap₂, ◌∙◌, inl, inr, Bool, true, false, Option, none, some,
  List, [], ◌∷◌, ◌==◌, Bool-cases, dec_le, if◌then◌else◌, arith,
}
use kptv_proxy.Text.{Text, Unicode, text_eq}
use kptv_proxy.Text.Equality.{text_eq→eq}
use kptv_proxy.Config.Rules.{Regexps}
use kptv_proxy.Filter.Types.{CompiledFilter}
use kptv_proxy.Filter.Quality.{
  Mark, Outcome, best_from, drop_outranked, drop_outcome, mark_of, marks_of, quality_rank,
  dedupe_by, apply_quality_dedupe,
}
use kptv_proxy.Filter.QualityLaws.{
  least, below, In, opt_min, has_better, has_better-least, least-In, is_beaten, is_outranked-beaten,
  min_left, min_right,
}

-- The marks that no better one beats.
abbrev sieve : List (Option Mark) → List (Option Mark) → List (Option Mark)
sieve all [] = []
sieve all (m ∷ marks) = (if is_beaten all m then none else m) ∷ sieve all marks

-- The part of a best rank that the sieve leaves.
abbrev cut : Option ℕ → Option ℕ → Option ℕ
cut none m = m
cut (some b) none = none
cut (some b) (some x) = if x == b then some b else none

abbrev at_least : Option ℕ → Option ℕ → Bool
at_least o none = true
at_least o (some x) = below (suc x) o

cut_step :
    (o m : Option ℕ) (r : ℕ)
    → below (suc r) o ≡ true
    → at_least o m ≡ true
    → (if below r o then cut o m else opt_min (some r) (cut o m)) ≡ cut o (opt_min (some r) m)
cut_step none m r h a = cc
cut_step (some b) none r h a = ground arith
cut_step (some b) (some x) r h a = elim (dec_le r x) [
  | yes l ↦ ground (arith, min_left r x l)
  | no g ↦ ground (arith, min_right r x (omega arith), min_left r x)
]

at_least_min :
    (o m : Option ℕ) (r : ℕ)
    → below (suc r) o ≡ true
    → at_least o m ≡ true
    → at_least o (opt_min (some r) m) ≡ true
at_least_min o none r h a = h
at_least_min o (some x) r h a = elim (dec_le r x) [
  | yes l ↦ rw (min_left r x l) h
  | no g ↦ rw (min_right r x (omega arith)) a
]

abbrev Within : List (Option Mark) → List (Option Mark) → Type 0
Within all marks = (m : Option Mark) → In m marks → In m all

least-at_least :
    (k : Text) (all marks : List (Option Mark))
    → Within all marks
    → at_least (least k all) (least k marks) ≡ true
unfolding least
least-at_least k all [] w = refl
least-at_least k all (none ∷ marks) w = least-at_least k all marks (λ m i. w m (inr i))
least-at_least k all (some (r, key) ∷ marks) w = elim (Bool-cases (text_eq key k)) [
  | inl same ↦ rw same (
      at_least_min (least k all) (least k marks) r
        (least-In r k all
          (subst (λ j. In (some (r, j)) all) (text_eq→eq key k same) (w _ (inl refl))))
        (least-at_least k all marks (λ m i. w m (inr i))))
  | inr other ↦ rw other (least-at_least k all marks (λ m i. w m (inr i)))
]

cut-none : (o : Option ℕ) → cut o none ≡ none
cut-none none = refl
cut-none (some b) = refl

least_head_other :
    (b : Bool) (k key : Text) (r : ℕ) (marks : List (Option Mark))
    → text_eq key k ≡ false
    → least k ((if b then none else some (r, key)) ∷ marks) ≡ least k marks
unfolding least
least_head_other true k key r marks h = refl
least_head_other false k key r marks h = rw h

least_head_same :
    (b : Bool) (k key : Text) (r : ℕ) (marks : List (Option Mark))
    → text_eq key k ≡ true
    → least k ((if b then none else some (r, key)) ∷ marks)
      ≡ (if b then least k marks else opt_min (some r) (least k marks))
unfolding least
least_head_same true k key r marks h = refl
least_head_same false k key r marks h = rw h

least-sieve :
    (k : Text) (all marks : List (Option Mark))
    → Within all marks
    → least k (sieve all marks) ≡ cut (least k all) (least k marks)
unfolding least
least-sieve k all [] w = sym (cut-none (least k all))
least-sieve k all (none ∷ marks) w = least-sieve k all marks (λ m i. w m (inr i))
least-sieve k all (some (r, key) ∷ marks) w = elim (Bool-cases (text_eq key k)) [
  | inl same ↦
      let eq = text_eq→eq key k same in
      rw same (
        least_head_same (has_better r key all) k key r (sieve all marks) same
        ∙ ap₂ (λ b l. if b then l else opt_min (some r) l)
            (ap (λ j. has_better r j all) eq ∙ has_better-least r k all)
            (least-sieve k all marks (λ m i. w m (inr i)))
        ∙ cut_step (least k all) (least k marks) r
            (least-In r k all (subst (λ j. In (some (r, j)) all) eq (w _ (inl refl))))
            (least-at_least k all marks (λ m i. w m (inr i))))
  | inr other ↦ rw other (
      least_head_other (has_better r key all) k key r (sieve all marks) other
      ∙ least-sieve k all marks (λ m i. w m (inr i)))
]

cut_self : (o : Option ℕ) → cut o o ≡ o
cut_self none = refl
cut_self (some b) = ground arith

-- Taking out every mark that is beaten leaves the best rank of each key as it was.
least-sieve_self :
    (k : Text) (marks : List (Option Mark)) → least k (sieve marks marks) ≡ least k marks
least-sieve_self k marks = least-sieve k marks marks (λ m i. i) ∙ cut_self (least k marks)

module _ (u : Unicode) (lib : Regexps) (tiers : List lib.Regexp) where
  abbrev pub marks : List Outcome → List (Option Mark)
  marks os = marks_of u lib tiers os

  -- The plain definition: an outcome is dropped if another one of the catalog beats its mark.
  abbrev pub sweep : List (Option Mark) → List Outcome → List Outcome × ℕ
  sweep all [] = ([], 0)
  sweep all (o ∷ os) =
      let (os', n) = sweep all os in
      if is_beaten all (mark_of u lib tiers o) then (drop_outcome o ∷ os', suc n) else (o ∷ os', n)

  drop_outranked-sweep :
      (all : List (Option Mark)) (os : List Outcome)
      → Within all (marks os)
      → drop_outranked (best_from [] all) (marks os) os ≡ sweep all os
  unfolding drop_outranked marks_of
  drop_outranked-sweep all [] w = refl
  drop_outranked-sweep all (o ∷ os) w = rw (
    is_outranked-beaten all (mark_of u lib tiers o) (w _ (inl refl)),
    drop_outranked-sweep all os (λ m i. w m (inr i)),
  )

  mark_drop : (o : Outcome) → mark_of u lib tiers (drop_outcome o) ≡ none
  unfolding mark_of
  mark_drop o = refl

  marks-sweep :
      (all : List (Option Mark)) (os : List Outcome) → marks (sweep all os).0 ≡ sieve all (marks os)
  unfolding marks_of
  marks-sweep all [] = refl
  marks-sweep all (o ∷ os) = elim (Bool-cases (is_beaten all (mark_of u lib tiers o))) [
    | inl beaten ↦ rw (beaten, mark_drop o, marks-sweep all os)
    | inr best ↦ rw (best, marks-sweep all os)
  ]

module _ (u : Unicode) (lib : Regexps) where
  mark_no_tiers : (o : Outcome) → mark_of u lib [] o ≡ none
  unfolding mark_of quality_rank
  mark_no_tiers o = ground arith

  pub sweep_no_tiers :
      (all : List (Option Mark)) (os : List Outcome) → sweep u lib [] all os ≡ (os, 0)
  sweep_no_tiers all [] = refl
  sweep_no_tiers all (o ∷ os) = rw (mark_no_tiers o, sweep_no_tiers all os)

  dedupe_by-sweep :
      (tiers : List lib.Regexp) (os : List Outcome)
      → dedupe_by u lib tiers os ≡ sweep u lib tiers (marks u lib tiers os) os
  unfolding dedupe_by
  dedupe_by-sweep [] os = sym (sweep_no_tiers (marks u lib [] os) os)
  dedupe_by-sweep (tier ∷ tiers) os =
      drop_outranked-sweep u lib (tier ∷ tiers) (marks u lib (tier ∷ tiers) os) os (λ m i. i)

  module _ (f : CompiledFilter lib.Regexp) (os : List Outcome) where
    -- applyQualityDedupe drops a stream exactly if it is still kept, its name carries a quality
    -- marker, and another kept stream of the same content type and base name carries a better one;
    -- it leaves all the others as they are, and returns how many it dropped.
    pub apply_quality_dedupe-sweep :
        apply_quality_dedupe u lib f os
        ≡ sweep u lib f.quality_tiers (marks u lib f.quality_tiers os) os
    unfolding apply_quality_dedupe
    apply_quality_dedupe-sweep = dedupe_by-sweep f.quality_tiers os

    -- For every content type and base name the best rank among the kept streams is the same before
    -- and after applyQualityDedupe, so no channel loses all of its variants.
    pub apply_quality_dedupe-least :
        (k : Text)
        → least k (marks u lib f.quality_tiers (apply_quality_dedupe u lib f os).0)
          ≡ least k (marks u lib f.quality_tiers os)
    apply_quality_dedupe-least k =
        ap (λ r. least k (marks u lib f.quality_tiers r.0)) apply_quality_dedupe-sweep
        ∙ ap (least k) (marks-sweep u lib f.quality_tiers (marks u lib f.quality_tiers os) os)
        ∙ least-sieve_self k (marks u lib f.quality_tiers os)
