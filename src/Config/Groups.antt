-- ===== src/Config/Groups.antt =====
-- GroupKey, dedupeGroups and normalizeQualityTiers of work/config/sourcefilters.go.
use kptv_proxy.Prelude.{
  ◌≡◌, refl, sym, ap, ◌∙◌, ◌↔◌, inl, inr, false, ◌||◌, List, [], ◌∷◌, ◌++◌, map, Bool-cases,
  if◌then◌else◌, arith,
}
use kptv_proxy.Text.{Text, Unicode, is_empty, contains, to_lower, trim_space, fields, join}
use kptv_proxy.Text.Trim.{trim_space_idem, to_lower_idem}
use kptv_proxy.Text.Fields.{space, fields-AreWords, fields-join, fields-to_lower, fields-trim_space}
use kptv_proxy.Text.Equality.{text_eq→eq, contains_snoc}

module _ (u : Unicode) where
  unfoldable pub group_key : Text → Text
  group_key name = join space (fields (to_lower u name))

  fields-group_key : (s : Text) → fields (group_key s) ≡ fields (to_lower u s)
  unfolding group_key
  fields-group_key s = fields-join (fields (to_lower u s)) (fields-AreWords (to_lower u s))

  -- A key is its own key.
  pub group_key_idem : (s : Text) → group_key (group_key s) ≡ group_key s
  unfolding group_key
  group_key_idem s = ap (join space) (
      fields-to_lower u (group_key s)
      ∙ ap (map (to_lower u)) (fields-group_key s)
      ∙ sym (fields-to_lower u (to_lower u s))
      ∙ ap fields (to_lower_idem u s))

  -- Two labels have one key exactly if they have the same words up to letter case.
  pub group_key_iff :
      (s t : Text)
      → (group_key s ≡ group_key t) ↔ (map (to_lower u) (fields s) ≡ map (to_lower u) (fields t))
  unfolding group_key
  group_key_iff s t = (
    λ e.
        sym (fields-to_lower u s)
        ∙ sym (fields-group_key s)
        ∙ ap fields e
        ∙ fields-group_key t
        ∙ fields-to_lower u t,
    λ e. ap (join space) (fields-to_lower u s ∙ e ∙ sym (fields-to_lower u t)),
  )

  pub group_key-trim_space : (s : Text) → group_key (trim_space s) ≡ group_key s
  unfolding group_key
  group_key-trim_space s = ap (join space) (
      fields-to_lower u (trim_space s)
      ∙ ap (map (to_lower u)) (fields-trim_space s)
      ∙ sym (fields-to_lower u s))

  -- The loop of dedupeGroups; `seen` holds the keys of the map.
  unfoldable pub dedupe_from : List Text → List Text → List Text
  dedupe_from seen [] = []
  dedupe_from seen (g ∷ groups) =
      let label = trim_space g in
      let key = group_key label in
      let kept = dedupe_from (seen ++ key ∷ []) groups in
      let passed = dedupe_from seen groups in if contains seen key then passed else label ∷ kept

  unfoldable pub dedupe_groups : List Text → List Text
  dedupe_groups groups = dedupe_from [] groups

  abbrev pub keys : List Text → List Text
  keys = map group_key

  -- No key twice, and none of `seen`.
  abbrev pub DistinctFrom : List Text → List Text → Type 0
  DistinctFrom seen [] = Unit {0}
  DistinctFrom seen (k ∷ ks) = (contains seen k ≡ false) × DistinctFrom (seen ++ k ∷ []) ks

  abbrev AreTrimmed : List Text → Type 0
  AreTrimmed [] = Unit {0}
  AreTrimmed (g ∷ groups) = (trim_space g ≡ g) × AreTrimmed groups

  dedupe_from-DistinctFrom :
      (seen groups : List Text) → DistinctFrom seen (keys (dedupe_from seen groups))
  unfolding dedupe_from
  dedupe_from-DistinctFrom seen [] = tt
  dedupe_from-DistinctFrom seen (g ∷ groups) =
      elim (Bool-cases (contains seen (group_key (trim_space g)))) [
        | inl old ↦ rw old (dedupe_from-DistinctFrom seen groups)
        | inr new ↦
            rw new (new, dedupe_from-DistinctFrom (seen ++ group_key (trim_space g) ∷ []) groups)
      ]

  dedupe_from-AreTrimmed : (seen groups : List Text) → AreTrimmed (dedupe_from seen groups)
  unfolding dedupe_from
  dedupe_from-AreTrimmed seen [] = tt
  dedupe_from-AreTrimmed seen (g ∷ groups) =
      elim (Bool-cases (contains seen (group_key (trim_space g)))) [
        | inl old ↦ rw old (dedupe_from-AreTrimmed seen groups)
        | inr new ↦ rw new (
          trim_space_idem g,
          dedupe_from-AreTrimmed (seen ++ group_key (trim_space g) ∷ []) groups,
        )
      ]

  dedupe_from_fixed :
      (seen groups : List Text)
      → DistinctFrom seen (keys groups)
      → AreTrimmed groups
      → dedupe_from seen groups ≡ groups
  unfolding dedupe_from
  dedupe_from_fixed seen [] d t = refl
  dedupe_from_fixed seen (g ∷ groups) d t =
      rw (t.0, d.0) (ap (λ r. g ∷ r) (dedupe_from_fixed (seen ++ group_key g ∷ []) groups d.1 t.1))

  -- The keys that are seen or listed stay those that are seen or kept.
  dedupe_from-keys :
      (seen groups : List Text) (k : Text)
      → (contains seen k || contains (keys (dedupe_from seen groups)) k)
        ≡ (contains seen k || contains (keys groups) k)
  unfolding dedupe_from contains
  dedupe_from-keys seen [] k = refl
  dedupe_from-keys seen (g ∷ groups) k =
      elim (Bool-cases (contains seen (group_key (trim_space g)))) [
        | inl old ↦ rw old (
            ground (
              arith,
              dedupe_from-keys seen groups k,
              text_eq→eq (group_key g) k,
              group_key-trim_space g,
            ))
        | inr new ↦ rw new (
            ground (
              arith,
              dedupe_from-keys (seen ++ group_key (trim_space g) ∷ []) groups k,
              contains_snoc seen (group_key (trim_space g)) k,
              group_key-trim_space g,
            ))
      ]

  -- dedupeGroups keeps one label for every group that the list names, trimmed, and names no other
  -- group; no two labels that it keeps name one group; and it leaves its own result as it is.
  pub dedupe_groups_lem :
      (groups : List Text)
      → ((k : Text) → contains (keys (dedupe_groups groups)) k ≡ contains (keys groups) k)
        × DistinctFrom [] (keys (dedupe_groups groups))
        × (dedupe_groups (dedupe_groups groups) ≡ dedupe_groups groups)
  unfolding dedupe_groups contains
  dedupe_groups_lem groups = (
    dedupe_from-keys [] groups,
    dedupe_from-DistinctFrom [] groups,
    dedupe_from_fixed [] (dedupe_from [] groups) (dedupe_from-DistinctFrom [] groups)
        (dedupe_from-AreTrimmed [] groups),
  )

-- normalizeQualityTiers. An empty result stands for the default tiers.
unfoldable pub normalize_quality_tiers : List Text → List Text
normalize_quality_tiers [] = []
normalize_quality_tiers (t ∷ tiers) =
    let s = trim_space t in
    let rest = normalize_quality_tiers tiers in if is_empty s then rest else s ∷ rest
