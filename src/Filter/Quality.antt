-- ===== src/Filter/Quality.antt =====
-- qualityRank and applyQualityDedupe of work/filter/filter.go. A place found by FindStringIndex is
-- counted in code points here and in bytes there.
use kptv_proxy.Prelude.{
  ℕ, suc, Bool, true, false, Option, none, some, List, [], ◌∷◌, ◌++◌, take, drop, reverse, ltb,
  if◌then◌else◌, ◌==◌,
}
use kptv_proxy.Text.{Text, Unicode, codes, to_lower, fields, join}
use kptv_proxy.Text.Maps.{TextMap, lookup, insert}
use kptv_proxy.Config.Rules.{Regexps}
use kptv_proxy.Filter.Types.{Stream, CompiledFilter}

pub data Stage : Type 0 where
  rule default group type pattern_stage quality : Stage

-- `outcome`; `rule_index` is the deciding rule's place from 1, or 0.
pub record Outcome : Type 0 where
  pub stream : Stream
  pub group_name : Text
  pub group_key : Text
  pub content_type : Text
  pub keep : Bool
  pub stage : Stage
  pub rule_index : ℕ

abbrev pub member : List ℕ → ℕ → Bool
member [] c = false
member (d ∷ cs) c = if d == c then true else member cs c

-- strings.Trim
unfoldable pub trim_left_set : List ℕ → Text → Text
trim_left_set cut [] = []
trim_left_set cut (c ∷ s) = if member cut c then trim_left_set cut s else c ∷ s

unfoldable pub trim_set : List ℕ → Text → Text
unfolding trim_left_set
trim_set cut s = reverse (trim_left_set cut (reverse (trim_left_set cut s)))

abbrev pub separators : Text
separators = codes " -|[]()/:·"

-- A rank and the key that sibling variants share.
abbrev pub Mark : Type 0
Mark = ℕ × Text

abbrev pub is_better : ℕ → Option ℕ → Bool
is_better rank none = true
is_better rank (some b) = ltb rank b

-- The map of the best rank for each key, after the first loop.
unfoldable pub best_from : TextMap ℕ → List (Option Mark) → TextMap ℕ
best_from best [] = best
best_from best (none ∷ marks) = best_from best marks
best_from best (some (rank, key) ∷ marks) =
    best_from (if is_better rank (lookup key best) then insert key rank best else best) marks

-- The test of the second loop; a missing key reads as rank 0.
abbrev pub or_zero : Option ℕ → ℕ
or_zero none = 0
or_zero (some n) = n

unfoldable pub is_outranked : TextMap ℕ → Option Mark → Bool
is_outranked best none = false
is_outranked best (some (rank, key)) = ltb (or_zero (lookup key best)) rank

abbrev pub drop_outcome : Outcome → Outcome
drop_outcome o = record o { keep = false; stage = quality }

-- The second loop, with the number that it drops.
unfoldable pub drop_outranked : TextMap ℕ → List (Option Mark) → List Outcome → List Outcome × ℕ
drop_outranked best [] os = (os, 0)
drop_outranked best (m ∷ marks) [] = ([], 0)
drop_outranked best (m ∷ marks) (o ∷ os) =
    let (os', n) = drop_outranked best marks os in
    if is_outranked best m then (drop_outcome o ∷ os', suc n) else (o ∷ os', n)

module _ (u : Unicode) (lib : Regexps) where
  open lib use {Regexp, find_index}

  unfoldable pub base_name : Text → ℕ → ℕ → Text
  base_name name from to =
      trim_set separators
        (join (32 ∷ []) (fields (to_lower u (take from name ++ (32 ∷ drop to name)))))

  unfoldable pub rank_from : ℕ → List Regexp → Text → Option Mark
  rank_from i [] name = none
  rank_from i (tier ∷ tiers) name = elim (find_index tier name) [
    | none ↦ rank_from (suc i) tiers name
    | some (from, to) ↦ some (i, base_name name from to)
  ]

  unfoldable pub quality_rank : List Regexp → Text → Option Mark
  unfolding rank_from
  quality_rank tiers name = rank_from 0 tiers name

  -- The mark of one outcome: only what is still kept takes part, and a key holds the content type.
  unfoldable pub mark_of : List Regexp → Outcome → Option Mark
  mark_of tiers o =
      if o.keep
      then elim (quality_rank tiers o.stream.name) [
        | none ↦ none
        | some (rank, base) ↦ some (rank, o.content_type ++ (0 ∷ base))
      ]
      else none

  unfoldable pub marks_of : List Regexp → List Outcome → List (Option Mark)
  marks_of tiers [] = []
  marks_of tiers (o ∷ os) = mark_of tiers o ∷ marks_of tiers os

  -- With no tiers the stage is off.
  unfoldable pub dedupe_by : List Regexp → List Outcome → List Outcome × ℕ
  dedupe_by [] os = (os, 0)
  dedupe_by (tier ∷ tiers) os =
      let marks = marks_of (tier ∷ tiers) os in drop_outranked (best_from [] marks) marks os

  unfoldable pub apply_quality_dedupe : CompiledFilter Regexp → List Outcome → List Outcome × ℕ
  unfolding dedupe_by
  apply_quality_dedupe f os = dedupe_by f.quality_tiers os
