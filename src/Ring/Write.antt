-- ===== src/Ring/Write.antt =====
-- Write: where the two copies put each byte.
use kptv_proxy.Prelude.{
  ℕ, ◌+◌, ◌-◌, ◌<◌, ◌≤◌, min, ◌≡◌, ◌∙◌, ◌⊎◌, inl, inr, List, length, get_or, drop, ltb, ltb→lt,
  ltb→le, Bool-cases, length-drop, get_or-drop, arith,
}
use kptv_proxy.Ring.{copy_at, copy_round}
use kptv_proxy.Ring.Copy.{length-copy_at, copy_at_hit, copy_at_miss}

module _ (store kept : List ℕ) (i : ℕ) where
  pub length-copy_round : length (copy_round store i kept) ≡ length store
  unfolding copy_round
  length-copy_round = ground (
    arith,
    length-copy_at 0 (copy_at i store kept) (drop (min (length store - i) (length kept)) kept),
    length-copy_at i store kept,
  )

  -- The first copy stops at the end of the storage.
  abbrev fit : ℕ
  fit = min (length store - i) (length kept)

  module _ (short : length kept ≤ length store) (inside : i < length store) (u : ℕ) where
    -- Byte `k` of the data lies `k` places from `i` on, round the end.
    pub copy_round_hit :
        (k : ℕ)
        → k < length kept
        → u < length store
        → (u ≡ i + k) ⊎ (u + length store ≡ i + k)
        → get_or (copy_round store i kept) u 0 ≡ get_or kept k 0
    unfolding copy_round
    copy_round_hit k hk hu e = elim (Bool-cases (ltb fit (length kept))) [
      | inl over ↦ rw over (wrapped (ltb→lt _ _ over) e)
      | inr all ↦ rw all (copy_at_hit i store kept u k (omega (arith, ltb→le _ _ all)) hk hu)
    ]
      where
        first : List ℕ
        first = copy_at i store kept

        wrapped :
            fit < length kept
            → (u ≡ i + k) ⊎ (u + length store ≡ i + k)
            → get_or (copy_at 0 first (drop fit kept)) u 0 ≡ get_or kept k 0
        wrapped o (inl p) =
            copy_at_miss 0 first (drop fit kept) u (inr (omega (arith, length-drop fit kept)))
            ∙ copy_at_hit i store kept u k p hk hu
        wrapped o (inr p) =
            copy_at_hit 0 first (drop fit kept) u u (omega arith)
              (omega (arith, length-drop fit kept)) (omega (arith, length-copy_at i store kept))
            ∙ get_or-drop fit kept u k 0 (omega arith)

    -- A place that the data does not reach keeps its byte.
    pub copy_round_miss :
        ((u < i) × (i + length kept ≤ u + length store)) ⊎ (i + length kept ≤ u)
        → get_or (copy_round store i kept) u 0 ≡ get_or store u 0
    unfolding copy_round
    copy_round_miss e = elim (Bool-cases (ltb fit (length kept))) [
      | inl over ↦ rw over (
          copy_at_miss 0 (copy_at i store kept) (drop fit kept) u
            (inr (omega (arith, length-drop fit kept, ltb→lt _ _ over)))
          ∙ copy_at_miss i store kept u (omega arith))
      | inr all ↦ rw all (copy_at_miss i store kept u (omega arith))
    ]
