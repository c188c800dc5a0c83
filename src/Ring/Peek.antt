-- ===== src/Ring/Peek.antt =====
-- PeekRecentData, and the bytes that the buffer holds.
use native.Mathlib.Nat.{mod-lt}
use kptv_proxy.Prelude.{
  ℕ, ◌+◌, ◌-◌, ◌%◌, ◌^◌, ◌<◌, ◌≤◌, min, ◌≡◌, sym, ◌∙◌, ap, ◌⊎◌, inl, inr, List, length, get_or,
  drop, take, replicate, ltb, ltb→lt, ltb→le, Bool-cases, length-drop, length-take,
  length-replicate, get_or-drop, get_or-take, ext_of_get_or, dec_lt, arith,
}
use kptv_proxy.Ring.{RingBuffer, bytes, copy_at, gather, store_of, peek_from, peek_section}
use kptv_proxy.Ring.Copy.{length-copy_at, copy_at_hit, copy_at_miss}
use kptv_proxy.Ring.Window.{Holds, mod_between}
use kptv_proxy.Ring.Append.{slot_lem}
use kptv_proxy.Ring.Log.{last}

module _ (store : List ℕ) (start first n : ℕ) where
  abbrev once : List ℕ
  once = copy_at 0 (replicate n 0) (take first (drop start store))

  length-gather : length (gather store start first n) ≡ n
  unfolding gather
  length-gather = ground (
    arith,
    length-replicate {A = ℕ} n 0,
    length-copy_at 0 (replicate n 0) (take first (drop start store)),
    length-copy_at first once (take (n - first) store),
  )

  -- Byte `k` of the result is the one `k` places from `start` on, round the end.
  gather_get :
      (k u : ℕ)
      → first ≡ min (length store - start) n
      → start < length store
      → n ≤ length store
      → k < n
      → u < length store
      → (u ≡ start + k) ⊎ (u + length store ≡ start + k)
      → get_or (gather store start first n) k 0 ≡ get_or store u 0
  unfolding gather
  gather_get k u hf hs hn hk hu e = elim (Bool-cases (ltb first n)) [
    | inl more ↦ rw more (elim (dec_lt k first) [
      | yes early ↦ copy_at_miss first once (take (n - first) store) k (inl early) ∙ direct early
      | no late ↦
          copy_at_hit first once (take (n - first) store) k (k - first) (omega arith)
            (omega (arith, length-take (n - first) store))
            (omega (
              arith,
              length-replicate {A = ℕ} n 0,
              length-copy_at 0 (replicate n 0) (take first (drop start store)),
            ))
          ∙ get_or-take (n - first) store (k - first) 0 (omega arith)
          ∙ ap (λ m. get_or store m 0) (omega (arith, ltb→lt _ _ more))
    ])
    | inr all ↦ rw all (direct (omega (arith, ltb→le _ _ all)))
  ]
    where
      direct : k < first → get_or once k 0 ≡ get_or store u 0
      direct c =
          copy_at_hit 0 (replicate n 0) (take first (drop start store)) k k (omega arith)
            (omega (arith, length-take first (drop start store), length-drop start store))
            (omega (arith, length-replicate {A = ℕ} n 0))
          ∙ get_or-take first (drop start store) k 0 c
          ∙ get_or-drop start store k u 0 (omega arith)

module _ {rb : RingBuffer} {store h : List ℕ} (max_bytes : ℕ) (v : Holds rb store h) where
  abbrev count : ℕ
  count = min max_bytes (min (length h) rb.size)

  gather-last :
      0 < rb.size
      → let start = (length h - count) % rb.size in
        gather store start (min (rb.size - start) count) count ≡ last count h
  gather-last pos =
      ext_of_get_or _ _ 0
        (length-gather store ((length h - count) % rb.size)
            (min (rb.size - (length h - count) % rb.size) count) count
          ∙ omega (arith, length-drop (length h - count) h))
        λ k p.
          let k_lt : k < count = omega (
            arith,
            length-gather store ((length h - count) % rb.size)
                (min (rb.size - (length h - count) % rb.size) count) count,
          ) in
          let spot =
            mod_between (length h - count) (length h - count + k) rb.size (omega arith)
              (omega arith) in
          gather_get store ((length h - count) % rb.size)
            (min (rb.size - (length h - count) % rb.size) count) count k
            ((length h - count + k) % rb.size) (omega (arith, v.full))
            (omega (arith, v.full, mod-lt (length h - count) pos)) (omega (arith, v.full)) k_lt
            (omega (arith, v.full)) (omega (arith, v.full))
          ∙ v.window (length h - count + k) (omega arith) (omega arith)
          ∙ sym (get_or-drop (length h - count) h k (length h - count + k) 0 (omega arith))

  -- The newest bytes of a log that is not empty, as many as asked for and as the buffer holds.
  pub peek_section-bytes :
      0 < rb.size
      → 0 < length h
      → length h < 2 ^ 63
      → peek_section rb max_bytes ≡ bytes (last count h)
  unfolding peek_section peek_from store_of
  peek_section-bytes pos some_written small = ground (
    arith,
    v.at_end,
    same,
    slot_lem (rb.write_pos - min max_bytes (min rb.write_pos rb.size)) rb.size,
    ap (λ p. (p - count) % rb.size) v.at_end,
    gather-last pos,
    mod-lt (length h - count) pos,
    v.full,
  )
    where
      same : min max_bytes (min rb.write_pos rb.size) ≡ count
      same = omega (arith, v.at_end)
