-- ===== src/Ring/Append.antt =====
-- Write, and the bytes that the buffer holds.
use native.Mathlib.Nat.{mod-lt}
use kptv_proxy.Prelude.{
  ℕ, ◌+◌, ◌-◌, ◌%◌, ◌^◌, ◌<◌, ◌≤◌, min, ◌≡◌, refl, sym, ◌∙◌, ap, ◌⊎◌, inl, inr, some, List, ◌++◌,
  length, get_or, ltb, ltb→lt, ltb→le, Bool-cases, length-drop, length-append, get_or-drop,
  get_or-append_left, get_or-append_right, dec_lt, arith,
}
use kptv_proxy.Ring.{RingBuffer, copy_round, trim, slot, add64, write, write_section, write_store}
use kptv_proxy.Ring.Write.{length-copy_round, copy_round_hit, copy_round_miss}
use kptv_proxy.Ring.Window.{Holds, mod_between}

pub slot_lem : (pos size : ℕ) → 0 < size → pos < 2 ^ 63 → slot pos size ≡ some (pos % size)
unfolding slot
slot_lem pos size h k = ground arith

length-trim : (size : ℕ) (bs : List ℕ) → length (trim size bs) ≡ min (length bs) size
unfolding trim
length-trim size bs = ground (arith, length-drop (length bs - size) bs)

-- Byte `k` of what is kept, counted in the data.
trim_get :
    (size : ℕ) (bs : List ℕ) (k j : ℕ)
    → j + length (trim size bs) ≡ k + length bs
    → get_or (trim size bs) k 0 ≡ get_or bs j 0
unfolding trim
trim_get size bs k j e = elim (Bool-cases (ltb size (length bs))) [
  | inl over ↦ rw over (
      get_or-drop (length bs - size) bs k j 0 (omega (arith, ltb→lt _ _ over, length-trim size bs)))
  | inr all ↦ rw all (ap (λ i. get_or bs i 0) (omega (arith, ltb→le _ _ all, length-trim size bs)))
]

module _ {rb : RingBuffer} {store h : List ℕ} (bs : List ℕ) (v : Holds rb store h) where
  abbrev kept : List ℕ
  kept = trim rb.size bs

  -- The position of the first byte that is kept.
  abbrev from : ℕ
  from = length h + (length bs - length kept)

  abbrev pub stored_after : List ℕ
  stored_after = copy_round store (from % rb.size) kept

  abbrev pub after : RingBuffer
  after = record rb { buf = some stored_after; write_pos = length h + length bs }

  module _ (pos : 0 < rb.size) where
    window_new :
        (j : ℕ)
        → from ≤ j
        → j < length h + length bs
        → get_or stored_after (j % rb.size) 0 ≡ get_or (h ++ bs) j 0
    window_new j p q =
        copy_round_hit store kept (from % rb.size) short inside (j % rb.size) (j - from)
          (omega (arith, length-trim rb.size bs)) (omega (arith, at.0, v.full))
          (omega (arith, at, v.full))
        ∙ trim_get rb.size bs (j - from) (j - length h) (omega (arith, length-trim rb.size bs))
        ∙ sym (get_or-append_right h bs (j - length h) j 0 (omega (arith, length-trim rb.size bs)))
      where
        short : length kept ≤ length store
        short = omega (arith, length-trim rb.size bs, v.full)

        inside : from % rb.size < length store
        inside = omega (arith, mod-lt from pos, v.full)

        at :
            (j % rb.size < rb.size)
            × ((j % rb.size ≡ from % rb.size + (j - from))
                ⊎ (j % rb.size + rb.size ≡ from % rb.size + (j - from)))
        at = mod_between from j rb.size p (omega (arith, length-trim rb.size bs))

    window_old :
        (j : ℕ)
        → j < from
        → length h + length bs ≤ j + rb.size
        → get_or stored_after (j % rb.size) 0 ≡ get_or (h ++ bs) j 0
    window_old j p q =
        copy_round_miss store kept (from % rb.size) short inside (j % rb.size) away
        ∙ v.window j (omega (arith, length-trim rb.size bs)) (omega arith)
        ∙ sym (get_or-append_left h bs j 0 (omega (arith, length-trim rb.size bs)))
      where
        short : length kept ≤ length store
        short = omega (arith, length-trim rb.size bs, v.full)

        inside : from % rb.size < length store
        inside = omega (arith, mod-lt from pos, v.full)

        away :
            ((j % rb.size < from % rb.size)
              × (from % rb.size + length kept ≤ j % rb.size + length store))
            ⊎ (from % rb.size + length kept ≤ j % rb.size)
        away = elim (dec_lt 0 (length kept)) [
          | yes some_kept ↦ omega (
            arith,
            length-trim rb.size bs,
            v.full,
            mod_between j from rb.size (omega arith) (omega (arith, length-trim rb.size bs)),
          )
          | no none_kept ↦ elim (dec_lt (j % rb.size) (from % rb.size)) [
            | yes below ↦ inl (below, omega (arith, v.full))
            | no above ↦ inr (omega arith)
          ]
        ]

    -- The bytes are appended to those that the buffer holds.
    pub write-Holds :
        length h + length bs < 2 ^ 63
        → (write rb bs ≡ some after)
          × (write_section rb bs ≡ some after)
          × Holds after stored_after (h ++ bs)
    unfolding write write_section write_store
    write-Holds small = (
      ground (arith, start, end, slot_lem from rb.size),
      ground (arith, start, end, slot_lem from rb.size),
      record {
        live = v.live;
        stored = refl;
        full = length-copy_round store kept (from % rb.size) ∙ v.full;
        at_end = sym (length-append h bs);
        window = λ j p q. elim (dec_lt j from) [
          | yes old ↦ window_old j old (omega (arith, length-append h bs))
          | no new ↦ window_new j (omega arith) (omega (arith, length-append h bs))
        ];
      },
    )
      where
        start : add64 rb.write_pos (length bs - length kept) ≡ from
        start = omega (arith, v.at_end)

        end : add64 rb.write_pos (length bs) ≡ length h + length bs
        end = omega (arith, v.at_end)
