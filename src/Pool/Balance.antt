-- ===== src/Pool/Balance.antt =====
-- What the users of a pool get from it, and its count of the buffers that are out.
use kptv_proxy.Prelude.{
  ℕ, zero, suc, ◌*◌, ◌^◌, ◌%◌, ◌-◌, ◌<◌, ◌≤◌, ◌≡◌, refl, sym, ap, subst, ◌∙◌, ◌↔◌, inl, inr, false,
  Option, none, some, List, [], ◌∷◌, length, ltb, Bool-cases, arith,
}
use kptv_proxy.Ring.{add64}
use kptv_proxy.Pool.{
  Growth, ByteBuffer, oversized_buffer_multiplier, new_buffer_pool, pick, take_pooled, get, put,
  cleanup,
}
use kptv_proxy.Pool.Users.{
  System, Op, gets, puts, drops, writes, start, put_back, write_to, drop_pooled, step, run,
}

add64_next : (n o : ℕ) → o ≡ n % 2 ^ 64 → add64 o 1 ≡ suc n % 2 ^ 64
add64_next n o e = omega (arith, e)

add64_prev : (n o : ℕ) → o ≡ suc n % 2 ^ 64 → add64 o (2 ^ 64 - 1) ≡ n % 2 ^ 64
add64_prev n o e = omega (arith, e)

length_zero : (bs : List ByteBuffer) → length bs ≡ 0 → bs ≡ []
length_zero [] e = refl
length_zero (b ∷ bs) e = absurd (omega (arith, e))

-- A buffer in the pool: empty, and no larger than the limit.
abbrev pub IsPooled : ℕ → ByteBuffer → Type 0
IsPooled size b = (b.bytes ≡ []) × (b.cap ≤ size * oversized_buffer_multiplier)

abbrev pub ArePooled : ℕ → List ByteBuffer → Type 0
ArePooled size [] = Unit {0}
ArePooled size (b ∷ bs) = IsPooled size b × ArePooled size bs

-- A pick that finds a buffer, and the rest of the list.
abbrev PickedFrom : ℕ → List ByteBuffer → Option (ByteBuffer × List ByteBuffer) → Type 0
PickedFrom size bs none = Unit {0}
PickedFrom size bs (some (b, rest)) =
    (length bs ≡ suc (length rest)) × (ArePooled size bs → IsPooled size b × ArePooled size rest)

later_pick :
    (size : ℕ) (x : ByteBuffer) (bs : List ByteBuffer) (e : Option (ByteBuffer × List ByteBuffer))
    → PickedFrom size bs e
    → PickedFrom size (x ∷ bs) (elim e [ none ↦ none | some (y, ys) ↦ some (y, x ∷ ys) ])
later_pick size x bs none w = tt
later_pick size x bs (some (y, ys)) w = (ap suc w.0, λ v. let (a, b) = w.1 v.1 in (a, (v.0, b)))

pick-PickedFrom : (size i : ℕ) (bs : List ByteBuffer) → PickedFrom size bs (pick i bs)
unfolding pick
pick-PickedFrom size i [] = tt
pick-PickedFrom size zero (b ∷ bs) = (refl, λ v. v)
pick-PickedFrom size (suc i) (b ∷ bs) = later_pick size b bs (pick i bs) (pick-PickedFrom size i bs)

-- The state between two operations.
pub record IsBalanced (size : ℕ) (s : System) : Type 0 where
  pub same_size : s.buffers.buffer_size ≡ size
  pub counted : s.buffers.outstanding ≡ length s.held % 2 ^ 64
  pub pooled : ArePooled size s.buffers.pool

taken-IsPooled :
    (size : ℕ) (bs : List ByteBuffer) (e : Option (ByteBuffer × List ByteBuffer))
    → PickedFrom size bs e
    → ArePooled size bs
    → IsPooled size (take_pooled size bs e).0 × ArePooled size (take_pooled size bs e).1
taken-IsPooled size bs none w v = ((refl, omega arith), v)
taken-IsPooled size bs (some (b, rest)) w v = w.1 v

module _ (g : Growth) (size : ℕ) (s : System) (v : IsBalanced size s) where
  taken :
      (i : ℕ)
      → let t = take_pooled s.buffers.buffer_size s.buffers.pool (pick i s.buffers.pool) in
        IsPooled size t.0 × ArePooled size t.1
  taken i =
      subst
        (λ n.
          let t = take_pooled n s.buffers.pool (pick i s.buffers.pool) in
          IsPooled size t.0 × ArePooled size t.1)
        (sym v.same_size)
        (taken-IsPooled size s.buffers.pool (pick i s.buffers.pool)
          (pick-PickedFrom size i s.buffers.pool) v.pooled)

  got :
      (i : ℕ)
      → let b = (get i s.buffers).0 in
        (b.bytes ≡ []) × (size ≤ b.cap) × (b.cap ≤ size * oversized_buffer_multiplier)
  unfolding get
  got i = ground (arith, v.same_size, (taken i).0.1)

  gets-IsBalanced :
      (i : ℕ)
      → IsBalanced size
          (record { buffers = (get i s.buffers).1; held = (get i s.buffers).0 ∷ s.held })
  unfolding get
  gets-IsBalanced i = record {
    same_size = v.same_size;
    counted = add64_next (length s.held) s.buffers.outstanding v.counted;
    pooled = (taken i).1;
  }

  puts-IsBalanced :
      (e : Option (ByteBuffer × List ByteBuffer))
      → PickedFrom size s.held e
      → IsBalanced size (put_back g s e)
  puts-IsBalanced none w = v
  puts-IsBalanced (some (b, rest)) w =
      elim (Bool-cases (ltb (s.buffers.buffer_size * oversized_buffer_multiplier) b.cap)) [
        | inl large ↦
            unfold put in
            rw large (record { same_size = v.same_size; counted = less; pooled = v.pooled })
        | inr fits ↦
            unfold put in
            rw fits (record {
              same_size = v.same_size;
              counted = less;
              pooled = ((refl, small fits), v.pooled);
            })
      ]
    where
      less : add64 s.buffers.outstanding (2 ^ 64 - 1) ≡ length rest % 2 ^ 64
      less = add64_prev (length rest) s.buffers.outstanding (v.counted ∙ ap (λ n. n % 2 ^ 64) w.0)

      small :
          ltb (s.buffers.buffer_size * oversized_buffer_multiplier) b.cap ≡ false
          → b.cap ≤ size * oversized_buffer_multiplier
      small f = ground (arith, f, v.same_size)

  drops-IsBalanced :
      (e : Option (ByteBuffer × List ByteBuffer))
      → PickedFrom size s.buffers.pool e
      → IsBalanced size (drop_pooled g s e)
  drops-IsBalanced none w = v
  drops-IsBalanced (some (b, rest)) w = record {
    same_size = v.same_size;
    counted = v.counted;
    pooled = (w.1 v.pooled).1;
  }

  writes-IsBalanced :
      (p : List ℕ) (e : Option (ByteBuffer × List ByteBuffer))
      → PickedFrom size s.held e
      → IsBalanced size (write_to g s p e)
  writes-IsBalanced p none w = v
  writes-IsBalanced p (some (b, rest)) w = record {
    same_size = v.same_size;
    counted = v.counted ∙ ap (λ n. n % 2 ^ 64) w.0;
    pooled = v.pooled;
  }

module _ (g : Growth) (size : ℕ) where
  step-IsBalanced : (s : System) (op : Op) → IsBalanced size s → IsBalanced size (step g s op)
  unfolding step
  step-IsBalanced s (gets i) v = gets-IsBalanced g size s v i
  step-IsBalanced s (puts i) v =
      puts-IsBalanced g size s v (pick i s.held) (pick-PickedFrom size i s.held)
  step-IsBalanced s (drops i) v =
      drops-IsBalanced g size s v (pick i s.buffers.pool) (pick-PickedFrom size i s.buffers.pool)
  step-IsBalanced s (writes i p) v =
      writes-IsBalanced g size s v p (pick i s.held) (pick-PickedFrom size i s.held)

  run-IsBalanced : (s : System) (ops : List Op) → IsBalanced size s → IsBalanced size (run g s ops)
  unfolding run
  run-IsBalanced s [] v = v
  run-IsBalanced s (op ∷ ops) v = run-IsBalanced (step g s op) ops (step-IsBalanced s op v)

  start-IsBalanced : IsBalanced size (start size)
  unfolding new_buffer_pool
  start-IsBalanced = record { same_size = refl; counted = omega arith; pooled = tt }

  -- If the users of a pool write only to buffers that they hold, and give back each buffer at most
  -- once and do not touch it afterwards, then, whatever they got, wrote and gave back in whichever
  -- order, and whatever the garbage collector dropped, the next Get hands out an empty buffer whose
  -- capacity is at least the pool's size and at most four times it, and so large at most is every
  -- buffer that the pool keeps.
  pub get-run :
      (ops : List Op) (i : ℕ)
      → let s = run g (start size) ops in
        let b = (get i s.buffers).0 in
        (b.bytes ≡ [])
        × (size ≤ b.cap)
        × (b.cap ≤ size * oversized_buffer_multiplier)
        × ArePooled size s.buffers.pool
  get-run ops i =
      let v = run-IsBalanced (start size) ops start-IsBalanced in
      let (a, b, c) = got g size (run g (start size) ops) v i in (a, b, c, v.pooled)

  -- If fewer than 2^64 buffers are out, then Cleanup warns exactly if some buffer was taken and not
  -- given back.
  pub cleanup-run :
      (ops : List Op)
      → length (run g (start size) ops).held < 2 ^ 64
      → (cleanup (run g (start size) ops).buffers ≡ false) ↔ ((run g (start size) ops).held ≡ [])
  unfolding cleanup
  cleanup-run ops few =
      let v = run-IsBalanced (start size) ops start-IsBalanced in
      (
        λ e. length_zero _ (ground (arith, v.counted, few, e)),
        λ e. ground (arith, v.counted, ap length e),
      )
