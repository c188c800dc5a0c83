-- ===== src/Ring/Refine.antt =====
-- The buffer against its log, over sequences of calls.
use kptv_proxy.Prelude.{
  ℕ, ◌+◌, ◌^◌, ◌<◌, ◌≤◌, ◌≡◌, refl, true, Option, none, some, List, [], ◌∷◌, length,
  length-replicate, length-append, replicate, arith,
}
use kptv_proxy.Ring.{
  RingBuffer, Peeked, nil, bytes, new_ring_buffer, destroy, destroy_mark, destroy_section,
  reset_section, get_write_position, peek_recent_data, peek_section, is_nil,
}
use kptv_proxy.Ring
use kptv_proxy.Ring.Window.{Holds, Represents}
use kptv_proxy.Ring.Append.{write-Holds, after, stored_after}
use kptv_proxy.Ring.Peek.{peek_section-bytes}
use kptv_proxy.Ring.Log.{
  Op, write, reset, peek, position, Log, Reply, done, peeked, at, recent, written, last,
}
use kptv_proxy.Ring.Log

-- `none` for a call that panics while it writes.
unfoldable pub step : RingBuffer → Op → Option (RingBuffer × Reply)
step rb (write bs) = elim (Ring.write rb bs) [ none ↦ none | some rb' ↦ some (rb', done) ]
step rb reset = some (Ring.reset rb, done)
step rb Op.destroy = some (destroy rb, done)
step rb (peek n) = some (rb, peeked (peek_recent_data rb n))
step rb position = some (rb, at (get_write_position rb))

unfoldable pub run : RingBuffer → List Op → Option (List Reply)
unfolding step
run rb [] = some []
run rb (op ∷ ops) = elim (step rb op) [
  | none ↦ none
  | some (rb', r) ↦ elim (run rb' ops) [ none ↦ none | some rs ↦ some (r ∷ rs) ]
]

-- A buffer of capacity `size` that stands for a log.
abbrev pub Matches : ℕ → RingBuffer → Log → Type 0
Matches size rb none = rb.destroyed ≡ true
Matches size rb (some h) = (rb.size ≡ size) × Represents rb h

pub new-Holds : (size : ℕ) → Holds (new_ring_buffer size) (replicate size 0) []
unfolding new_ring_buffer
new-Holds size = record {
  live = refl;
  stored = refl;
  full = length-replicate {A = ℕ} size 0;
  at_end = refl;
  window = λ j p q. elim p [ ];
}

pub peek-Holds :
    {rb : RingBuffer} {store : List ℕ} (h : List ℕ) (n : ℕ)
    → Holds rb store h
    → 0 < rb.size
    → length h < 2 ^ 63
    → peek_section rb n ≡ recent rb.size n h
unfolding recent peek_section
peek-Holds [] n v pos small = ground (arith, v.live, v.at_end)
peek-Holds (x ∷ h) n v pos small = peek_section-bytes {h = x ∷ h} n v pos (omega arith) small

-- One call on a buffer that stands for a log: it returns what the log returns, and goes on standing
-- for it.
abbrev Steps : ℕ → RingBuffer → Log → Op → Type 0
Steps size rb l op =
    (rb' : RingBuffer) × (step rb op ≡ some (rb', (Log.step size l op).1))
    × Matches size rb' (Log.step size l op).0

abbrev bytes_in : Log → ℕ
bytes_in none = 0
bytes_in (some h) = length h

write_destroyed : (rb : RingBuffer) (bs : List ℕ) → rb.destroyed ≡ true → Ring.write rb bs ≡ some rb
unfolding Ring.write
write_destroyed rb bs e = ground arith

step-Steps :
    (size : ℕ) (rb : RingBuffer) (l : Log) (op : Op)
    → 0 < size
    → bytes_in l + written (op ∷ []) < 2 ^ 63
    → Matches size rb l
    → Steps size rb l op
unfolding step Log.step Ring.reset reset_section destroy destroy_mark destroy_section
    get_write_position peek_recent_data
step-Steps size rb none (write bs) pos small m = (rb, rw (write_destroyed rb bs m, step), m)
step-Steps size rb none reset pos small m = (rb, ground arith, m)
step-Steps size rb none Op.destroy pos small m = (rb, ground arith, m)
step-Steps size rb none (peek n) pos small m = (rb, ground arith, m)
step-Steps size rb none position pos small m = (rb, ground arith, m)
step-Steps size rb (some h) (write bs) pos small (e, (store, v)) =
    let w = write-Holds bs v (omega arith) (omega arith) in
    (after bs v, rw (w.0, step), (e, (stored_after bs v, w.2)))
step-Steps size rb (some h) reset pos small (e, (store, v)) = (
  record rb { write_pos = 0 },
  ground (arith, v.live),
  (
    e,
    (
      store,
      record {
        live = v.live;
        stored = v.stored;
        full = v.full;
        at_end = refl;
        window = λ j p q. elim p [ ];
      },
    ),
  ),
)
step-Steps size rb (some h) Op.destroy pos small (e, (store, v)) =
    (destroy_section (destroy_mark rb), ground (arith, v.live), refl)
step-Steps size rb (some h) (peek n) pos small (e, (store, v)) =
    (rb, ground (arith, v.live, v.stored, e, peek-Holds h n v (omega arith)), (e, (store, v)))
step-Steps size rb (some h) position pos small (e, (store, v)) =
    (rb, ground (arith, v.live, v.at_end), (e, (store, v)))

bytes_in-step :
    (size : ℕ) (l : Log) (op : Op)
    → bytes_in (Log.step size l op).0 ≤ bytes_in l + written (op ∷ [])
unfolding Log.step
bytes_in-step size none (write bs) = omega arith
bytes_in-step size none reset = omega arith
bytes_in-step size none Op.destroy = omega arith
bytes_in-step size none (peek n) = omega arith
bytes_in-step size none position = omega arith
bytes_in-step size (some h) (write bs) = omega (arith, length-append h bs)
bytes_in-step size (some h) reset = omega arith
bytes_in-step size (some h) Op.destroy = omega arith
bytes_in-step size (some h) (peek n) = omega arith
bytes_in-step size (some h) position = omega arith

written_cons : (op : Op) (ops : List Op) → written (op ∷ ops) ≡ written (op ∷ []) + written ops
written_cons (write bs) ops = omega arith
written_cons reset ops = omega arith
written_cons Op.destroy ops = omega arith
written_cons (peek n) ops = omega arith
written_cons position ops = omega arith

run-Matches :
    (size : ℕ) (rb : RingBuffer) (l : Log) (ops : List Op)
    → 0 < size
    → bytes_in l + written ops < 2 ^ 63
    → Matches size rb l
    → run rb ops ≡ some (Log.run size l ops)
unfolding run Log.run
run-Matches size rb l [] pos small m = refl
run-Matches size rb l (op ∷ ops) pos small m =
    let (rb', e, m') = step-Steps size rb l op pos (omega (arith, written_cons op ops)) m in
    rw (
      e,
      run,
      run-Matches size rb' (Log.step size l op).0 ops pos
          (omega (arith, written_cons op ops, bytes_in-step size l op)) m',
    )

-- Whatever calls a client makes on a new buffer of a capacity above 0, writing fewer than 2^63
-- bytes in all, no write panics and every call returns what the log returns: a peek the newest
-- bytes written since the last reset, in order and at most `size` of them, and nil if there are
-- none or after a destroy; a write position the number of those bytes, and 0 after a destroy.
pub run_refines :
    (size : ℕ) (ops : List Op)
    → 0 < size
    → written ops < 2 ^ 63
    → run (new_ring_buffer size) ops ≡ some (Log.run size (some []) ops)
run_refines size ops pos small =
    run-Matches size (new_ring_buffer size) (some []) ops pos (omega arith)
      (unfold new_ring_buffer in (refl, (replicate size 0, new-Holds size)))
