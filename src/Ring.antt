-- ===== src/Ring.antt =====
-- RingBuffer of work/buffer/buffer.go, the byte ring between one upstream reader and its observers.
-- A method that takes the lock has its locked section as a function of its own, since Destroy raises
-- the flag without the lock, so another goroutine's section can run between its two halves.
-- `none` and `panic` stand for a run-time panic: a remainder by zero or a slice out of range.
mod Copy
mod Window
mod Write
pub mod Append
mod Peek
pub mod Log
pub mod Refine
pub mod Sections
mod Tests
use kptv_proxy.Prelude.{
  ℕ, zero, suc, ◌+◌, ◌-◌, ◌%◌, ◌^◌, min, Bool, true, false, ◌&&◌, ◌||◌, Option, none, some, List,
  [], ◌∷◌, length, drop, take, replicate, ltb, leb, ◌==◌, if◌then◌else◌,
}

-- `data` is nil once the buffer is released. `write_pos` is the bit pattern of an int64.
pub record RingBuffer : Type 0 where
  pub buf : Option (List ℕ)
  pub size : ℕ
  pub write_pos : ℕ
  pub destroyed : Bool

-- What PeekRecentData returns: nil, or a copy of some bytes.
pub data Peeked : Type 0 where
  panic nil : Peeked
  bytes : List ℕ → Peeked

abbrev pub add64 : ℕ → ℕ → ℕ
add64 a b = (a + b) % 2 ^ 64

-- The index `pos % size` of an int64 `pos`. A remainder below zero is no index.
pub slot : ℕ → ℕ → Option ℕ
slot pos size =
    if size == 0
    then none
    else if ltb pos (2 ^ 63)
    then some (pos % size)
    else if (2 ^ 64 - pos) % size == 0
    then some 0
    else none

-- The builtin copy, to the start of `dst` and to `dst[i:]`; `i` is at most the length.
pub copy_into : List ℕ → List ℕ → List ℕ
copy_into [] src = []
copy_into (x ∷ dst) [] = x ∷ dst
copy_into (x ∷ dst) (y ∷ src) = y ∷ copy_into dst src

pub copy_at : ℕ → List ℕ → List ℕ → List ℕ
unfolding copy_into
copy_at zero dst src = copy_into dst src
copy_at (suc i) [] src = []
copy_at (suc i) (x ∷ dst) src = x ∷ copy_at i dst src

pub new_ring_buffer : ℕ → RingBuffer
new_ring_buffer size = record {
  buf = some (replicate size 0);
  size = size;
  write_pos = 0;
  destroyed = false;
}

-- Of a write longer than the buffer only the last `size` bytes are kept.
pub trim : ℕ → List ℕ → List ℕ
trim size bs = if ltb size (length bs) then drop (length bs - size) bs else bs

-- The two copies of Write, from index `i` on and then from the start.
pub copy_round : List ℕ → ℕ → List ℕ → List ℕ
copy_round store i bs =
    let n = min (length store - i) (length bs) in
    let first = copy_at i store bs in
    if ltb n (length bs) then copy_at 0 first (drop n bs) else first

pub write_store : RingBuffer → List ℕ → List ℕ → Option RingBuffer
write_store rb store bs =
    let kept = trim rb.size bs in
    elim (slot (add64 rb.write_pos (length bs - length kept)) rb.size) [
      | none ↦ none
      | some i ↦
          if ltb (length store) i
          then none
          else some (record rb {
            buf = some (copy_round store i kept);
            write_pos = add64 rb.write_pos (length bs);
          })
    ]

-- Write from its lock on.
pub write_section : RingBuffer → List ℕ → Option RingBuffer
write_section rb bs =
    if rb.destroyed
    then some rb
    else elim rb.buf [ none ↦ some rb | some store ↦ write_store rb store bs ]

pub write : RingBuffer → List ℕ → Option RingBuffer
write rb bs = if rb.destroyed then some rb else write_section rb bs

pub reset_section : RingBuffer → RingBuffer
reset_section rb = if rb.destroyed then rb else record rb { write_pos = 0 }

pub reset : RingBuffer → RingBuffer
reset rb = if rb.destroyed then rb else reset_section rb

-- Destroy: the compare-and-swap of the flag, and then the locked section that frees the storage.
pub destroy_mark : RingBuffer → RingBuffer
destroy_mark rb = record rb { destroyed = true }

pub destroy_section : RingBuffer → RingBuffer
destroy_section rb = record rb { buf = none; write_pos = 0 }

pub destroy : RingBuffer → RingBuffer
destroy rb = if rb.destroyed then rb else destroy_section (destroy_mark rb)

pub is_destroyed : RingBuffer → Bool
is_destroyed rb = rb.destroyed

pub get_write_position : RingBuffer → ℕ
get_write_position rb = if rb.destroyed then 0 else rb.write_pos

-- The storage for reading: a nil slice has length 0.
pub store_of : Option (List ℕ) → List ℕ
store_of none = []
store_of (some store) = store

-- The two copies of PeekRecentData into a new slice of `n` bytes.
pub gather : List ℕ → ℕ → ℕ → ℕ → List ℕ
gather store start first n =
    let result = copy_at 0 (replicate n 0) (take first (drop start store)) in
    if ltb first n then copy_at first result (take (n - first) store) else result

pub peek_from : RingBuffer → ℕ → ℕ → Peeked
unfolding store_of
peek_from rb n start =
    let store = store_of rb.buf in
    let first = min (rb.size - start) n in
    if leb (start + first) (length store) && leb (n - first) (length store)
    then bytes (gather store start first n)
    else panic

-- PeekRecentData from its lock on. At a negative position the slice to return has a negative length.
pub peek_section : RingBuffer → ℕ → Peeked
peek_section rb max_bytes =
    let n = min max_bytes (min rb.write_pos rb.size) in
    if rb.destroyed
    then nil
    else if rb.write_pos == 0
    then nil
    else if ltb rb.write_pos (2 ^ 63)
    then elim (slot (rb.write_pos - n) rb.size) [ none ↦ panic | some start ↦ peek_from rb n start ]
    else panic

pub is_nil : Option (List ℕ) → Bool
is_nil none = true
is_nil (some store) = false

-- The source's int64 is a natural number here: the two callers, of watcher/watcher.go and
-- restream/stats.go, pass positive constants. A negative one would make `make` panic.
pub peek_recent_data : RingBuffer → ℕ → Peeked
unfolding is_nil
peek_recent_data rb max_bytes =
    if rb.destroyed || is_nil rb.buf then nil else peek_section rb max_bytes
