-- ===== src/Pool.antt =====
-- ByteBuffer and BufferPool of work/buffer/buffer.go. A buffer is its bytes and its capacity. How far
-- append grows a slice is a parameter, and so is what sync.Pool hands out: any pooled buffer, or a
-- new one.
pub mod Users
pub mod Balance
mod Tests
use kptv_proxy.Prelude.{
  ℕ, zero, suc, ◌+◌, ◌*◌, ◌^◌, ◌%◌, ◌-◌, ◌≡◌, ◌≤◌, Bool, true, false, not, Option, none, some, List,
  [], ◌∷◌, ◌++◌, length, ltb, leb, if◌then◌else◌, ◌==◌,
}
use kptv_proxy.Ring.{add64}

pub record ByteBuffer : Type 0 where
  pub bytes : List ℕ
  pub cap : ℕ

-- The capacity that append gives a slice that is too short, for the length asked.
pub record Growth : Type 0 where
  pub grow : ℕ → ℕ → ℕ
  pub enough : (cap len : ℕ) → len ≤ grow cap len

unfoldable pub reset : ByteBuffer → ByteBuffer
reset b = record b { bytes = [] }

unfoldable pub len : ByteBuffer → ℕ
len b = length b.bytes

-- Write returns the number of bytes and a nil error.
unfoldable pub write : Growth → ByteBuffer → List ℕ → ByteBuffer × ℕ
write g b p =
    let bytes = b.bytes ++ p in
    (
      record {
        bytes = bytes;
        cap = if leb (length bytes) b.cap then b.cap else g.grow b.cap (length bytes);
      },
      length p,
    )

-- `outstanding` is the bit pattern of an int64.
pub record BufferPool : Type 0 where
  pub pool : List ByteBuffer
  pub buffer_size : ℕ
  pub outstanding : ℕ

abbrev pub oversized_buffer_multiplier : ℕ
oversized_buffer_multiplier = 4

abbrev pub fresh : ℕ → ByteBuffer
fresh size = record { bytes = []; cap = size }

unfoldable pub new_buffer_pool : ℕ → BufferPool
new_buffer_pool size = record { pool = []; buffer_size = size; outstanding = 0 }

-- An element taken out of a list, by its place.
unfoldable pub pick {ℓ} : {A : Type ℓ} → ℕ → List A → Option (A × List A)
pick i [] = none
pick zero (x ∷ xs) = some (x, xs)
pick (suc i) (x ∷ xs) = elim (pick i xs) [ none ↦ none | some (y, ys) ↦ some (y, x ∷ ys) ]

-- sync.Pool's Get, at a choice: a pooled buffer, or what New makes.
abbrev pub take_pooled :
    ℕ → List ByteBuffer → Option (ByteBuffer × List ByteBuffer) → ByteBuffer × List ByteBuffer
take_pooled size all none = (fresh size, all)
take_pooled size all (some (b, rest)) = (b, rest)

unfoldable pub get : ℕ → BufferPool → ByteBuffer × BufferPool
unfolding reset
get choice bp =
    let (b, rest) = take_pooled bp.buffer_size bp.pool (pick choice bp.pool) in
    let buf = reset b in
    let ready : ByteBuffer = if ltb buf.cap bp.buffer_size then fresh bp.buffer_size else buf in
    (ready, record bp { pool = rest; outstanding = add64 bp.outstanding 1 })

-- Put; nil is not a buffer here.
unfoldable pub put : BufferPool → ByteBuffer → BufferPool
put bp buf =
    let counted : BufferPool = record bp { outstanding = add64 bp.outstanding (2 ^ 64 - 1) } in
    if ltb (bp.buffer_size * oversized_buffer_multiplier) buf.cap
    then counted
    else record counted { pool = record buf { bytes = [] } ∷ bp.pool }

-- Whether Cleanup warns.
unfoldable pub cleanup : BufferPool → Bool
cleanup bp = not (bp.outstanding == 0)
