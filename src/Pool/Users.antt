-- ===== src/Pool/Users.antt =====
-- The users of a pool: sequences of Get, writes, Put and what the garbage collector drops. A user
-- keeps to the contract of a pool: it writes to a buffer and puts it back while it holds it, and a
-- buffer that was put back is no longer its own. Put itself does not enforce that.
use kptv_proxy.Prelude.{ℕ, Option, none, some, List, [], ◌∷◌}
use kptv_proxy.Pool.{Growth, ByteBuffer, BufferPool, write, new_buffer_pool, pick, get, put}

-- The pool, and the buffers that are out.
pub record System : Type 0 where
  pub buffers : BufferPool
  pub held : List ByteBuffer

-- A number picks a pooled buffer, or one of those that are out.
pub data Op : Type 0 where
  gets puts drops : ℕ → Op
  writes : ℕ → List ℕ → Op

abbrev pub start : ℕ → System
start size = record { buffers = new_buffer_pool size; held = [] }

module _ (g : Growth) where
  abbrev pub put_back : System → Option (ByteBuffer × List ByteBuffer) → System
  put_back s none = s
  put_back s (some (b, rest)) = record { buffers = put s.buffers b; held = rest }

  abbrev pub write_to : System → List ℕ → Option (ByteBuffer × List ByteBuffer) → System
  write_to s p none = s
  write_to s p (some (b, rest)) = record s { held = (write g b p).0 ∷ rest }

  abbrev pub drop_pooled : System → Option (ByteBuffer × List ByteBuffer) → System
  drop_pooled s none = s
  drop_pooled s (some (b, rest)) = record s { buffers = record (s.buffers) { pool = rest } }

  unfoldable pub step : System → Op → System
  step s (gets i) = let (b, bp) = get i s.buffers in record { buffers = bp; held = b ∷ s.held }
  step s (puts i) = put_back s (pick i s.held)
  step s (drops i) = drop_pooled s (pick i s.buffers.pool)
  step s (writes i p) = write_to s p (pick i s.held)

  unfoldable pub run : System → List Op → System
  run s [] = s
  run s (op ∷ ops) = run (step s op) ops
