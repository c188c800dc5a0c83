-- ===== src/Ring/Log.antt =====
-- What an observer of the buffer may rely on: a log of the bytes written since the last reset, of
-- which the newest can be read, up to the capacity, until the buffer is destroyed.
use kptv_proxy.Prelude.{ℕ, ◌+◌, ◌-◌, min, Option, none, some, List, [], ◌∷◌, ◌++◌, length, drop}
use kptv_proxy.Ring.{Peeked, nil, bytes}

-- The calls of a client, with what each of them returns.
pub data Op : Type 0 where
  write : List ℕ → Op
  reset destroy : Op
  peek : ℕ → Op
  position : Op

pub data Reply : Type 0 where
  done : Reply
  peeked : Peeked → Reply
  at : ℕ → Reply

-- The newest `n` bytes.
abbrev pub last : ℕ → List ℕ → List ℕ
last n h = drop (length h - n) h

-- `none` once destroyed.
abbrev pub Log : Type 0
Log = Option (List ℕ)

module _ (size : ℕ) where
  unfoldable pub recent : ℕ → List ℕ → Peeked
  recent n [] = nil
  recent n (x ∷ h) = bytes (last (min n (min (length (x ∷ h)) size)) (x ∷ h))

  unfoldable pub step : Log → Op → Log × Reply
  unfolding recent
  step none (write bs) = (none, done)
  step none reset = (none, done)
  step none destroy = (none, done)
  step none (peek n) = (none, peeked nil)
  step none position = (none, at 0)
  step (some h) (write bs) = (some (h ++ bs), done)
  step (some h) reset = (some [], done)
  step (some h) destroy = (none, done)
  step (some h) (peek n) = (some h, peeked (recent n h))
  step (some h) position = (some h, at (length h))

  unfoldable pub run : Log → List Op → List Reply
  unfolding step
  run l [] = []
  run l (op ∷ ops) = let (l', r) = step l op in r ∷ run l' ops

-- How many bytes a client writes.
abbrev pub written : List Op → ℕ
written [] = 0
written (write bs ∷ ops) = length bs + written ops
written (reset ∷ ops) = written ops
written (destroy ∷ ops) = written ops
written (peek n ∷ ops) = written ops
written (position ∷ ops) = written ops
