-- ===== src/Sessions.antt =====
-- The sessions of work/users/session.go. The rows of kp_sessions are the state; its key is the hash
-- of the raw session id, an argument. Times are in nanoseconds, and expires_at is in seconds. The
-- statements work; an INSERT for a hash that is taken is the error of a primary key.
pub mod Thin
pub mod Refine
mod Tests
use kptv_proxy.Prelude.{
  ℕ, ◌+◌, ◌*◌, ◌/◌, Bool, true, false, Option, none, some, List, [], ◌∷◌, ◌++◌, ltb, leb, ◌==◌,
  if◌then◌else◌,
}
use kptv_proxy.Text.{Text, text_eq}

abbrev pub second : ℕ
second = 1000000000

-- In seconds.
abbrev pub session_ttl : ℕ
session_ttl = 24 * 3600

abbrev pub session_ttl_extended : ℕ
session_ttl_extended = 30 * 24 * 3600

pub record Row : Type 0 where
  pub id_hash : Text
  pub user_id : ℕ
  pub username : Text
  pub name : Text
  pub expires_at : ℕ

-- The row of a hash.
unfoldable pub find_row : Text → List Row → Option Row
find_row h [] = none
find_row h (r ∷ rows) = if text_eq r.id_hash h then some r else find_row h rows

-- DELETE of the rows that a test chooses.
unfoldable pub delete_where : (Row → Bool) → List Row → List Row
delete_where chosen [] = []
delete_where chosen (r ∷ rows) =
    let rest = delete_where chosen rows in if chosen r then rest else r ∷ rest

-- An INSERT, for a hash that is found or not.
abbrev pub insert_row : Option Row → Row → List Row → Option (List Row)
insert_row none r rows = some (rows ++ r ∷ [])
insert_row (some s) r rows = none

module _ (hash : Text → Text) where
  -- `raw` is what the generator of ids gives.
  abbrev pub new_row : Text → ℕ → Text → Text → Bool → ℕ → Row
  new_row raw user_id username name remember_me now = record {
    id_hash = hash raw;
    user_id = user_id;
    username = username;
    name = name;
    expires_at =
        (now + (if remember_me then session_ttl_extended else session_ttl) * second) / second;
  }

  unfoldable pub create_session : List Row → Text → ℕ → Text → Text → Bool → ℕ → Option (List Row)
  create_session rows raw user_id username name remember_me now =
      insert_row (find_row (hash raw) rows) (new_row raw user_id username name remember_me now) rows

  unfoldable pub delete_session : List Row → Text → List Row
  delete_session rows raw = delete_where (λ r. text_eq r.id_hash (hash raw)) rows

  -- An expired row is deleted on read.
  abbrev pub read_row : List Row → Text → ℕ → Option Row → List Row × Option Row
  read_row rows raw now none = (rows, none)
  read_row rows raw now (some r) =
      if ltb (r.expires_at * second) now then (delete_session rows raw, none) else (rows, some r)

  unfoldable pub get_session : List Row → Text → ℕ → List Row × Option Row
  get_session rows raw now = read_row rows raw now (find_row (hash raw) rows)

unfoldable pub delete_sessions_for_user : List Row → ℕ → List Row
delete_sessions_for_user rows user_id = delete_where (λ r. r.user_id == user_id) rows

-- One tick of sessionCleanup.
unfoldable pub session_cleanup : List Row → ℕ → List Row
session_cleanup rows now = delete_where (λ r. leb r.expires_at (now / second)) rows
