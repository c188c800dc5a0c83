-- ===== src/Overrides.antt =====
-- Dead streams: work/deadstreams/deadstreams.go over work/db/overrides.go. The table and the snapshot
-- of it in memory are the state. What SQLite answers is an argument of a call: a statement that
-- fails changes nothing. One call runs at a time. An order of -1 is `none`; other orders below 0 are
-- never written.
pub mod Rows
pub mod Calls
pub mod Snapshot
pub mod Preserve
pub mod Mirror
pub mod Written
mod Tests
use kptv_proxy.Prelude.{
  ℕ, ◌≡◌, Bool, true, false, ◌&&◌, ◌||◌, not, Option, none, some, List, [], ◌∷◌, ◌++◌,
  if◌then◌else◌, ◌==◌,
}
use kptv_proxy.Text.{Text, codes, text_eq}
use kptv_proxy.Text.Maps.{TextMap, lookup, insert, delete}

abbrev pub status_alive : ℕ
status_alive = 0

abbrev pub status_dead_manual : ℕ
status_dead_manual = 2

abbrev pub status_dead_auto : ℕ
status_dead_auto = 3

pub record StreamOverride : Type 0 where
  pub hash : Text
  pub s_status : ℕ
  pub s_order : Option ℕ
  pub dead_reason : Text

-- A row of kp_stream_overrides: the channel, and the other columns.
abbrev pub Row : Type 0
Row = Text × StreamOverride

abbrev pub Table : Type 0
Table = List Row

unfoldable pub override_key : Text → Text → Text
override_key channel_name hash = channel_name ++ (0 ∷ hash)

-- WHERE channel = ? AND s_hash = ?
abbrev pub same_pair : Text → Text → Text → Text → Bool
same_pair channel_name hash other_channel other_hash =
    text_eq channel_name other_channel && text_eq hash other_hash

abbrev pub is_at : Text → Text → Row → Bool
is_at channel_name hash (c, o) = same_pair c o.hash channel_name hash

-- GetStreamOverride.
unfoldable pub get_stream_override : Table → Text → Text → Option StreamOverride
get_stream_override [] channel_name hash = none
get_stream_override (row ∷ t) channel_name hash =
    if is_at channel_name hash row then some row.1 else get_stream_override t channel_name hash

-- The rows by their keys, in the loop of GetAllStreamOverrides.
unfoldable pub index_rows : TextMap StreamOverride → Table → TextMap StreamOverride
index_rows out [] = out
index_rows out ((c, o) ∷ t) = index_rows (insert (override_key c o.hash) o out) t

abbrev pub with_status : ℕ → Text → StreamOverride → StreamOverride
with_status status reason o = record o { s_status = status; dead_reason = reason }

abbrev pub no_override : Text → StreamOverride
no_override hash = record { hash = hash; s_status = status_alive; s_order = none; dead_reason = [] }

-- The statement of SetStreamDead: insert a row, or update the one in conflict.
unfoldable pub upsert_dead : Table → Text → Text → Text → ℕ → Table
upsert_dead [] channel_name hash reason status =
    (channel_name, with_status status reason (no_override hash)) ∷ []
upsert_dead ((c, o) ∷ t) channel_name hash reason status =
    if same_pair c o.hash channel_name hash
    then (c, with_status status reason o) ∷ t
    else (c, o) ∷ upsert_dead t channel_name hash reason status

abbrev pub has_order : StreamOverride → Bool
has_order o = elim o.s_order [ none ↦ false | some n ↦ true ]

-- The two statements of SetStreamAlive.
unfoldable pub delete_alive : Table → Text → Text → Table
delete_alive [] channel_name hash = []
delete_alive ((c, o) ∷ t) channel_name hash =
    let rest = delete_alive t channel_name hash in
    if same_pair c o.hash channel_name hash && not (has_order o) then rest else (c, o) ∷ rest

unfoldable pub clear_status : Table → Text → Text → Table
clear_status [] channel_name hash = []
clear_status ((c, o) ∷ t) channel_name hash =
    let rest = clear_status t channel_name hash in
    if same_pair c o.hash channel_name hash
    then (c, with_status status_alive [] o) ∷ rest
    else (c, o) ∷ rest

-- What the database answers during one call: whether the first statement, the second one, and the
-- loads of the table work.
pub record Answers : Type 0 where
  pub first : Bool
  pub second : Bool
  pub loads : Bool
  pub reloads : Bool

-- The new table, and whether there was no error.
unfoldable pub set_stream_dead : Answers → Table → Text → Text → Text → ℕ → Table × Bool
set_stream_dead a t channel_name hash reason status =
    if a.first then (upsert_dead t channel_name hash reason status, true) else (t, false)

unfoldable pub set_stream_alive : Answers → Table → Text → Text → Table × Bool
set_stream_alive a t channel_name hash =
    let deleted = delete_alive t channel_name hash in
    if not a.first
    then (t, false)
    else if not a.second
    then (deleted, false)
    else (clear_status deleted channel_name hash, true)

pub record Store : Type 0 where
  pub table : Table
  pub cache : Option (TextMap StreamOverride)

-- overrides: the snapshot, loaded if there is none; a load that fails leaves an empty map.
abbrev pub load : Bool → Table → Option (TextMap StreamOverride) → TextMap StreamOverride × Store
load loads t (some m) = (m, record { table = t; cache = some m })
load true t none = let m = index_rows [] t in (m, record { table = t; cache = some m })
load false t none = ([], record { table = t; cache = none })

unfoldable pub overrides : Bool → Store → TextMap StreamOverride × Store
overrides loads st = load loads st.table st.cache

unfoldable pub replace_override : Bool → Store → Text → StreamOverride → Bool → Store
replace_override loads st key o remove =
    let (cur, st') = overrides loads st in
    record st' { cache = some (if remove then delete key cur else insert key o cur) }

abbrev pub is_dead : Option StreamOverride → Bool
is_dead none = false
is_dead (some o) = (o.s_status == status_dead_manual) || (o.s_status == status_dead_auto)

abbrev pub reason_of : Option StreamOverride → Text
reason_of none = []
reason_of (some o) = o.dead_reason

unfoldable pub is_stream_dead : Answers → Store → Text → Text → Store × Bool
is_stream_dead a st channel_name hash =
    let (m, st') = overrides a.loads st in
    (st', is_dead (lookup (override_key channel_name hash) m))

unfoldable pub get_dead_stream_reason : Answers → Store → Text → Text → Store × Text
get_dead_stream_reason a st channel_name hash =
    let (m, st') = overrides a.loads st in
    (st', reason_of (lookup (override_key channel_name hash) m))

abbrev pub dead_status : Text → ℕ
dead_status reason =
    if text_eq reason (codes "manual") then status_dead_manual else status_dead_auto

abbrev pub or_fresh : Text → Option StreamOverride → StreamOverride
or_fresh hash none = no_override hash
or_fresh hash (some o) = o

unfoldable pub mark_stream_dead_by_hash : Answers → Store → Text → Text → Text → Store × Bool
mark_stream_dead_by_hash a st channel_name hash reason =
    let status = dead_status reason in
    let (t, done) = set_stream_dead a st.table channel_name hash reason status in
    let key = override_key channel_name hash in
    let (m, st') = overrides a.loads (record st { table = t }) in
    let o = with_status status reason (or_fresh hash (lookup key m)) in
    if not done
    then (record st { table = t }, false)
    else (replace_override a.reloads st' key o false, true)

-- The last step of ReviveStream, from the entry in the snapshot.
abbrev pub revive_entry : Bool → Store → Text → Option StreamOverride → Store
revive_entry reloads st key none = replace_override reloads st key (no_override []) true
revive_entry reloads st key (some o) =
    if has_order o
    then replace_override reloads st key (with_status status_alive [] o) false
    else replace_override reloads st key (no_override []) true

unfoldable pub revive_stream : Answers → Store → Text → Text → Store × Bool
revive_stream a st channel_name hash =
    let (t, done) = set_stream_alive a st.table channel_name hash in
    let key = override_key channel_name hash in
    let (m, st') = overrides a.loads (record st { table = t }) in
    if not done
    then (record st { table = t }, false)
    else (revive_entry a.reloads st' key (lookup key m), true)
