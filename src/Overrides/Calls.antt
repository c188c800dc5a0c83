-- ===== src/Overrides/Calls.antt =====
-- Sequences of calls on the overrides, with the snapshot and on the table alone.
use kptv_proxy.Prelude.{◌≡◌, Bool, true, List, [], ◌∷◌}
use kptv_proxy.Text.{Text}
use kptv_proxy.Overrides.{
  Table, Store, Answers, get_stream_override, dead_status, set_stream_dead, set_stream_alive,
  is_dead, reason_of, is_stream_dead, get_dead_stream_reason, mark_stream_dead_by_hash,
  revive_stream,
}
use kptv_proxy.Overrides.Rows.{HasNoNul}

pub data Call : Type 0 where
  mark : Answers → Text → Text → Text → Call
  revive ask why : Answers → Text → Text → Call

pub data Reply : Type 0 where
  wrote dead : Bool → Reply
  reason : Text → Reply

-- The code, with its snapshot.
unfoldable pub step : Store → Call → Store × Reply
step st (mark a c h r) = let (st', b) = mark_stream_dead_by_hash a st c h r in (st', wrote b)
step st (revive a c h) = let (st', b) = revive_stream a st c h in (st', wrote b)
step st (ask a c h) = let (st', b) = is_stream_dead a st c h in (st', dead b)
step st (why a c h) = let (st', r) = get_dead_stream_reason a st c h in (st', reason r)

-- The table alone: writes are the statements, and a read asks GetStreamOverride.
unfoldable pub step_table : Table → Call → Table × Reply
step_table t (mark a c h r) =
    let (t', b) = set_stream_dead a t c h r (dead_status r) in (t', wrote b)
step_table t (revive a c h) = let (t', b) = set_stream_alive a t c h in (t', wrote b)
step_table t (ask a c h) = (t, dead (is_dead (get_stream_override t c h)))
step_table t (why a c h) = (t, reason (reason_of (get_stream_override t c h)))

unfoldable pub run : Store → List Call → List Reply
run st [] = []
run st (call ∷ calls) = let (st', r) = step st call in r ∷ run st' calls

unfoldable pub run_table : Table → List Call → List Reply
run_table t [] = []
run_table t (call ∷ calls) = let (t', r) = step_table t call in r ∷ run_table t' calls

-- The table can be read, and SetStreamAlive does not fail between its two statements.
pub record IsSteady (a : Answers) : Type 0 where
  pub loads : a.loads ≡ true
  pub reloads : a.reloads ≡ true
  pub whole : a.first ≡ true → a.second ≡ true

abbrev pub IsUsual : Call → Type 0
IsUsual (mark a c h r) = IsSteady a × HasNoNul c
IsUsual (revive a c h) = IsSteady a × HasNoNul c
IsUsual (ask a c h) = IsSteady a × HasNoNul c
IsUsual (why a c h) = IsSteady a × HasNoNul c

abbrev pub AreUsual : List Call → Type 0
AreUsual [] = Unit {0}
AreUsual (call ∷ calls) = IsUsual call × AreUsual calls
