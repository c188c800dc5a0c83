-- ===== src/Overrides/Tests.antt =====
-- Calls on the overrides: a run, what a load that fails costs, and the theorems at concrete tables.
use kptv_proxy.Prelude.{◌≡◌, refl, true, false, none, some, List, [], ◌∷◌, if◌then◌else◌}
use kptv_proxy.Text.{codes, text_eq}
use kptv_proxy.Text.Maps.{lookup, insert, delete}
use kptv_proxy.Overrides.{
  Answers, Table, get_stream_override, override_key, index_rows, upsert_dead, delete_alive,
  clear_status, set_stream_dead, set_stream_alive, overrides, replace_override, is_stream_dead,
  get_dead_stream_reason, mark_stream_dead_by_hash, revive_stream, is_dead, reason_of, dead_status,
  same_pair,
}
use kptv_proxy.Overrides.Calls.{
  Call, mark, revive, ask, why, wrote, dead, reason, step, run, run_table, IsSteady,
}
use kptv_proxy.Overrides.Rows.{HasNoNul, IsSound}
use kptv_proxy.Overrides.Mirror.{run_mirrors}
use kptv_proxy.Overrides.Written.{order_of, set_stream_lem}

abbrev works : Answers
works = record { first = true; second = true; loads = true; reloads = true }

works-IsSteady : IsSteady works
works-IsSteady = record { loads = refl; reloads = refl; whole = λ _. refl }

usual : IsSteady works × HasNoNul (codes "A")
usual = (works-IsSteady, (refl, tt))

abbrev stored : Table
stored =
    (codes "A", record { hash = codes "1"; s_status = 0; s_order = some 3; dead_reason = [] })
    ∷ (
      codes "A",
      record { hash = codes "2"; s_status = 3; s_order = none; dead_reason = codes "auto" },
    )
    ∷ []

stored-IsSound : IsSound stored
unfolding get_stream_override text_eq
stored-IsSound = ((refl, tt), refl, ((refl, tt), refl, tt))

abbrev day : List Call
day =
    ask works (codes "A") (codes "2")
    ∷ mark works (codes "A") (codes "1") (codes "manual")
    ∷ why works (codes "A") (codes "1")
    ∷ revive works (codes "A") (codes "2")
    ∷ ask works (codes "A") (codes "2")
    ∷ ask works (codes "A") (codes "1")
    ∷ []

day_runs :
    run (record { table = stored; cache = none }) day
    ≡ dead true ∷ wrote true ∷ reason (codes "manual") ∷ wrote true ∷ dead false ∷ dead true ∷ []
unfolding run step is_stream_dead mark_stream_dead_by_hash get_dead_stream_reason revive_stream
    set_stream_dead set_stream_alive upsert_dead delete_alive clear_status overrides
    replace_override index_rows override_key lookup insert delete text_eq
day_runs = refl

run_mirrors_example : run (record { table = stored; cache = none }) day ≡ run_table stored day
run_mirrors_example =
    run_mirrors stored day stored-IsSound (usual, (usual, (usual, (usual, (usual, (usual, tt))))))

-- A mark whose load fails publishes a snapshot of its own entry alone: a stream that is dead in the
-- table then reads as alive.
abbrev blind : Answers
blind = record { first = true; second = true; loads = false; reloads = false }

failed_load_forgets :
    run
      (record { table = stored; cache = none })
      (mark blind (codes "A") (codes "1") [] ∷ ask works (codes "A") (codes "2") ∷ [])
    ≡ wrote true ∷ dead false ∷ []
unfolding run step is_stream_dead mark_stream_dead_by_hash set_stream_dead upsert_dead overrides
    replace_override override_key lookup insert text_eq
failed_load_forgets = refl

set_stream_lem_example :
    let marked =
      get_stream_override
        (set_stream_dead works stored
          (codes "A")
          (codes "1")
          (codes "manual")
          (dead_status (codes "manual"))).0
        (codes "A")
        (codes "2") in
    let revived =
      get_stream_override
        (set_stream_alive works stored (codes "A") (codes "1")).0
        (codes "A")
        (codes "2") in
    let before = get_stream_override stored (codes "A") (codes "2") in
    let same = same_pair (codes "A") (codes "1") (codes "A") (codes "2") in
    (is_dead marked ≡ (if same then true else is_dead before))
    × (reason_of marked ≡ (if same then codes "manual" else reason_of before))
    × (is_dead revived ≡ (if same then false else is_dead before))
    × (order_of marked ≡ order_of before)
    × (order_of revived ≡ order_of before)
set_stream_lem_example =
    set_stream_lem works stored (codes "A") (codes "1") (codes "manual") (codes "A") (codes "2")
      refl refl stored-IsSound
