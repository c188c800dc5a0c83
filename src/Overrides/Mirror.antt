-- ===== src/Overrides/Mirror.antt =====
-- The snapshot of the overrides against the table itself, over sequences of calls.
use kptv_proxy.Prelude.{◌≡◌, refl, sym, ap, ap₂, Option, none, List, [], ◌∷◌, subst}
use kptv_proxy.Text.Maps.{TextMap}
use kptv_proxy.Overrides.{
  StreamOverride, Table, Store, overrides, is_dead, reason_of, is_stream_dead,
  get_dead_stream_reason,
}
use kptv_proxy.Overrides.Rows.{IsSound}
use kptv_proxy.Overrides.Calls.{
  Call, mark, revive, ask, why, wrote, dead, reason, step, step_table, run, run_table, IsUsual,
  AreUsual,
}
use kptv_proxy.Overrides.Snapshot.{Agrees}
use kptv_proxy.Overrides.Preserve.{
  Mirrors, steady-IsSteady, mark-Mirrors, revive-Mirrors, read-Mirrors,
}

abbrev StepMirrors : Table → Store → Call → Type 0
StepMirrors t st call =
    ((step st call).1 ≡ (step_table t call).1) × Mirrors (step_table t call).0 (step st call).0

step-steady :
    (t : Table) (cache : Option (TextMap StreamOverride)) (call : Call)
    → IsSound t
    → Agrees t cache
    → IsUsual call
    → StepMirrors t (record { table = t; cache = cache }) call
unfolding step step_table is_stream_dead get_dead_stream_reason overrides
step-steady t cache (mark a c h r) v w u =
    subst (λ b. StepMirrors t (record { table = t; cache = cache }) (mark b c h r))
      (sym (steady-IsSteady a u.0))
      (let (e, m) = mark-Mirrors t v c h u.1 a.first a.second r cache w in (ap wrote e, m))
step-steady t cache (revive a c h) v w u =
    subst (λ b. StepMirrors t (record { table = t; cache = cache }) (revive b c h))
      (sym (steady-IsSteady a u.0))
      (let (e, m) = revive-Mirrors t v c h u.1 a.first a.second cache u.0.whole w in
        (ap wrote e, m))
step-steady t cache (ask a c h) v w u =
    subst (λ b. StepMirrors t (record { table = t; cache = cache }) (ask b c h))
      (sym (steady-IsSteady a u.0))
      (let (e, m) = read-Mirrors t v c h u.1 cache w in (ap (λ o. dead (is_dead o)) e, m))
step-steady t cache (why a c h) v w u =
    subst (λ b. StepMirrors t (record { table = t; cache = cache }) (why b c h))
      (sym (steady-IsSteady a u.0))
      (let (e, m) = read-Mirrors t v c h u.1 cache w in (ap (λ o. reason (reason_of o)) e, m))

step-Mirrors :
    (t : Table) (st : Store) (call : Call) → Mirrors t st → IsUsual call → StepMirrors t st call
step-Mirrors t st call s u =
    subst (λ x. StepMirrors t x call) (λ i. record { table = sym s.same i; cache = st.cache })
      (step-steady t st.cache call s.sound s.agrees u)

run-Mirrors :
    (t : Table) (st : Store) (calls : List Call)
    → Mirrors t st
    → AreUsual calls
    → run st calls ≡ run_table t calls
unfolding run run_table
run-Mirrors t st [] s u = refl
run-Mirrors t st (call ∷ calls) s u =
    let (e, m) = step-Mirrors t st call s u.0 in
    ap₂ ◌∷◌ e (run-Mirrors (step_table t call).0 (step st call).0 calls m u.1)

-- From a table of overrides without two rows for one channel and hash, and with no snapshot loaded,
-- every sequence of marks, revivals and reads replies as if each read asked the table: IsStreamDead
-- and GetDeadStreamReason of the snapshot are those of GetStreamOverride. Channel names hold no
-- NUL, the table can be read, and SetStreamAlive never fails at its second statement alone; writes
-- that fail at the first statement are allowed.
pub run_mirrors :
    (t : Table) (calls : List Call)
    → IsSound t
    → AreUsual calls
    → run (record { table = t; cache = none }) calls ≡ run_table t calls
run_mirrors t calls v u =
    run-Mirrors t (record { table = t; cache = none }) calls
      (record { same = refl; sound = v; agrees = tt }) u
