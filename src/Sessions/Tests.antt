-- ===== src/Sessions/Tests.antt =====
-- Sessions on a concrete sequence of calls.
use kptv_proxy.Prelude.{ℕ, ◌+◌, ◌*◌, ◌≡◌, refl, true, false, List, [], ◌∷◌, arith}
use kptv_proxy.Text.{Text, codes, text_eq}
use kptv_proxy.Sessions.{second, find_row, create_session}
use kptv_proxy.Sessions.Refine.{
  Op, created, read, revoked, swept, Timed, run, plain_step, plain_run, run_sessions,
}

abbrev hash : Text → Text
hash raw = 104 ∷ raw

abbrev at : ℕ → Op → Timed
at time op = record { at = time; op = op }

-- A session of a day is read, expires, is swept, and is read again.
abbrev calls : List Timed
calls =
    at 1 (created (codes "a") 7 (codes "ann") (codes "Ann") false)
    ∷ at 2 (created (codes "b") 8 (codes "bob") (codes "Bob") true)
    ∷ at (86300 * second + 1) (read (codes "a"))
    ∷ at (86500 * second) swept
    ∷ at (86500 * second + 1) (read (codes "a"))
    ∷ at (86500 * second + 2) (revoked 8)
    ∷ at (86500 * second + 3) (read (codes "b"))
    ∷ []

run_sessions_example : run hash [] calls ≡ plain_run hash [] calls
unfolding plain_step create_session find_row text_eq
run_sessions_example = run_sessions hash calls (
  omega arith,
  refl,
  (
    omega arith,
    refl,
    (
      omega arith,
      omega arith,
      (
        omega arith,
        tt,
        (omega arith, omega arith, (omega arith, tt, (omega arith, omega arith, tt))),
      ),
    ),
  ),
)
