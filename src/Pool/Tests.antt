-- ===== src/Pool/Tests.antt =====
-- A run of a pool's users, and the theorems at a concrete pool.
use kptv_proxy.Prelude.{
  ◌+◌, ◌≡◌, refl, ◌≤◌, ◌<◌, ◌^◌, ◌*◌, ◌↔◌, false, List, [], ◌∷◌, length, arith,
}
use kptv_proxy.Pool.{
  Growth, oversized_buffer_multiplier, get, put, reset, cleanup, pick, write, new_buffer_pool,
}
use kptv_proxy.Pool.Users.{Op, gets, puts, writes, start, step, run}
use kptv_proxy.Pool.Balance.{ArePooled, get-run, cleanup-run}

-- Growing to twice the length asked.
abbrev doubling : Growth
doubling = record { grow = λ cap len. len + len; enough = λ cap len. omega arith }

-- The second buffer outgrows four times the size of 2, so it is not pooled again.
abbrev script : List Op
script =
    gets 0 ∷ gets 0 ∷ writes 0 (1 ∷ 2 ∷ 3 ∷ 4 ∷ 5 ∷ []) ∷ puts 0 ∷ writes 0 (6 ∷ []) ∷ puts 0 ∷ []

script_runs : (run doubling (start 2) script).buffers.pool ≡ record { bytes = []; cap = 2 } ∷ []
unfolding run step get put reset pick write new_buffer_pool
script_runs = refl

get-run_example :
    let s = run doubling (start 2) script in
    let b = (get 0 s.buffers).0 in
    (b.bytes ≡ [])
    × (2 ≤ b.cap)
    × (b.cap ≤ 2 * oversized_buffer_multiplier)
    × ArePooled 2 s.buffers.pool
get-run_example = get-run doubling 2 script 0

few_held : length (run doubling (start 2) script).held < 2 ^ 64
unfolding run step get put reset pick write new_buffer_pool
few_held = omega arith

cleanup-run_example :
    (cleanup (run doubling (start 2) script).buffers ≡ false)
    ↔ ((run doubling (start 2) script).held ≡ [])
cleanup-run_example = cleanup-run doubling 2 script few_held
