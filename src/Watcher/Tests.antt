-- ===== src/Watcher/Tests.antt =====
-- The watcher on concrete inputs.
use kptv_proxy.Prelude.{
  ℕ, ◌+◌, ◌*◌, ◌/◌, ◌%◌, ◌≡◌, refl, true, false, none, some, List, [], ◌∷◌, arith,
}
use kptv_proxy.Text.{codes, text_eq}
use kptv_proxy.Text.Maps.{lookup}
use kptv_proxy.Watcher.{
  StreamWatcher, second, check_throughput, evaluate_stream_health, count_issue, count_pass,
  after_switch, check_stream_health,
}
use kptv_proxy.Watcher.Choice.{ChannelStream, search_from, find_next_available_stream}
use kptv_proxy.Watcher.Rotation.{IsChosen, find_next_available_stream-IsChosen}
use kptv_proxy.Watcher.Window.{Check, run_checks, run_checks_lem}
use kptv_proxy.Watcher.Manager.{WatcherManager, new_watcher_manager, stop}
use kptv_proxy.Watcher.Slots.{
  Call, starts, watches, unwatches, IsSound, perform_all, perform_all-new_watcher_manager,
}
use kptv_proxy.Watcher.Stopped.{manager, cancel_all, stop_lem}

abbrev watcher : StreamWatcher
watcher = record {
  last_check = 0;
  last_stream_start = 0;
  consecutive_failures = 0;
  total_failures = 0;
  last_failure_reset = 0;
  last_write_pos = 0;
}

-- A check of a stream that has been idle or not.
abbrev check : ℕ → ℕ → Check
check time activity = record {
  view = record {
    now = time * second;
    write_position = none;
    last_activity = activity;
    is_running = true;
    is_cancelled = false;
    stats_valid = false;
    stats_updated = 0;
  };
  restarted = false;
}

abbrev checks : List Check
checks = check 200 0 ∷ check 230 220 ∷ check 260 0 ∷ check 290 0 ∷ []

checks_triggered : (run_checks watcher checks).2 ≡ 1
unfolding run_checks check_stream_health evaluate_stream_health check_throughput count_issue
    count_pass after_switch
checks_triggered = refl

run_checks_lem_example :
    ((run_checks watcher checks).2 ≡ (watcher.total_failures + (run_checks watcher checks).1) / 3)
    × ((run_checks watcher checks).0.total_failures
        ≡ (watcher.total_failures + (run_checks watcher checks).1) % 3)
run_checks_lem_example = run_checks_lem watcher checks (omega arith) (
  omega arith,
  omega arith,
  (omega arith, omega arith, (omega arith, omega arith, (omega arith, omega arith, tt))),
)

abbrev stream : ℕ → ℕ → ChannelStream
stream blocked conns = record {
  blocked = blocked;
  is_dead = false;
  active_conns = conns;
  max_connections = 2;
}

abbrev streams : List ChannelStream
streams = stream 0 0 ∷ stream 0 1 ∷ stream 1 0 ∷ stream 0 2 ∷ []

find_next_available_stream-IsChosen_example :
    IsChosen streams 1 (find_next_available_stream streams 1)
find_next_available_stream-IsChosen_example =
    find_next_available_stream-IsChosen streams 1 (omega arith)

chosen : find_next_available_stream streams 1 ≡ some 0
unfolding find_next_available_stream search_from
chosen = refl

abbrev calls : List Call
calls =
    starts
    ∷ watches (codes "A") 1
    ∷ watches (codes "B") 2
    ∷ watches (codes "A") 3
    ∷ unwatches (codes "B")
    ∷ []

perform_all-new_watcher_manager_example :
    (m : WatcherManager) × (perform_all new_watcher_manager calls ≡ some m) × IsSound m
perform_all-new_watcher_manager_example = perform_all-new_watcher_manager calls

abbrev two : WatcherManager
two = manager ((codes "A", 3) ∷ (codes "B", 2) ∷ []) 2 true (1 ∷ [])

two-IsSound : IsSound two
unfolding lookup text_eq
two-IsSound = record { counted = refl; few = omega arith; keyed = (refl, (refl, tt)) }

stop_lem_example : stop two ≡ some (manager [] 0 false (cancel_all two.watchers two.cancelled))
stop_lem_example = stop_lem two two-IsSound refl
