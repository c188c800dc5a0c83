-- ===== src/Watcher.antt =====
-- StreamWatcher of work/watcher/watcher.go: the health of one stream. Times are in nanoseconds from
-- one origin, and a check reads the clock once. `time.Since` of a later time is 0 here where the
-- source has a negative duration; every comparison with it has the same result.
pub mod Choice
pub mod Manager
pub mod Window
pub mod Rotation
pub mod Slots
pub mod Stopped
mod Tests
use kptv_proxy.Prelude.{
  ℕ, suc, ◌+◌, ◌-◌, ◌*◌, ◌/◌, ◌%◌, ◌^◌, Bool, true, false, not, ◌&&◌, ◌||◌, Option, none, some, ltb,
  leb, ◌==◌, lt64, lt32, if◌then◌else◌,
}

abbrev pub second : ℕ
second = 1000000000

abbrev pub watcher_grace_period : ℕ
watcher_grace_period = 30 * second

abbrev pub watcher_context_stuck_timeout : ℕ
watcher_context_stuck_timeout = 300 * second

-- In seconds.
abbrev pub watcher_activity_timeout : ℕ
watcher_activity_timeout = 120

abbrev pub watcher_stats_stale_timeout : ℕ
watcher_stats_stale_timeout = 300 * second

abbrev pub watcher_low_throughput_bytes : ℕ
watcher_low_throughput_bytes = 50 * 1024

abbrev pub watcher_failure_threshold : ℕ
watcher_failure_threshold = 3

abbrev pub watcher_failure_reset_window : ℕ
watcher_failure_reset_window = 900 * second

-- The counters are bit patterns of int32, the position is one of int64.
pub record StreamWatcher : Type 0 where
  pub last_check : ℕ
  pub last_stream_start : ℕ
  pub consecutive_failures : ℕ
  pub total_failures : ℕ
  pub last_failure_reset : ℕ
  pub last_write_pos : ℕ

-- What a check reads: the clock, the position of the buffer unless that is nil or destroyed, and the
-- state of the restreamer. The times of the last activity and of the statistics are in seconds.
pub record View : Type 0 where
  pub now : ℕ
  pub write_position : Option ℕ
  pub last_activity : ℕ
  pub is_running : Bool
  pub is_cancelled : Bool
  pub stats_valid : Bool
  pub stats_updated : ℕ

-- The throughput since the last check, and the position to remember.
unfoldable pub check_throughput : ℕ → Option ℕ → ℕ × Bool
check_throughput last none = (0, false)
check_throughput last (some current) =
    if last == 0
    then (current, false)
    else if not (lt64 current last)
    then (current, lt64 ((current + 2 ^ 64 - last) % 2 ^ 64) watcher_low_throughput_bytes)
    else (0, false)

unfoldable pub evaluate_stream_health : StreamWatcher → View → StreamWatcher × Bool
evaluate_stream_health sw v =
    if ltb (v.now - sw.last_stream_start) watcher_grace_period
    then (sw, false)
    else let (position, is_slow) = check_throughput sw.last_write_pos v.write_position in
      let is_idle = ltb watcher_activity_timeout (v.now / second - v.last_activity) in
      let is_stuck =
        v.is_running
        && v.is_cancelled
        && ltb watcher_context_stuck_timeout (v.now - sw.last_stream_start) in
      let is_stale =
        v.stats_valid && ltb watcher_stats_stale_timeout (v.now - v.stats_updated * second) in
      (record sw { last_write_pos = position }, is_slow || is_idle || is_stuck || is_stale)

-- A check that found an issue; the result says whether a switch of the stream is triggered. The
-- counters are 0 after one, whatever became of the switch.
unfoldable pub count_issue : StreamWatcher → ℕ → StreamWatcher × Bool
count_issue sw now =
    let consecutive = (sw.consecutive_failures + 1) % 2 ^ 32 in
    let total = (sw.total_failures + 1) % 2 ^ 32 in
    if not (lt32 total watcher_failure_threshold)
    then (
      record sw { consecutive_failures = 0; total_failures = 0; last_failure_reset = now },
      true,
    )
    else (record sw { consecutive_failures = consecutive; total_failures = total }, false)

unfoldable pub count_pass : StreamWatcher → ℕ → StreamWatcher
count_pass sw now =
    let consecutive =
      if lt32 0 sw.consecutive_failures
      then (sw.consecutive_failures + 2 ^ 32 - 1) % 2 ^ 32
      else sw.consecutive_failures in
    if ltb watcher_failure_reset_window (now - sw.last_failure_reset)
    then record sw {
      consecutive_failures = consecutive;
      total_failures = 0;
      last_failure_reset = now;
    }
    else record sw { consecutive_failures = consecutive }

-- `restarted` says that a triggered switch restarted the stream, which starts a new grace period.
unfoldable pub after_switch : Bool → ℕ → StreamWatcher → StreamWatcher
after_switch restarted now sw = if restarted then record sw { last_stream_start = now } else sw

unfoldable pub check_stream_health : StreamWatcher → View → Bool → StreamWatcher × Bool
check_stream_health sw v restarted =
    let (sw1, has_issues) = evaluate_stream_health sw v in
    let (failed, is_triggered) = count_issue sw1 v.now in
    let passed = count_pass sw1 v.now in
    if has_issues
    then (
      record (if is_triggered then after_switch restarted v.now failed else failed) {
        last_check = v.now;
      },
      is_triggered,
    )
    else (record passed { last_check = v.now }, false)
