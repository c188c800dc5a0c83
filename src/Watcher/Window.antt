-- ===== src/Watcher/Window.antt =====
-- The count of issues within one window.
use kptv_proxy.Prelude.{
  ℕ, ◌+◌, ◌-◌, ◌*◌, ◌/◌, ◌%◌, ◌^◌, ◌≤◌, ◌<◌, ◌≡◌, refl, subst, inl, inr, Bool, true, false, not,
  List, [], ◌∷◌, ltb, lt32, Bool-cases, if◌then◌else◌, arith,
}
use kptv_proxy.Watcher.{
  StreamWatcher, View, evaluate_stream_health, count_issue, count_pass, after_switch,
  check_stream_health, watcher_grace_period, watcher_failure_threshold,
  watcher_failure_reset_window,
}

-- A check: what it reads, and whether a switch restarts the stream.
pub record Check : Type 0 where
  pub view : View
  pub restarted : Bool

-- The watcher after some checks, with the number of issues found and of switches triggered.
unfoldable pub run_checks : StreamWatcher → List Check → StreamWatcher × ℕ × ℕ
run_checks sw [] = (sw, 0, 0)
run_checks sw (c ∷ checks) =
    let found = (evaluate_stream_health sw c.view).1 in
    let (sw', is_triggered) = check_stream_health sw c.view c.restarted in
    let (sw'', issues, triggers) = run_checks sw' checks in
    (
      sw'',
      (if found then issues + 1 else issues),
      (if is_triggered then triggers + 1 else triggers),
    )

-- All checks are made in the window that began at a time.
abbrev pub AreWithin : ℕ → List Check → Type 0
AreWithin start [] = Unit {0}
AreWithin start (c ∷ checks) =
    (start ≤ c.view.now)
    × (c.view.now ≤ start + watcher_failure_reset_window)
    × AreWithin start checks

-- A watcher whose last reset is no earlier than the window's start.
record IsCounting (start : ℕ) (sw : StreamWatcher) : Type 0 where
  few : sw.total_failures < 3
  recent : start ≤ sw.last_failure_reset

evaluate-IsCounting :
    (start : ℕ) (sw : StreamWatcher) (v : View)
    → IsCounting start sw
    → IsCounting start (evaluate_stream_health sw v).0
      × ((evaluate_stream_health sw v).0.total_failures ≡ sw.total_failures)
unfolding evaluate_stream_health
evaluate-IsCounting start sw v i =
    elim (Bool-cases (ltb (v.now - sw.last_stream_start) watcher_grace_period)) [
      | inl e ↦ rw e (i, refl)
      | inr e ↦ rw e (record { few = i.few; recent = i.recent }, refl)
    ]

-- What a check does to the count of failures.
record IsCounted (start : ℕ) (total : ℕ) (found : Bool) (sw' : StreamWatcher) (is_triggered : Bool)
    : Type 0 where
  counting : IsCounting start sw'
  sum : total + (if found then 1 else 0) ≡ (if is_triggered then 3 else 0) + sw'.total_failures

abbrev CountedPair : ℕ → ℕ → Bool → StreamWatcher × Bool → Type 0
CountedPair start total found (sw', is_triggered) = IsCounted start total found sw' is_triggered

count_issue-CountedPair :
    (start now : ℕ) (sw : StreamWatcher)
    → IsCounting start sw
    → start ≤ now
    → CountedPair start sw.total_failures true (count_issue sw now)
unfolding count_issue
count_issue-CountedPair start now sw i p =
    elim (Bool-cases (not (lt32 ((sw.total_failures + 1) % 2 ^ 32) watcher_failure_threshold))) [
      | inl e ↦ rw e (record {
        counting = record { few = omega arith; recent = p };
        sum = ground (arith, e, i.few);
      })
      | inr e ↦ rw e (record {
        counting = record { few = ground (arith, e, i.few); recent = i.recent };
        sum = ground (arith, e, i.few);
      })
    ]

count_pass-IsCounted :
    (start now : ℕ) (sw : StreamWatcher)
    → IsCounting start sw
    → now ≤ start + watcher_failure_reset_window
    → IsCounted start sw.total_failures false (count_pass sw now) false
unfolding count_pass
count_pass-IsCounted start now sw i p =
    elim (Bool-cases (ltb watcher_failure_reset_window (now - sw.last_failure_reset))) [
      | inl e ↦ absurd (ground (arith, e, p, i.recent))
      | inr e ↦
          rw e (record { counting = record { few = i.few; recent = i.recent }; sum = omega arith })
    ]

checked_IsCounted :
    (start total now : ℕ) (found b restarted : Bool) (sw' : StreamWatcher)
    → IsCounted start total found sw' b
    → IsCounted start total found
        (record (if b then after_switch restarted now sw' else sw') { last_check = now })
        b
unfolding after_switch
checked_IsCounted start total now found false restarted sw' h = record {
  counting = record { few = h.counting.few; recent = h.counting.recent };
  sum = h.sum;
}
checked_IsCounted start total now found true false sw' h = record {
  counting = record { few = h.counting.few; recent = h.counting.recent };
  sum = h.sum;
}
checked_IsCounted start total now found true true sw' h = record {
  counting = record { few = h.counting.few; recent = h.counting.recent };
  sum = h.sum;
}

check-CountedPair :
    (start : ℕ) (sw : StreamWatcher) (v : View) (restarted : Bool)
    → IsCounting start sw
    → start ≤ v.now
    → v.now ≤ start + watcher_failure_reset_window
    → CountedPair start sw.total_failures
        (evaluate_stream_health sw v).1
        (check_stream_health sw v restarted)
unfolding check_stream_health
check-CountedPair start sw v restarted i p q =
    let (i', same) = evaluate-IsCounting start sw v i in
    let sw1 = (evaluate_stream_health sw v).0 in
    elim (Bool-cases (evaluate_stream_health sw v).1) [
      | inl e ↦ rw e (
          checked_IsCounted start sw.total_failures v.now true (count_issue sw1 v.now).1 restarted
            (count_issue sw1 v.now).0
            (subst (λ t. IsCounted start t true (count_issue sw1 v.now).0 (count_issue sw1 v.now).1)
              same (count_issue-CountedPair start v.now sw1 i' p)))
      | inr e ↦ rw e (
          checked_IsCounted start sw.total_failures v.now false false restarted
            (count_pass sw1 v.now)
            (subst (λ t. IsCounted start t false (count_pass sw1 v.now) false) same
              (count_pass-IsCounted start v.now sw1 i' q)))
    ]

run_checks_counts :
    (start : ℕ) (sw : StreamWatcher) (checks : List Check)
    → IsCounting start sw
    → AreWithin start checks
    → (sw.total_failures + (run_checks sw checks).1
        ≡ 3 * (run_checks sw checks).2 + (run_checks sw checks).0.total_failures)
      × ((run_checks sw checks).0.total_failures < 3)
unfolding run_checks
run_checks_counts start sw [] i w = (omega arith, i.few)
run_checks_counts start sw (c ∷ checks) i w =
    let h = check-CountedPair start sw c.view c.restarted i w.0 w.1 in
    let sw' = (check_stream_health sw c.view c.restarted).0 in
    let (sum, few) = run_checks_counts start sw' checks h.counting w.2 in
    (
      added sw.total_failures sw'.total_failures (run_checks sw' checks).1 (run_checks sw' checks).2
          (run_checks sw' checks).0.total_failures (evaluate_stream_health sw c.view).1
          (check_stream_health sw c.view c.restarted).1 h.sum sum,
      few,
    )
  where
    added :
        (total between issues triggers last : ℕ) (found b : Bool)
        → total + (if found then 1 else 0) ≡ (if b then 3 else 0) + between
        → between + issues ≡ 3 * triggers + last
        → total + (if found then issues + 1 else issues)
          ≡ 3 * (if b then triggers + 1 else triggers) + last
    added total between issues triggers last true true e f = omega (arith, e, f)
    added total between issues triggers last true false e f = omega (arith, e, f)
    added total between issues triggers last false true e f = omega (arith, e, f)
    added total between issues triggers last false false e f = omega (arith, e, f)

-- While the checks are made within the reset window that began at the last reset, from a count below
-- 3, a switch of the stream is triggered on every third check that finds an issue, however many
-- checks between find none and whatever became of earlier switches, and the count stays below 3.
pub run_checks_lem :
    (sw : StreamWatcher) (checks : List Check)
    → sw.total_failures < 3
    → AreWithin sw.last_failure_reset checks
    → ((run_checks sw checks).2 ≡ (sw.total_failures + (run_checks sw checks).1) / 3)
      × ((run_checks sw checks).0.total_failures
          ≡ (sw.total_failures + (run_checks sw checks).1) % 3)
run_checks_lem sw checks p w =
    let (sum, few) =
      run_checks_counts sw.last_failure_reset sw checks (record { few = p; recent = omega arith })
        w in
    (omega (arith, sum, few), omega (arith, sum, few))
