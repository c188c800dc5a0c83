-- ===== src/Segments/Tests.antt =====
-- The segment tracker and the refresh of a playlist on concrete inputs.
use kptv_proxy.Prelude.{◌≡◌, refl, true, false, some, List, [], ◌∷◌, arith}
use kptv_proxy.Text.{Text, codes, text_eq, contains}
use kptv_proxy.Text.Maps.{lookup, insert, delete}
use kptv_proxy.Segments.{
  new_segment_tracker, has_processed, mark_processed, store_at_head, size, clear,
}
use kptv_proxy.Segments.Queue
use kptv_proxy.Segments.Queue.{Op, marks, has, sizes, clears, seen, count, done}
use kptv_proxy.Segments.Refine.{visit_segment, step, run, AreFresh, run_queues}
use kptv_proxy.Segments.Memory
use kptv_proxy.Segments.Repeats.{run_remembers}
use kptv_proxy.Segments.Slots.{AreDistinct}
use kptv_proxy.Segments.Refresh.{
  Upstream, visit, refresh_from, tracker_for, refresh, ended, panicked,
}
use kptv_proxy.Segments.Replay.{start, refresh_once, no_replay}

abbrev calls : List Op
calls =
    Queue.visit (codes "a")
    ∷ Queue.visit (codes "b")
    ∷ Queue.visit (codes "a")
    ∷ Queue.visit (codes "c")
    ∷ marks (codes "a")
    ∷ has (codes "b")
    ∷ sizes
    ∷ clears
    ∷ has (codes "b")
    ∷ []

-- Two slots: the third segment drives the first one out, and the first one again the second.
calls_replies :
    run (new_segment_tracker 2) calls
    ≡ some (
        seen false
        ∷ seen false
        ∷ seen true
        ∷ seen false
        ∷ done
        ∷ seen false
        ∷ count 2
        ∷ done
        ∷ seen false
        ∷ [])
unfolding run step visit_segment new_segment_tracker has_processed lookup mark_processed
    store_at_head insert text_eq delete size clear
calls_replies = refl

calls-AreFresh : AreFresh 2 [] calls
unfolding Queue.step contains text_eq
calls-AreFresh = (refl, (refl, (refl, (refl, ((refl, refl), (tt, (tt, (tt, (tt, tt)))))))))

run_queues_example : run (new_segment_tracker 2) calls ≡ some (Queue.run 2 [] calls)
run_queues_example = run_queues 2 calls (omega arith) calls-AreFresh

-- A segment that is marked twice: the eviction of its first mark forgets it.
abbrev repeats : List Op
repeats = marks (codes "a") ∷ marks (codes "a") ∷ marks (codes "b") ∷ has (codes "a") ∷ sizes ∷ []

repeats_forgotten :
    run (new_segment_tracker 2) repeats ≡ some (done ∷ done ∷ done ∷ seen false ∷ count 2 ∷ [])
unfolding run step new_segment_tracker has_processed lookup mark_processed store_at_head insert
    text_eq delete size
repeats_forgotten = refl

run_remembers_example :
    run (new_segment_tracker 2) repeats ≡ some (Memory.run 2 Memory.nothing repeats)
run_remembers_example = run_remembers 2 repeats (omega arith) (refl, (refl, (refl, (tt, (tt, tt)))))

abbrev playlist : List Text
playlist = codes "1" ∷ codes "2" ∷ codes "3" ∷ codes "4" ∷ codes "5" ∷ []

-- An upstream that answers every segment.
abbrev healthy : Upstream
healthy = record { sends = λ _. some 10; cancelled = λ _. false }

refresh_once_example :
    ¬ ((refresh healthy (new_segment_tracker 2) 0 playlist).1 ≡ panicked)
    × AreDistinct (refresh healthy (new_segment_tracker 2) 0 playlist).0.sent
refresh_once_example =
    refresh_once 2 healthy playlist 0 (omega arith) (refl, (refl, (refl, (refl, (refl, tt)))))

first_ended : (refresh healthy (new_segment_tracker 2) 0 playlist).1 ≡ ended
unfolding refresh refresh_from visit has_processed lookup tracker_for size new_segment_tracker
    contains mark_processed store_at_head insert
first_ended = refl

first_errors : (refresh healthy (new_segment_tracker 2) 0 playlist).0.segment_errors ≡ 0
unfolding refresh refresh_from visit has_processed lookup tracker_for size new_segment_tracker
    contains mark_processed store_at_head insert
first_errors = refl

no_replay_example :
    refresh healthy (refresh healthy (new_segment_tracker 2) 0 playlist).0.tracker 30 playlist
    ≡ (start (refresh healthy (new_segment_tracker 2) 0 playlist).0.tracker 30, ended)
no_replay_example =
    no_replay 2 healthy healthy playlist 0 30 (omega arith)
      (refl, (refl, (refl, (refl, (refl, tt))))) first_ended first_errors
