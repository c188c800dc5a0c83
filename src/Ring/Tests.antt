-- ===== src/Ring/Tests.antt =====
-- Runs of the ring buffer, and its theorems at concrete buffers.
use kptv_proxy.Prelude.{◌≡◌, refl, ◌≢◌, none, some, List, [], ◌∷◌, arith}
use kptv_proxy.Ring
use kptv_proxy.Ring.{
  RingBuffer, Peeked, panic, nil, bytes, new_ring_buffer, write_section, peek_section,
}
use kptv_proxy.Ring.Log
use kptv_proxy.Ring.Log.{Op, write, reset, peek, position, Reply, done, peeked, at}
use kptv_proxy.Ring.Refine.{run, run_refines}
use kptv_proxy.Ring.Sections.{start, marks, sections_never_panic}

-- A write round the end of a buffer of 4 bytes, one longer than it, and a reset.
abbrev script : List Op
script =
    peek 3
    ∷ write (1 ∷ 2 ∷ 3 ∷ [])
    ∷ write (4 ∷ 5 ∷ [])
    ∷ peek 3
    ∷ peek 9
    ∷ position
    ∷ write (6 ∷ 7 ∷ 8 ∷ 9 ∷ 10 ∷ 11 ∷ [])
    ∷ peek 9
    ∷ reset
    ∷ peek 9
    ∷ Op.destroy
    ∷ position
    ∷ []

script_runs :
    run (new_ring_buffer 4) script
    ≡ some (
        peeked nil
        ∷ done
        ∷ done
        ∷ peeked (bytes (3 ∷ 4 ∷ 5 ∷ []))
        ∷ peeked (bytes (2 ∷ 3 ∷ 4 ∷ 5 ∷ []))
        ∷ at 5
        ∷ done
        ∷ peeked (bytes (8 ∷ 9 ∷ 10 ∷ 11 ∷ []))
        ∷ done
        ∷ peeked nil
        ∷ done
        ∷ at 0
        ∷ [])
unfolding run Ring.write Ring.write_section Ring.write_store Ring.trim Ring.slot Ring.copy_round
    Ring.copy_at Ring.reset Ring.reset_section Ring.destroy Ring.destroy_mark Ring.destroy_section
    Ring.get_write_position Ring.peek_recent_data Ring.peek_section Ring.peek_from Ring.gather
    new_ring_buffer
script_runs = refl

run_refines_example : run (new_ring_buffer 4) script ≡ some (Log.run 4 (some []) script)
run_refines_example = run_refines 4 script (omega arith) (omega arith)

sections_never_panic_example :
    let rb = Ring.destroy_mark (new_ring_buffer 4) in
    (write_section rb (7 ∷ []) ≢ none) × (peek_section rb 3 ≢ panic)
sections_never_panic_example =
    sections_never_panic (7 ∷ []) 3 (omega arith) (omega arith) (marks start)
