-- ===== src/Failures/Tests.antt =====
-- Failures of one stream, and the theorem on them at a concrete source.
use kptv_proxy.Prelude.{
  ◌≡◌, refl, true, false, ◌&&◌, ◌||◌, not, none, List, [], ◌∷◌, length, leb, ◌==◌, arith,
}
use kptv_proxy.Text.{codes}
use kptv_proxy.Overrides.{Answers, Store}
use kptv_proxy.Failures.{get_source_by_url, max_failures}
use kptv_proxy.Failures.Threshold.{fail_all, fail_all_lem, dead_row}

abbrev works : Answers
works = record { first = true; second = true; loads = true; reloads = true }

abbrev five : List Answers
five = works ∷ works ∷ works ∷ works ∷ works ∷ []

abbrev empty : Store
empty = record { table = []; cache = none }

default_limit : max_failures [] (codes "http://x") ≡ 5
unfolding max_failures get_source_by_url
default_limit = refl

fail_all_lem_example :
    let (health', st') =
      fail_all []
        (codes "http://x")
        (codes "A")
        (codes "1")
        five
        (record { failures = 0; blocked = false }, empty) in
    let reached =
      leb (max_failures [] (codes "http://x")) (length five) && not (length five == 0) in
    (health'.failures ≡ length five)
    × (health'.blocked ≡ reached)
    × (dead_row [] (codes "http://x") (codes "A") (codes "1") st'
        ≡ (reached || dead_row [] (codes "http://x") (codes "A") (codes "1") empty))
fail_all_lem_example =
    fail_all_lem [] (codes "http://x") (codes "A") (codes "1") five empty
      (refl, (refl, (refl, (refl, (refl, tt))))) (omega (arith, default_limit)) (omega arith)
