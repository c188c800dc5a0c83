-- ===== src/Failures/Threshold.antt =====
-- A stream that fails again and again: its counter, its block and its row among the dead streams.
use kptv_proxy.Prelude.{
  ℕ, suc, ◌+◌, ◌%◌, ◌^◌, ◌<◌, ◌≡◌, refl, ap, ◌∙◌, inl, inr, Bool, true, false, ◌&&◌, ◌||◌, not,
  Option, none, some, List, [], ◌∷◌, length, leb, ◌==◌, Bool-cases, if◌then◌else◌, arith,
}
use kptv_proxy.Text.{Text, codes}
use kptv_proxy.Text.Maps.{TextMap}
use kptv_proxy.Config.Profiles.{SourceConfig}
use kptv_proxy.Overrides.{
  Answers, Store, StreamOverride, Table, get_stream_override, upsert_dead, is_dead, load, overrides,
  replace_override, mark_stream_dead_by_hash, set_stream_dead, dead_status, with_status, or_fresh,
}
use kptv_proxy.Overrides.Rows.{get-upsert_dead, same_pair_refl}
use kptv_proxy.Overrides.Written.{dead_status_lem}
use kptv_proxy.Failures.{Health, max_failures, handle_stream_failure, at_least32}

-- Every first statement of the calls works.
abbrev pub AllWork : List Answers → Type 0
AllWork [] = Unit {0}
AllWork (a ∷ answers) = (a.first ≡ true) × AllWork answers

load-table :
    (b : Bool) (t : Table) (cache : Option (TextMap StreamOverride)) → (load b t cache).1.table ≡ t
load-table b t (some m) = refl
load-table true t none = refl
load-table false t none = refl

module _ (sources : List SourceConfig) (url c h : Text) where
  -- One failure after another, with what the database answers each time.
  unfoldable pub fail_all : List Answers → Health × Store → Health × Store
  fail_all [] s = s
  fail_all (a ∷ answers) (health, st) =
      fail_all answers (handle_stream_failure a sources url c h health st)

  abbrev pub dead_row : Store → Bool
  dead_row st = is_dead (get_stream_override st.table c h)

  mark-table :
      (a : Answers) (st : Store) (r : Text)
      → a.first ≡ true
      → (mark_stream_dead_by_hash a st c h r).0.table ≡ upsert_dead st.table c h r (dead_status r)
  unfolding mark_stream_dead_by_hash set_stream_dead overrides replace_override
  mark-table a st r f = rw f (
      load-table a.reloads
        (load a.loads (upsert_dead st.table c h r (dead_status r)) st.cache).1.table
        (load a.loads (upsert_dead st.table c h r (dead_status r)) st.cache).1.cache
      ∙ load-table a.loads (upsert_dead st.table c h r (dead_status r)) st.cache)

  mark-dead_row :
      (a : Answers) (st : Store) (r : Text)
      → a.first ≡ true
      → dead_row (mark_stream_dead_by_hash a st c h r).0 ≡ true
  mark-dead_row a st r f =
      ap (λ t. is_dead (get_stream_override t c h)) (mark-table a st r f)
      ∙ ap is_dead (get-upsert_dead st.table c h r (dead_status r) c h)
      ∙ ap
          (λ b. is_dead (
            if b
            then some
                (with_status (dead_status r) r (or_fresh h (get_stream_override st.table c h)))
            else get_stream_override st.table c h))
          (same_pair_refl c h)
      ∙ dead_status_lem r

  at_least32-leb : (n m : ℕ) → n < 2 ^ 31 → m < 2 ^ 31 → at_least32 n m ≡ leb m n
  at_least32-leb n m u v = ground arith

  -- The state after one failure.
  record IsAfter (n : ℕ) (s : Health × Store) (s' : Health × Store) : Type 0 where
    counted : s'.0.failures ≡ n
    blocks : s'.0.blocked ≡ (leb (max_failures sources url) n || s.0.blocked)
    rows : dead_row s'.1 ≡ (leb (max_failures sources url) n || dead_row s.1)

  handle-IsAfter :
      (a : Answers) (health : Health) (st : Store)
      → a.first ≡ true
      → max_failures sources url < 2 ^ 31
      → suc health.failures < 2 ^ 31
      → IsAfter
          (suc health.failures)
          (health, st)
          (handle_stream_failure a sources url c h health st)
  unfolding handle_stream_failure
  handle-IsAfter a health st f m n =
      let exact : (health.failures + 1) % 2 ^ 32 ≡ suc health.failures = omega (arith, n) in
      let test : at_least32 ((health.failures + 1) % 2 ^ 32) (max_failures sources url)
          ≡ leb (max_failures sources url) (suc health.failures) =
        ap (λ k. at_least32 k (max_failures sources url)) exact
        ∙ at_least32-leb (suc health.failures) (max_failures sources url) n m in
      elim (Bool-cases (leb (max_failures sources url) (suc health.failures))) [
        | inl y ↦
            rw (test, y)
              (record {
                counted = exact;
                blocks = rw y refl;
                rows = rw y (mark-dead_row a st (codes "auto_blocked") f);
              })
        | inr y ↦ rw (test, y) (record { counted = exact; blocks = rw y refl; rows = rw y refl })
      ]

  fail_from :
      (answers : List Answers) (health : Health) (st : Store)
      → AllWork answers
      → max_failures sources url < 2 ^ 31
      → health.failures + length answers < 2 ^ 31
      → let (health', st') = fail_all answers (health, st) in
        let reached =
          leb (max_failures sources url) (health.failures + length answers)
          && not (length answers == 0) in
        (health'.failures ≡ health.failures + length answers)
        × (health'.blocked ≡ (reached || health.blocked))
        × (dead_row st' ≡ (reached || dead_row st))
  unfolding fail_all
  fail_from [] health st w m n = (omega arith, ground arith, ground arith)
  fail_from (a ∷ answers) health st w m n =
      let one = handle-IsAfter a health st w.0 m (omega (arith, n)) in
      let next = handle_stream_failure a sources url c h health st in
      let (x, y, z) = fail_from answers next.0 next.1 w.1 m (omega (arith, n, one.counted)) in
      (
        omega (arith, x, one.counted),
        ground (arith, y, one.counted, one.blocks),
        ground (arith, z, one.counted, one.rows),
      )

  -- A stream that starts with no failures and fails some number of times has that number as its
  -- counter. It is blocked exactly if it failed at all and the number has reached its source's
  -- limit, or the default limit if the source is gone, and its row in the table is then dead, and
  -- else as dead as it was. The number and the limit are below 2^31 and the writes to the table
  -- work.
  pub fail_all_lem :
      (answers : List Answers) (st : Store)
      → AllWork answers
      → max_failures sources url < 2 ^ 31
      → length answers < 2 ^ 31
      → let (health', st') = fail_all answers (record { failures = 0; blocked = false }, st) in
        let reached =
          leb (max_failures sources url) (length answers) && not (length answers == 0) in
        (health'.failures ≡ length answers)
        × (health'.blocked ≡ reached)
        × (dead_row st' ≡ (reached || dead_row st))
  fail_all_lem answers st w m n =
      let (x, y, z) =
        fail_from answers (record { failures = 0; blocked = false }) st w m (omega (arith, n)) in
      (omega (arith, x), ground (arith, y), ground (arith, z))
