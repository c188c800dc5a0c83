-- ===== src/Overrides/Preserve.antt =====
-- The snapshot of the overrides after each operation.
use kptv_proxy.Prelude.{
  ℕ, ◌≡◌, refl, ◌∙◌, ◌⊎◌, inl, inr, Bool, true, false, Option, none, some, [], Bool-cases, arith,
}
use kptv_proxy.Text.{Text}
use kptv_proxy.Text.Maps.{TextMap, lookup, insert, delete}
use kptv_proxy.Overrides.{
  StreamOverride, Table, Store, Answers, override_key, same_pair, get_stream_override, index_rows,
  with_status, or_fresh, upsert_dead, has_order, delete_alive, status_alive, dead_status,
  set_stream_dead, set_stream_alive, load, overrides, replace_override, mark_stream_dead_by_hash,
  revive_stream, revive_entry,
}
use kptv_proxy.Overrides.Rows.{
  HasNoNul, IsSound, get-upsert_dead, get-other, ordered_only, cleared, upsert_dead-IsSound,
  delete_alive-IsSound, clear_status-IsSound,
}
use kptv_proxy.Overrides.Calls.{IsSteady}
use kptv_proxy.Overrides.Snapshot.{
  Reads, Agrees, index_rows-Reads, write-Reads, mark-entry, revive_table, get-revive_table,
  revive-entry,
}

-- The state between two calls.
pub record Mirrors (t : Table) (st : Store) : Type 0 where
  pub same : st.table ≡ t
  pub sound : IsSound t
  pub agrees : Agrees t st.cache

store-Mirrors :
    (t : Table) (m : TextMap StreamOverride)
    → IsSound t
    → Reads t m
    → Mirrors t (record { table = t; cache = some m })
store-Mirrors t m v w = record { same = refl; sound = v; agrees = w }

revive_entry-Mirrors :
    (t' : Table) (m : TextMap StreamOverride) (key : Text) (e g : Option StreamOverride)
    → IsSound t'
    → g ≡ cleared (ordered_only e)
    → ((o : StreamOverride) → g ≡ some o → Reads t' (insert key o m))
    → (g ≡ none → Reads t' (delete key m))
    → Mirrors t' (revive_entry true (record { table = t'; cache = some m }) key e)
unfolding replace_override overrides
revive_entry-Mirrors t' m key none g v e put cut = store-Mirrors t' (delete key m) v (cut e)
revive_entry-Mirrors t' m key (some o) g v e put cut = elim (Bool-cases (has_order o)) [
  | inl y ↦ rw y (
      store-Mirrors t' (insert key (with_status status_alive [] o) m) v
        (put _ (ground (arith, e, y))))
  | inr y ↦ rw y (store-Mirrors t' (delete key m) v (cut (ground (arith, e, y))))
]

abbrev pub steady : Bool → Bool → Answers
steady first second = record { first = first; second = second; loads = true; reloads = true }

pub steady-IsSteady : (a : Answers) → IsSteady a → a ≡ steady a.first a.second
steady-IsSteady a y =
    λ i. record { first = a.first; second = a.second; loads = y.loads i; reloads = y.reloads i }

module _ (t : Table) (v : IsSound t) (c h : Text) (n : HasNoNul c) where
  mark-far :
      (r : Text) (s : ℕ) (d k : Text)
      → same_pair c h d k ≡ false
      → get_stream_override (upsert_dead t c h r s) d k ≡ get_stream_override t d k
  mark-far r s d k e = get-upsert_dead t c h r s d k ∙ rw e refl

  mark-store :
      (m : TextMap StreamOverride) (r : Text) (s : ℕ)
      → Reads t m ⊎ Reads (upsert_dead t c h r s) m
      → Mirrors (upsert_dead t c h r s) (record {
        table = upsert_dead t c h r s;
        cache = some (
            insert
              (override_key c h)
              (with_status s r (or_fresh h (lookup (override_key c h) m)))
              m);
      })
  mark-store m r s w = store-Mirrors (upsert_dead t c h r s) _ (upsert_dead-IsSound t c h r s n v) (
      (write-Reads t (upsert_dead t c h r s) m c h n (mark-far r s)
          (get-other (upsert_dead t c h r s) c h) w).0
        _ (mark-entry t m c h r s n w))

  pub mark-Mirrors :
      (first second : Bool) (r : Text) (cache : Option (TextMap StreamOverride))
      → Agrees t cache
      → let a = steady first second in
        let marked = mark_stream_dead_by_hash a (record { table = t; cache = cache }) c h r in
        let written = set_stream_dead a t c h r (dead_status r) in
        (marked.1 ≡ written.1) × Mirrors written.0 marked.0
  unfolding mark_stream_dead_by_hash set_stream_dead overrides replace_override
  mark-Mirrors false second r cache w = (refl, record { same = refl; sound = v; agrees = w })
  mark-Mirrors true second r none w = (
    refl,
    mark-store _ r (dead_status r) (
        inr (
          index_rows-Reads (upsert_dead t c h r (dead_status r))
            (upsert_dead-IsSound t c h r (dead_status r) n v))),
  )
  mark-Mirrors true second r (some m) w = (refl, mark-store m r (dead_status r) (inl w))

  revive_table-IsSound : IsSound (revive_table t c h)
  revive_table-IsSound =
      clear_status-IsSound (delete_alive t c h) c h (delete_alive-IsSound t c h v)

  revive-far :
      (d k : Text)
      → same_pair c h d k ≡ false
      → get_stream_override (revive_table t c h) d k ≡ get_stream_override t d k
  revive-far d k e = get-revive_table t c h d k v ∙ rw e refl

  revive-store :
      (m : TextMap StreamOverride)
      → Reads t m ⊎ Reads (revive_table t c h) m
      → Mirrors (revive_table t c h) (
          revive_entry true
            (record { table = revive_table t c h; cache = some m })
            (override_key c h)
            (lookup (override_key c h) m))
  revive-store m w =
      let both =
        write-Reads t (revive_table t c h) m c h n revive-far (get-other (revive_table t c h) c h)
          w in
      revive_entry-Mirrors (revive_table t c h) m (override_key c h) (lookup (override_key c h) m) _
        revive_table-IsSound (revive-entry t m c h n v w) both.0 both.1

  pub revive-Mirrors :
      (first second : Bool) (cache : Option (TextMap StreamOverride))
      → (first ≡ true → second ≡ true)
      → Agrees t cache
      → let a = steady first second in
        let revived = revive_stream a (record { table = t; cache = cache }) c h in
        let written = set_stream_alive a t c h in
        (revived.1 ≡ written.1) × Mirrors written.0 revived.0
  unfolding revive_stream set_stream_alive overrides
  revive-Mirrors false second cache f w = (refl, record { same = refl; sound = v; agrees = w })
  revive-Mirrors true false cache f w = cc (f refl)
  revive-Mirrors true true none f w =
      (refl, revive-store _ (inr (index_rows-Reads (revive_table t c h) revive_table-IsSound)))
  revive-Mirrors true true (some m) f w = (refl, revive-store m (inl w))

  pub read-Mirrors :
      (cache : Option (TextMap StreamOverride))
      → Agrees t cache
      → (lookup (override_key c h) (load true t cache).0 ≡ get_stream_override t c h)
        × Mirrors t (load true t cache).1
  read-Mirrors none w =
      (index_rows-Reads t v c h n, store-Mirrors t (index_rows [] t) v (index_rows-Reads t v))
  read-Mirrors (some m) w = (w c h n, store-Mirrors t m v w)
