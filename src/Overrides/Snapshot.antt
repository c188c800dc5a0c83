-- ===== src/Overrides/Snapshot.antt =====
-- A snapshot of the overrides that reads as the table does, and the entries that a write stores.
use kptv_proxy.Prelude.{
  ℕ, ◌≡◌, refl, sym, ap, ◌∙◌, ◌⊎◌, inl, inr, true, false, Option, none, some, [], if◌then◌else◌,
  arith,
}
use kptv_proxy.Text.{Text}
use kptv_proxy.Text.Maps.{TextMap, lookup, insert, delete, lookup-insert, lookup-delete}
use kptv_proxy.Overrides.{
  StreamOverride, Table, override_key, same_pair, get_stream_override, index_rows, with_status,
  or_fresh, upsert_dead, delete_alive, clear_status, load,
}
use kptv_proxy.Overrides.Rows.{
  HasNoNul, IsSound, text_eq-override_key, same_pair_refl, found, get-upsert_dead, get-delete_alive,
  get-clear_status, ordered_only, cleared, lookup-index_rows,
}

-- A snapshot that reads as the table does.
abbrev pub Reads : Table → TextMap StreamOverride → Type 0
Reads t m = (c h : Text) → HasNoNul c → lookup (override_key c h) m ≡ get_stream_override t c h

abbrev pub Agrees : Table → Option (TextMap StreamOverride) → Type 0
Agrees t none = Unit {0}
Agrees t (some m) = Reads t m

found-none : (o : Option StreamOverride) → found o none ≡ o
found-none none = refl
found-none (some o) = refl

pub index_rows-Reads : (t : Table) → IsSound t → Reads t (index_rows [] t)
index_rows-Reads t v c h n =
    lookup-index_rows [] t c h n v ∙ unfold lookup in found-none (get_stream_override t c h)

-- The map that a call works on, and the snapshot that it leaves.
pub load-Reads :
    (t t' : Table) (cache : Option (TextMap StreamOverride))
    → IsSound t'
    → Agrees t cache
    → Reads t (load true t' cache).0 ⊎ Reads t' (load true t' cache).0
load-Reads t t' none v w = inr (index_rows-Reads t' v)
load-Reads t t' (some m) v w = inl w

load-cache :
    (t : Table) (cache : Option (TextMap StreamOverride))
    → (load true t cache).1 ≡ record { table = t; cache = some (load true t cache).0 }
load-cache t none = refl
load-cache t (some m) = refl

-- The rows that a write does not name read as before.
pub write-Reads :
    (t t' : Table) (m : TextMap StreamOverride) (c h : Text)
    → HasNoNul c
    → ((d k : Text)
        → same_pair c h d k ≡ false
        → get_stream_override t' d k ≡ get_stream_override t d k)
    → ((d k : Text)
        → same_pair c h d k ≡ true
        → get_stream_override t' d k ≡ get_stream_override t' c h)
    → Reads t m ⊎ Reads t' m
    → ((o : StreamOverride)
        → get_stream_override t' c h ≡ some o
        → Reads t' (insert (override_key c h) o m))
      × (get_stream_override t' c h ≡ none → Reads t' (delete (override_key c h) m))
write-Reads t t' m c h n far near w = (
  λ o e d k v.
      lookup-insert (override_key c h) (override_key d k) o m
      ∙ ap (λ b. if b then some o else lookup (override_key d k) m)
          (text_eq-override_key c h d k n v)
      ∙ elim w [
        | inl a ↦ ground (arith, far d k, near d k, e, a d k v)
        | inr a ↦ ground (arith, far d k, near d k, e, a d k v)
      ],
  λ e d k v.
      lookup-delete (override_key c h) (override_key d k) m
      ∙ ap (λ b. if b then none else lookup (override_key d k) m) (text_eq-override_key c h d k n v)
      ∙ elim w [
        | inl a ↦ ground (arith, far d k, near d k, e, a d k v)
        | inr a ↦ ground (arith, far d k, near d k, e, a d k v)
      ],
)

-- The entry that MarkStreamDeadByHash stores, over the old snapshot and over the new one.
pub mark-entry :
    (t : Table) (m : TextMap StreamOverride) (c h r : Text) (s : ℕ)
    → HasNoNul c
    → Reads t m ⊎ Reads (upsert_dead t c h r s) m
    → get_stream_override (upsert_dead t c h r s) c h
      ≡ some (with_status s r (or_fresh h (lookup (override_key c h) m)))
mark-entry t m c h r s n (inl a) =
    get-upsert_dead t c h r s c h ∙ rw (same_pair_refl c h, a c h n) refl
mark-entry t m c h r s n (inr a) =
    get-upsert_dead t c h r s c h
    ∙ rw (same_pair_refl c h, a c h n, get-upsert_dead t c h r s c h, same_pair_refl c h) refl

abbrev pub revive_table : Table → Text → Text → Table
revive_table t c h = clear_status (delete_alive t c h) c h

pub get-revive_table :
    (t : Table) (c h d k : Text)
    → IsSound t
    → get_stream_override (revive_table t c h) d k ≡ (
        if same_pair c h d k
        then cleared (ordered_only (get_stream_override t c h))
        else get_stream_override t d k)
get-revive_table t c h d k v = ground (
  arith,
  get-clear_status (delete_alive t c h) c h d k,
  get-delete_alive t c h c h v,
  get-delete_alive t c h d k v,
  same_pair_refl c h,
)

revived_idem :
    (e : Option StreamOverride)
    → cleared (ordered_only (cleared (ordered_only e))) ≡ cleared (ordered_only e)
revived_idem none = refl
revived_idem (some o) = ground arith

pub revive-entry :
    (t : Table) (m : TextMap StreamOverride) (c h : Text)
    → HasNoNul c
    → IsSound t
    → Reads t m ⊎ Reads (revive_table t c h) m
    → get_stream_override (revive_table t c h) c h
      ≡ cleared (ordered_only (lookup (override_key c h) m))
revive-entry t m c h n v (inl a) =
    get-revive_table t c h c h v ∙ rw (same_pair_refl c h, a c h n) refl
revive-entry t m c h n v (inr a) =
    let e : get_stream_override (revive_table t c h) c h
        ≡ cleared (ordered_only (get_stream_override t c h)) =
      get-revive_table t c h c h v ∙ rw (same_pair_refl c h) refl in
    e
    ∙ sym (revived_idem (get_stream_override t c h))
    ∙ ap (λ x. cleared (ordered_only x)) (sym (a c h n ∙ e))
