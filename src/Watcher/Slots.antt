-- ===== src/Watcher/Slots.antt =====
-- The slots of the semaphore against the registry.
use kptv_proxy.Prelude.{
  ℕ, suc, ◌+◌, ◌-◌, ◌≤◌, ◌<◌, ◌≡◌, refl, sym, subst, ap, ◌∙◌, inl, inr, Bool, true, false, not,
  Option, none, some, List, [], ◌∷◌, length, leb, ◌==◌, Bool-cases, if◌then◌else◌, arith,
}
use kptv_proxy.Text.{Text, text_eq}
use kptv_proxy.Text.Equality.{text_eq→eq, text_eq_refl}
use kptv_proxy.Text.Maps.{TextMap, lookup, insert, delete, lookup-insert, lookup-delete}
use kptv_proxy.Watcher.Manager.{
  WatcherManager, watcher_max_concurrent, new_watcher_manager, start, release, stop_watching, store,
  start_watching, and_then, release_all, cleanup, stop,
}

-- No name twice.
abbrev pub AreKeyed : TextMap ℕ → Type 0
AreKeyed [] = Unit {0}
AreKeyed ((k, v) ∷ m) = (lookup k m ≡ none) × AreKeyed m

pub delete_absent : (k : Text) (m : TextMap ℕ) → lookup k m ≡ none → delete k m ≡ m
unfolding lookup delete
delete_absent k [] e = refl
delete_absent k ((j, v) ∷ m) e = ground (arith, e, delete_absent k m)

length-delete :
    (k : Text) (m : TextMap ℕ) (v : ℕ)
    → AreKeyed m
    → lookup k m ≡ some v
    → suc (length (delete k m)) ≡ length m
unfolding lookup delete
length-delete k [] v a e = absurd (cc e)
length-delete k ((j, w) ∷ m) v a e = elim (Bool-cases (text_eq j k)) [
  | inl s ↦ rw s (
      ap (λ r. suc (length r))
        (delete_absent k m (subst (λ t. lookup t m ≡ none) (text_eq→eq j k s) a.0)))
  | inr s ↦ rw s (ap suc (length-delete k m v a.1 (rest s e)))
]
  where
    rest :
        text_eq j k ≡ false
        → (if text_eq j k then some w else lookup k m) ≡ some v
        → lookup k m ≡ some v
    rest s e = ground (arith, s, e)

length-insert :
    (k : Text) (v : ℕ) (m : TextMap ℕ) → lookup k m ≡ none → length (insert k v m) ≡ suc (length m)
unfolding lookup insert
length-insert k v [] e = refl
length-insert k v ((j, w) ∷ m) e = ground (arith, e, length-insert k v m)

delete-AreKeyed : (k : Text) (m : TextMap ℕ) → AreKeyed m → AreKeyed (delete k m)
unfolding delete
delete-AreKeyed k [] a = tt
delete-AreKeyed k ((j, w) ∷ m) a = elim (Bool-cases (text_eq j k)) [
  | inl s ↦ rw s (delete-AreKeyed k m a.1)
  | inr s ↦ rw s (ground (arith, lookup-delete k j m, a.0), delete-AreKeyed k m a.1)
]

insert-AreKeyed : (k : Text) (v : ℕ) (m : TextMap ℕ) → AreKeyed m → AreKeyed (insert k v m)
unfolding insert
insert-AreKeyed k v [] a = (unfold lookup in refl, tt)
insert-AreKeyed k v ((j, w) ∷ m) a = elim (Bool-cases (text_eq j k)) [
  | inl s ↦ rw s (subst (λ t. lookup t m ≡ none) (text_eq→eq j k s) a.0, a.1)
  | inr s ↦ rw s (
    ground (arith, lookup-insert k j v m, a.0, s, text_eq→eq k j, text_eq_refl j),
    insert-AreKeyed k v m a.1,
  )
]

-- Each watcher holds a slot, and no other slot is taken.
pub record IsSound (m : WatcherManager) : Type 0 where
  pub counted : m.slots ≡ length m.watchers
  pub few : m.slots ≤ watcher_max_concurrent
  pub keyed : AreKeyed m.watchers

abbrev pub Soundly : Option WatcherManager → Type 0
Soundly none = ⊥
Soundly (some m) = IsSound m

stop_watching-Soundly :
    (m : WatcherManager) (name : Text) → IsSound m → Soundly (stop_watching m name)
unfolding stop_watching
stop_watching-Soundly m name s = released (lookup name m.watchers) refl
  where
    released : (o : Option ℕ) → lookup name m.watchers ≡ o → Soundly (release m name o)
    released none e = s
    released (some w) e =
        let fewer = length-delete name m.watchers w s.keyed e in
        elim (Bool-cases (m.slots == 0)) [
          | inl z ↦ absurd (ground (arith, z, fewer, s.counted))
          | inr z ↦ rw z (record {
            counted = omega (arith, fewer, s.counted);
            few = omega (arith, s.few);
            keyed = delete-AreKeyed name m.watchers s.keyed;
          })
        ]

release_all-Soundly :
    (chosen : ℕ → Bool) (entries : TextMap ℕ) (m : WatcherManager)
    → IsSound m
    → Soundly (release_all chosen entries m)
unfolding release_all
release_all-Soundly chosen [] m s = s
release_all-Soundly chosen ((name, w) ∷ entries) m s =
    picked (chosen w) (stop_watching m name) (stop_watching-Soundly m name s)
      (λ m' s'. release_all-Soundly chosen entries m' s')
  where
    picked :
        (b : Bool) (o : Option WatcherManager)
        → Soundly o
        → ((m' : WatcherManager) → IsSound m' → Soundly (release_all chosen entries m'))
        → Soundly (
            if b
            then and_then o (λ m'. release_all chosen entries m')
            else release_all chosen entries m)
    picked true none h g = absurd h
    picked true (some m') h g = g m' h
    picked false o h g = g m s

stored :
    (m : WatcherManager) (name : Text) (w : ℕ)
    → AreKeyed m.watchers
    → lookup name m.watchers ≡ none
    → m.slots ≡ suc (length m.watchers)
    → m.slots ≤ watcher_max_concurrent
    → Soundly (store name w (some m))
stored m name w a e c f = record {
  counted = c ∙ sym (length-insert name w m.watchers e);
  few = f;
  keyed = insert-AreKeyed name w m.watchers a;
}

start_watching-Soundly :
    (m : WatcherManager) (name : Text) (watcher : ℕ)
    → IsSound m
    → Soundly (start_watching m name watcher)
unfolding start_watching
start_watching-Soundly m name watcher s = elim (Bool-cases (leb watcher_max_concurrent m.slots)) [
  | inl full ↦ rw full s
  | inr free ↦ rw free (replaced (lookup name m.watchers) refl (ground (arith, free)))
]
  where
    replaced :
        (o : Option ℕ)
        → lookup name m.watchers ≡ o
        → m.slots < watcher_max_concurrent
        → Soundly (store name watcher (release (record m { slots = m.slots + 1 }) name o))
    replaced none e p =
        stored (record m { slots = m.slots + 1 }) name watcher s.keyed e (omega (arith, s.counted))
          (omega (arith, p))
    replaced (some w) e p =
        let fewer = length-delete name m.watchers w s.keyed e in
        elim (Bool-cases (m.slots + 1 == 0)) [
          | inl z ↦ absurd (ground (arith, z))
          | inr z ↦ rw z (
              stored
                (record {
                  watchers = delete name m.watchers;
                  slots = m.slots + 1 - 1;
                  enabled = m.enabled;
                  cancelled = w ∷ m.cancelled;
                })
                name watcher (delete-AreKeyed name m.watchers s.keyed)
                (ground (arith, lookup-delete name name m.watchers, text_eq_refl name))
                (omega (arith, fewer, s.counted)) (omega (arith, p)))
        ]

-- The calls of a manager. `sweeps` is a tick of the cleanup, with the restreamers that run.
pub data Call : Type 0 where
  starts stops : Call
  watches : Text → ℕ → Call
  unwatches : Text → Call
  sweeps : (ℕ → Bool) → Call

unfoldable pub perform : WatcherManager → Call → Option WatcherManager
perform m starts = some (start m)
perform m stops = stop m
perform m (watches name watcher) = start_watching m name watcher
perform m (unwatches name) = stop_watching m name
perform m (sweeps is_running) = cleanup is_running m

unfoldable pub perform_all : WatcherManager → List Call → Option WatcherManager
perform_all m [] = some m
perform_all m (c ∷ calls) = and_then (perform m c) (λ m'. perform_all m' calls)

stop-Soundly : (m : WatcherManager) → IsSound m → Soundly (stop m)
unfolding stop
stop-Soundly m s = elim (Bool-cases (not m.enabled)) [
  | inl e ↦ rw e s
  | inr e ↦ rw e (
      release_all-Soundly (λ watcher. true) m.watchers (record m { enabled = false })
        (record { counted = s.counted; few = s.few; keyed = s.keyed }))
]

perform-Soundly : (m : WatcherManager) (c : Call) → IsSound m → Soundly (perform m c)
unfolding perform cleanup
perform-Soundly m starts s = record { counted = s.counted; few = s.few; keyed = s.keyed }
perform-Soundly m stops s = stop-Soundly m s
perform-Soundly m (watches name watcher) s = start_watching-Soundly m name watcher s
perform-Soundly m (unwatches name) s = stop_watching-Soundly m name s
perform-Soundly m (sweeps is_running) s =
    release_all-Soundly (λ watcher. not (is_running watcher)) m.watchers m s

perform_all-Soundly :
    (m : WatcherManager) (calls : List Call) → IsSound m → Soundly (perform_all m calls)
unfolding perform_all
perform_all-Soundly m [] s = s
perform_all-Soundly m (c ∷ calls) s =
    next (perform m c) (perform-Soundly m c s) (λ m' s'. perform_all-Soundly m' calls s')
  where
    next :
        (o : Option WatcherManager)
        → Soundly o
        → ((m' : WatcherManager) → IsSound m' → Soundly (perform_all m' calls))
        → Soundly (and_then o (λ m'. perform_all m' calls))
    next none h g = absurd h
    next (some m') h g = g m' h

-- Whatever calls a new manager gets, one after the other, none of them waits for a slot for ever,
-- and afterwards the slots that are taken are as many as the channels that are watched, at most
-- 100, with one watcher for each.
pub perform_all-new_watcher_manager :
    (calls : List Call)
    → (m : WatcherManager) × (perform_all new_watcher_manager calls ≡ some m) × IsSound m
unfolding new_watcher_manager
perform_all-new_watcher_manager calls = sound_some (perform_all new_watcher_manager calls) (
    perform_all-Soundly new_watcher_manager calls
      (record { counted = refl; few = omega arith; keyed = tt }))
  where
    sound_some :
        (o : Option WatcherManager) → Soundly o → (m : WatcherManager) × (o ≡ some m) × IsSound m
    sound_some none h = absurd h
    sound_some (some m) h = (m, refl, h)
