-- ===== src/Watcher/Stopped.antt =====
-- The registry after Stop.
use kptv_proxy.Prelude.{
  ℕ, suc, ◌≡◌, refl, inl, inr, Bool-cases, ap, ◌∙◌, Bool, true, false, not, none, some, List, [],
  ◌∷◌, length, ◌==◌, if◌then◌else◌, arith,
}
use kptv_proxy.Text.{Text}
use kptv_proxy.Text.Equality.{text_eq_refl}
use kptv_proxy.Text.Maps.{TextMap, lookup, delete}
use kptv_proxy.Watcher.Manager.{
  WatcherManager, receive, release, stop_watching, and_then, release_all, stop,
}
use kptv_proxy.Watcher.Slots.{AreKeyed, IsSound, delete_absent}

-- The watchers of a registry, put before others in the order of their cancellation.
abbrev pub cancel_all : TextMap ℕ → List ℕ → List ℕ
cancel_all [] cancelled = cancelled
cancel_all ((name, w) ∷ entries) cancelled = cancel_all entries (w ∷ cancelled)

abbrev pub manager : TextMap ℕ → ℕ → Bool → List ℕ → WatcherManager
manager watchers slots enabled cancelled = record {
  watchers = watchers;
  slots = slots;
  enabled = enabled;
  cancelled = cancelled;
}

received :
    (m : WatcherManager) (n : ℕ) → m.slots ≡ suc n → receive m ≡ some (record m { slots = n })
received m n e = elim (Bool-cases (m.slots == 0)) [
  | inl z ↦ absurd (ground (arith, z, e))
  | inr z ↦ rw z (ap (λ k. some (record m { slots = k })) (omega (arith, e)))
]

stop_first :
    (name : Text) (w n : ℕ) (entries : TextMap ℕ) (enabled : Bool) (cancelled : List ℕ)
    → lookup name entries ≡ none
    → stop_watching (manager ((name, w) ∷ entries) (suc n) enabled cancelled) name
      ≡ some (manager entries n enabled (w ∷ cancelled))
unfolding stop_watching
stop_first name w n entries enabled cancelled e =
    ap (release (manager ((name, w) ∷ entries) (suc n) enabled cancelled) name) found
    ∙ ap (λ r. receive (manager r (suc n) enabled (w ∷ cancelled))) gone
    ∙ received (manager entries (suc n) enabled (w ∷ cancelled)) n refl
  where
    found : lookup name ((name, w) ∷ entries) ≡ some w
    found = unfold lookup in ground (arith, text_eq_refl name)

    gone : delete name ((name, w) ∷ entries) ≡ entries
    gone = unfold delete in ground (arith, text_eq_refl name, delete_absent name entries e)

release_all_lem :
    (entries : TextMap ℕ) (n : ℕ) (enabled : Bool) (cancelled : List ℕ)
    → AreKeyed entries
    → n ≡ length entries
    → release_all (λ watcher. true) entries (manager entries n enabled cancelled)
      ≡ some (manager [] 0 enabled (cancel_all entries cancelled))
unfolding release_all
release_all_lem [] n enabled cancelled a e = ap (λ k. some (manager [] k enabled cancelled)) e
release_all_lem ((name, w) ∷ entries) n enabled cancelled a e =
    ap
      (λ k.
        and_then (stop_watching (manager ((name, w) ∷ entries) k enabled cancelled) name)
          (λ m'. release_all (λ watcher. true) entries m'))
      e
    ∙ ap (λ o. and_then o (λ m'. release_all (λ watcher. true) entries m'))
        (stop_first name w (length entries) entries enabled cancelled a.0)
    ∙ release_all_lem entries (length entries) enabled (w ∷ cancelled) a.1 refl

-- Stop of a watcher manager that is enabled, with a slot taken for each watcher and one watcher for
-- each name, does not wait for ever: it cancels every registered watcher and leaves an empty
-- registry, no slot taken and the manager disabled.
pub stop_lem :
    (m : WatcherManager)
    → IsSound m
    → m.enabled ≡ true
    → stop m ≡ some (manager [] 0 false (cancel_all m.watchers m.cancelled))
unfolding stop
stop_lem m s e =
    ap
      (λ b.
        if not b
        then some m
        else release_all (λ watcher. true) m.watchers (record m { enabled = false }))
      e
    ∙ release_all_lem m.watchers m.slots false m.cancelled s.keyed s.counted
