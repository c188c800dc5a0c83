-- ===== src/Watcher/Manager.antt =====
-- WatcherManager of work/watcher/watcher.go: the registry of watchers and the slots of the semaphore.
-- A watcher is a number. One call runs at a time, and `none` is a call that waits for ever, on a
-- receive from an empty semaphore. The walks of cleanupRoutine and Stop see the registry as it was
-- when they began.
use kptv_proxy.Prelude.{
  ℕ, ◌+◌, ◌-◌, Bool, true, false, not, Option, none, some, List, [], ◌∷◌, leb, ◌==◌, if◌then◌else◌,
}
use kptv_proxy.Text.{Text}
use kptv_proxy.Text.Maps.{TextMap, lookup, insert, delete}

abbrev pub watcher_max_concurrent : ℕ
watcher_max_concurrent = 100

-- `slots` is how many places of the semaphore are taken. The source's semaphore belongs to the
-- package; there is one manager, made by New of proxy/stream.go, so that its places stand with the manager.
-- `cancelled` are the watchers whose Stop was called, the latest first.
pub record WatcherManager : Type 0 where
  pub watchers : TextMap ℕ
  pub slots : ℕ
  pub enabled : Bool
  pub cancelled : List ℕ

unfoldable pub new_watcher_manager : WatcherManager
new_watcher_manager = record { watchers = []; slots = 0; enabled = false; cancelled = [] }

abbrev pub start : WatcherManager → WatcherManager
start m = record m { enabled = true }

-- A receive from the semaphore.
abbrev pub receive : WatcherManager → Option WatcherManager
receive m = if m.slots == 0 then none else some (record m { slots = m.slots - 1 })

-- LoadAndDelete, and if there was a watcher, its Stop and the release of its slot.
abbrev pub release : WatcherManager → Text → Option ℕ → Option WatcherManager
release m name none = some m
release m name (some watcher) =
    receive (record m { watchers = delete name m.watchers; cancelled = watcher ∷ m.cancelled })

unfoldable pub stop_watching : WatcherManager → Text → Option WatcherManager
stop_watching m name = release m name (lookup name m.watchers)

abbrev pub store : Text → ℕ → Option WatcherManager → Option WatcherManager
store name watcher none = none
store name watcher (some m) = some (record m { watchers = insert name watcher m.watchers })

unfoldable pub start_watching : WatcherManager → Text → ℕ → Option WatcherManager
start_watching m name watcher =
    if leb watcher_max_concurrent m.slots
    then some m
    else store name watcher
        (release (record m { slots = m.slots + 1 }) name (lookup name m.watchers))

unfoldable pub is_watching : WatcherManager → Text → Bool
is_watching m name = elim (lookup name m.watchers) [ none ↦ false | some watcher ↦ true ]

abbrev pub and_then :
    Option WatcherManager → (WatcherManager → Option WatcherManager) → Option WatcherManager
and_then none next = none
and_then (some m) next = next m

-- A walk over the registry that stops the watchers that a test chooses.
unfoldable pub release_all : (ℕ → Bool) → TextMap ℕ → WatcherManager → Option WatcherManager
release_all chosen [] m = some m
release_all chosen ((name, watcher) ∷ entries) m =
    if chosen watcher
    then and_then (stop_watching m name) (λ m'. release_all chosen entries m')
    else release_all chosen entries m

-- One tick of cleanupRoutine.
unfoldable pub cleanup : (ℕ → Bool) → WatcherManager → Option WatcherManager
cleanup is_running m = release_all (λ watcher. not (is_running watcher)) m.watchers m

unfoldable pub stop : WatcherManager → Option WatcherManager
stop m =
    if not m.enabled
    then some m
    else release_all (λ watcher. true) m.watchers (record m { enabled = false })
