-- ===== src/Watcher/Choice.antt =====
-- findNextAvailableStream and triggerStreamSwitch of work/watcher/watcher.go. -1 is `none`. Whether
-- a stream is dead is what the dead streams answer for the channel and its hash.
use kptv_proxy.Prelude.{
  ℕ, zero, suc, ◌+◌, ◌-◌, ◌%◌, Bool, false, not, ◌&&◌, Option, none, some, List, length, get_elem?,
  ltb, leb, ◌==◌, lt32, if◌then◌else◌,
}

pub record ChannelStream : Type 0 where
  pub blocked : ℕ
  pub is_dead : Bool
  pub active_conns : ℕ
  pub max_connections : ℕ

-- MaxConnections is an int that is cut to an int32.
abbrev pub has_room : ChannelStream → Bool
has_room s = lt32 s.active_conns s.max_connections

abbrev pub is_available : ChannelStream → Bool
is_available s = not (s.blocked == 1) && not s.is_dead && has_room s

-- A place past the end would be a panic; there is none, as a remainder is below the length.
abbrev pub available_at : List ChannelStream → ℕ → Bool
available_at streams i = elim (get_elem? streams i) [ none ↦ false | some s ↦ is_available s ]

-- The loop, from the i-th stream after the current one, for as many as are left.
unfoldable pub search_from : List ChannelStream → ℕ → ℕ → ℕ → Option ℕ
search_from streams current i zero = none
search_from streams current i (suc left) =
    let next_index = (current + i) % length streams in
    let later = search_from streams current (i + 1) left in
    if available_at streams next_index then some next_index else later

unfoldable pub find_next_available_stream : List ChannelStream → ℕ → Option ℕ
find_next_available_stream streams current =
    if leb (length streams) 1 then none else search_from streams current 1 (length streams - 1)

-- What is tested again when the switch is made: not dead streams, and any value of Blocked but 0.
unfoldable pub still_valid : List ChannelStream → ℕ → Bool
still_valid streams i = elim (get_elem? streams i) [
  | none ↦ false
  | some s ↦ s.blocked == 0 && has_room s
]

-- The index that the stream is forced to restart at, if it is.
unfoldable pub trigger_stream_switch : List ChannelStream → List ChannelStream → ℕ → ℕ → Option ℕ
trigger_stream_switch streams streams_later current clients =
    elim (find_next_available_stream streams current) [
      | none ↦ none
      | some i ↦ if still_valid streams_later i && ltb 0 clients then some i else none
    ]
