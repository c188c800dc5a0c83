-- ===== src/Failures.antt =====
-- HandleStreamFailure of work/stream/stream.go, and GetSourceByURL of work/config/config.go. The
-- failure counter is the bit pattern of an int32. The time of the last failure is left out.
pub mod Threshold
mod Tests
use kptv_proxy.Prelude.{
  ℕ, ◌+◌, ◌%◌, ◌^◌, ◌≡◌, Bool, true, false, Option, none, some, List, [], ◌∷◌, leb, if◌then◌else◌,
}
use kptv_proxy.Text.{Text, codes, text_eq}
use kptv_proxy.Config.Profiles.{SourceConfig}
use kptv_proxy.Overrides.{Answers, Store, mark_stream_dead_by_hash}

-- Failures and Blocked of a Stream.
pub record Health : Type 0 where
  pub failures : ℕ
  pub blocked : Bool

-- a >= b on int32, from their bit patterns.
abbrev pub at_least32 : ℕ → ℕ → Bool
at_least32 a b = leb ((b + 2 ^ 31) % 2 ^ 32) ((a + 2 ^ 31) % 2 ^ 32)

abbrev pub stream_default_max_failures : ℕ
stream_default_max_failures = 5

unfoldable pub get_source_by_url : List SourceConfig → Text → Option SourceConfig
get_source_by_url [] url = none
get_source_by_url (s ∷ sources) url =
    if text_eq s.url url then some s else get_source_by_url sources url

-- The limit of the stream's source, or the default for a source that is gone.
unfoldable pub max_failures : List SourceConfig → Text → ℕ
max_failures sources url = elim (get_source_by_url sources url) [
  | none ↦ stream_default_max_failures
  | some s ↦ s.max_failures_before_block % 2 ^ 32
]

unfoldable pub handle_stream_failure :
    Answers → List SourceConfig → Text → Text → Text → Health → Store → Health × Store
handle_stream_failure a sources source_url channel_name url_hash health st =
    let failures = (health.failures + 1) % 2 ^ 32 in
    let marked = mark_stream_dead_by_hash a st channel_name url_hash (codes "auto_blocked") in
    if at_least32 failures (max_failures sources source_url)
    then (record { failures = failures; blocked = true }, marked.0)
    else (record health { failures = failures }, st)
