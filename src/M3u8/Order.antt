-- ===== src/M3u8/Order.antt =====
-- SortStreams of work/parser/m3u8.go: the streams of a channel in the order of playback. A number of
-- type int is the bit pattern of an int64.
pub mod Counts
pub mod Playback
use kptv_proxy.Prelude.{
  ℕ, suc, ◌+◌, Bool, true, false, not, ◌&&◌, ◌||◌, Option, none, some, List, [], ◌∷◌, ◌++◌, lt64,
  same64, if◌then◌else◌,
}
use kptv_proxy.Text.{Text, codes, text_eq, contains}
use kptv_proxy.Text.Maps.{TextMap, lookup}
use kptv_proxy.Text.Order.{text_lt, sort_stable}
use kptv_proxy.M3u8.Fallback.{get, found}

-- The parts of types.Stream that the order reads; `source_order` is its source's.
pub record OrderedStream : Type 0 where
  pub url_hash : Text
  pub attributes : TextMap Text
  pub import_order : ℕ
  pub source_order : ℕ

pub record SortSettings : Type 0 where
  pub sort_field : Text
  pub sort_direction : Text

unfoldable pub precedes : SortSettings → OrderedStream → OrderedStream → Bool
precedes cfg s1 s2 =
    if not (same64 s1.source_order s2.source_order)
    then lt64 s1.source_order s2.source_order
    else if text_eq cfg.sort_field (codes "preserve-order")
    then lt64 s1.import_order s2.import_order
    else if text_eq cfg.sort_direction (codes "desc")
    then text_lt (get s2.attributes cfg.sort_field) (get s1.attributes cfg.sort_field)
    else text_lt (get s1.attributes cfg.sort_field) (get s2.attributes cfg.sort_field)

-- The first stream of each hash.
unfoldable pub dedupe : List Text → List OrderedStream → List OrderedStream
dedupe seen [] = []
dedupe seen (s ∷ streams) =
    let dropped = dedupe seen streams in
    let kept = dedupe (s.url_hash ∷ seen) streams in
    if contains seen s.url_hash then dropped else s ∷ kept

abbrev pub ranks : TextMap (TextMap ℕ) → Text → TextMap ℕ
ranks all_orders channel_name = elim (lookup channel_name all_orders) [
  | none ↦ []
  | some order ↦ order
]

abbrev pub is_ranked : TextMap ℕ → OrderedStream → Bool
is_ranked order s = elim (lookup s.url_hash order) [ none ↦ false | some rank ↦ true ]

abbrev pub rank_of : TextMap ℕ → OrderedStream → ℕ
rank_of order s = elim (lookup s.url_hash order) [ none ↦ 0 | some rank ↦ rank ]

abbrev pub ranked_before : TextMap ℕ → OrderedStream → OrderedStream → Bool
ranked_before order s1 s2 = lt64 (rank_of order s1) (rank_of order s2)

abbrev pub select : (OrderedStream → Bool) → List OrderedStream → List OrderedStream
select p [] = []
select p (s ∷ streams) = let rest = select p streams in if p s then s ∷ rest else rest

unfoldable pub apply_order : TextMap ℕ → List OrderedStream → List OrderedStream
apply_order [] deduped = deduped
apply_order (entry ∷ order) deduped =
    sort_stable (ranked_before (entry ∷ order)) (select (is_ranked (entry ∷ order)) deduped)
    ++ select (λ s. not (is_ranked (entry ∷ order) s)) deduped

unfoldable pub sort_streams :
    SortSettings → Text → TextMap (TextMap ℕ) → List OrderedStream → List OrderedStream
sort_streams cfg channel_name all_orders [] = []
sort_streams cfg channel_name all_orders (s ∷ streams) =
    apply_order (ranks all_orders channel_name)
      (dedupe [] (sort_stable (precedes cfg) (s ∷ streams)))
