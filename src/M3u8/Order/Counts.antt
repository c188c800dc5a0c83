-- ===== src/M3u8/Order/Counts.antt =====
-- How often a hash occurs among the streams of a channel.
use kptv_proxy.Prelude.{
  ℕ, suc, ◌+◌, min, ◌≡◌, refl, ap, ◌∙◌, Bool, not, List, [], ◌∷◌, ◌++◌, if◌then◌else◌, arith,
}
use kptv_proxy.Text.{Text, text_eq, contains}
use kptv_proxy.Text.Equality.{text_eq→eq}
use kptv_proxy.Text.Maps.{TextMap}
use kptv_proxy.Text.Order.{insert_sorted, sort_stable}
use kptv_proxy.M3u8.Order.{
  OrderedStream, SortSettings, precedes, dedupe, ranks, is_ranked, ranked_before, select,
  apply_order, sort_streams,
}

abbrev pub count : Text → List OrderedStream → ℕ
count h [] = 0
count h (s ∷ streams) = if text_eq s.url_hash h then suc (count h streams) else count h streams

count-append :
    (h : Text) (xs ys : List OrderedStream) → count h (xs ++ ys) ≡ count h xs + count h ys
count-append h [] ys = omega arith
count-append h (x ∷ xs) ys = ground (arith, count-append h xs ys)

count-insert_sorted :
    (less : OrderedStream → OrderedStream → Bool) (h : Text) (x : OrderedStream)
    (ys : List OrderedStream)
    → count h (insert_sorted less x ys) ≡ count h (x ∷ ys)
unfolding insert_sorted
count-insert_sorted less h x [] = refl
count-insert_sorted less h x (y ∷ ys) = ground (arith, count-insert_sorted less h x ys)

count-sort_stable :
    (less : OrderedStream → OrderedStream → Bool) (h : Text) (xs : List OrderedStream)
    → count h (sort_stable less xs) ≡ count h xs
unfolding sort_stable
count-sort_stable less h [] = refl
count-sort_stable less h (x ∷ xs) =
    ground (arith, count-insert_sorted less h x (sort_stable less xs), count-sort_stable less h xs)

count_split :
    (p : OrderedStream → Bool) (h : Text) (xs : List OrderedStream)
    → count h (select p xs) + count h (select (λ s. not (p s)) xs) ≡ count h xs
count_split p h [] = omega arith
count_split p h (x ∷ xs) = ground (arith, count_split p h xs)

count-dedupe :
    (h : Text) (seen : List Text) (xs : List OrderedStream)
    → count h (dedupe seen xs) ≡ (if contains seen h then 0 else min 1 (count h xs))
unfolding dedupe contains
count-dedupe h seen [] = ground arith
count-dedupe h seen (x ∷ xs) =
    ground (
      arith,
      count-dedupe h seen xs,
      count-dedupe h (x.url_hash ∷ seen) xs,
      text_eq→eq x.url_hash h,
    )

count-apply_order :
    (order : TextMap ℕ) (h : Text) (xs : List OrderedStream)
    → count h (apply_order order xs) ≡ count h xs
unfolding apply_order
count-apply_order [] h xs = refl
count-apply_order (entry ∷ order) h xs =
    count-append h
      (sort_stable (ranked_before (entry ∷ order)) (select (is_ranked (entry ∷ order)) xs))
      (select (λ s. not (is_ranked (entry ∷ order) s)) xs)
    ∙ ap (λ n. n + count h (select (λ s. not (is_ranked (entry ∷ order) s)) xs))
        (count-sort_stable (ranked_before (entry ∷ order)) h
          (select (is_ranked (entry ∷ order)) xs))
    ∙ count_split (is_ranked (entry ∷ order)) h xs

-- Whatever the settings and the custom order, each hash of the input occurs exactly once among the
-- sorted streams, and no other hash does.
pub count-sort_streams :
    (cfg : SortSettings) (channel_name : Text) (all_orders : TextMap (TextMap ℕ))
    (streams : List OrderedStream) (h : Text)
    → count h (sort_streams cfg channel_name all_orders streams) ≡ min 1 (count h streams)
unfolding sort_streams
count-sort_streams cfg channel_name all_orders [] h = omega arith
count-sort_streams cfg channel_name all_orders (s ∷ streams) h =
    count-apply_order (ranks all_orders channel_name) h
      (dedupe [] (sort_stable (precedes cfg) (s ∷ streams)))
    ∙ count-dedupe h [] (sort_stable (precedes cfg) (s ∷ streams))
    ∙ unfold contains in ap (min 1) (count-sort_stable (precedes cfg) h (s ∷ streams))
