-- ===== src/Filter/ReportLaws.antt =====
-- The counts of a report: by group, by type and in all.
use kptv_proxy.Prelude.{ℕ, ◌+◌, ◌≡◌, refl, ◌∙◌, Bool, map, [], ◌∷◌, arith}
use kptv_proxy.Text.{Text}
use kptv_proxy.Text.Maps.{TextMap, lookup, insert}
use kptv_proxy.Text.Order.{insert_sorted, sort_stable}
use kptv_proxy.Filter.Report.{
  Report, GroupStat, TypeStat, new_group, no_streams, observe, observe_group, observe_type, finish,
  entry_or, settle_group, dominant, group_less, new_report,
}

-- A number summed over a map.
abbrev pub sum_of : {V : Type 0} → (V → ℕ) → TextMap V → ℕ
sum_of f [] = 0
sum_of f ((k, v) ∷ m) = f v + sum_of f m

-- Writing an entry changes the sum by the difference between the new entry and the one that was
-- there.
sum_of-insert :
    {V : Type 0} (f : V → ℕ) (fresh : V) (k : Text) (v : V) (m : TextMap V)
    → f fresh ≡ 0
    → sum_of f (insert k v m) + f (entry_or fresh (lookup k m)) ≡ sum_of f m + f v
unfolding insert lookup
sum_of-insert f fresh k v [] z = omega (arith)
sum_of-insert f fresh k v ((j, w) ∷ m) z = ground (arith, sum_of-insert f fresh k v m z)

-- What a report counts, in all, by group and by type.
pub record AddsUp (r : Report) : Type 0 where
  pub groups_total : sum_of (λ (g : GroupStat). g.total) r.groups ≡ r.total
  pub groups_kept : sum_of (λ (g : GroupStat). g.kept) r.groups ≡ r.kept
  pub types_total : sum_of (λ (t : TypeStat). t.total) r.by_type ≡ r.total
  pub types_kept : sum_of (λ (t : TypeStat). t.kept) r.by_type ≡ r.kept

pub observe-AddsUp :
    (r : Report) (group key content_type name : Text) (kept : Bool)
    → AddsUp r
    → AddsUp (observe r group key content_type name kept)
unfolding observe observe_group
observe-AddsUp r group key content_type name kept v = record {
  groups_total = omega (
    arith,
    v.groups_total,
    sum_of-insert (λ (g : GroupStat). g.total) (new_group group) key seen r.groups refl,
  );
  groups_kept = ground (
    arith,
    v.groups_kept,
    sum_of-insert (λ (g : GroupStat). g.kept) (new_group group) key seen r.groups refl,
  );
  types_total = omega (
    arith,
    v.types_total,
    sum_of-insert (λ (t : TypeStat). t.total) no_streams content_type counted r.by_type refl,
  );
  types_kept = ground (
    arith,
    v.types_kept,
    sum_of-insert (λ (t : TypeStat). t.kept) no_streams content_type counted r.by_type refl,
  );
}
  where
    seen : GroupStat
    seen = observe_group (entry_or (new_group group) (lookup key r.groups)) content_type name kept

    counted : TypeStat
    counted = observe_type (entry_or no_streams (lookup content_type r.by_type)) kept

sum_of-settle :
    (f : GroupStat → ℕ) (groups : TextMap GroupStat)
    → ((g : GroupStat) (t : Text) → f (record g { content_type = t }) ≡ f g)
    → sum_of f (map settle_group groups) ≡ sum_of f groups
sum_of-settle f [] h = refl
sum_of-settle f ((k, g) ∷ groups) h = cc (h g (dominant g.type_counts), sum_of-settle f groups h)

sum_of-insert_sorted :
    {V : Type 0} (f : V → ℕ) (less : Text × V → Text × V → Bool) (k : Text) (v : V) (m : TextMap V)
    → sum_of f (insert_sorted less (k, v) m) ≡ f v + sum_of f m
unfolding insert_sorted
sum_of-insert_sorted f less k v [] = refl
sum_of-insert_sorted f less k v ((j, w) ∷ m) = ground (arith, sum_of-insert_sorted f less k v m)

sum_of-sort_stable :
    {V : Type 0} (f : V → ℕ) (less : Text × V → Text × V → Bool) (m : TextMap V)
    → sum_of f (sort_stable less m) ≡ sum_of f m
unfolding sort_stable
sum_of-sort_stable f less [] = refl
sum_of-sort_stable f less ((k, v) ∷ m) =
    omega (arith, sum_of-sort_stable f less m, sum_of-insert_sorted f less k v (sort_stable less m))

pub finish-AddsUp : (r : Report) → AddsUp r → AddsUp (finish r)
unfolding finish
finish-AddsUp r v = record {
  groups_total =
      sum_of-sort_stable (λ (g : GroupStat). g.total) group_less (map settle_group r.groups)
      ∙ sum_of-settle (λ (g : GroupStat). g.total) r.groups (λ g t. refl)
      ∙ v.groups_total;
  groups_kept =
      sum_of-sort_stable (λ (g : GroupStat). g.kept) group_less (map settle_group r.groups)
      ∙ sum_of-settle (λ (g : GroupStat). g.kept) r.groups (λ g t. refl)
      ∙ v.groups_kept;
  types_total = v.types_total;
  types_kept = v.types_kept;
}

pub new_report-AddsUp : AddsUp new_report
unfolding new_report
new_report-AddsUp = record {
  groups_total = refl;
  groups_kept = refl;
  types_total = refl;
  types_kept = refl;
}
