-- ===== src/Filter/Report.antt =====
-- work/filter/report.go: the record of one pass over a catalog. The slice of groups and the map of
-- the same pointers are one association list here, in the order of first appearance.
use kptv_proxy.Prelude.{
  ℕ, zero, suc, ◌+◌, Bool, not, Option, none, some, List, [], ◌∷◌, ◌++◌, map, length, replicate,
  ltb, ◌==◌, if◌then◌else◌,
}
use kptv_proxy.Text.{Text, text_eq}
use kptv_proxy.Text.Maps.{TextMap, lookup, insert}
use kptv_proxy.Text.Order.{text_lt, sort_stable}
use kptv_proxy.Config.Rules.{Regexps, FilterRule, default_drop}
use kptv_proxy.Filter.Types.{
  Stream, CompiledRule, CompiledFilter, content_live, content_vod, content_series,
}
use kptv_proxy.Filter.Rules.{Decision, rule_verdict}
use kptv_proxy.Filter.Quality.{Stage}

abbrev pub max_group_samples : ℕ
max_group_samples = 3

abbrev pub max_kept_samples : ℕ
max_kept_samples = 40

pub record TypeStat : Type 0 where
  pub total : ℕ
  pub kept : ℕ

pub record GroupStat : Type 0 where
  pub name : Text
  pub content_type : Text
  pub total : ℕ
  pub kept : ℕ
  pub samples : List Text
  pub type_counts : TextMap ℕ

pub record RuleStat : Type 0 where
  pub index : ℕ
  pub origin : Text
  pub rule : FilterRule
  pub matched : ℕ
  pub decided : ℕ

pub record Verdict : Type 0 where
  pub name : Text
  pub group_name : Text
  pub content_type : Text
  pub kept : Bool
  pub stage : Stage
  pub rule_index : ℕ

-- `matched` is nil unless the counts were asked for.
pub record Report : Type 0 where
  pub total : ℕ
  pub kept : ℕ
  pub by_type : TextMap TypeStat
  pub groups : TextMap GroupStat
  pub kept_samples : List Text
  pub rules : List RuleStat
  pub default_action : Text
  pub default_decided : ℕ
  pub quality_dropped : ℕ
  pub verdicts : List Verdict
  pub matched : Option (List ℕ)

abbrev pub no_streams : TypeStat
no_streams = record { total = 0; kept = 0 }

unfoldable pub new_report : Report
new_report = record {
  total = 0;
  kept = 0;
  by_type =
      (content_live, no_streams) ∷ (content_vod, no_streams) ∷ (content_series, no_streams) ∷ [];
  groups = [];
  kept_samples = [];
  rules = [];
  default_action = [];
  default_decided = 0;
  quality_dropped = 0;
  verdicts = [];
  matched = none;
}

-- The entry of a key, or a new one.
abbrev pub entry_or : {V : Type 0} → V → Option V → V
entry_or fresh none = fresh
entry_or fresh (some v) = v

abbrev pub bump : Bool → ℕ → ℕ
bump b n = if b then n + 1 else n

abbrev pub new_group : Text → GroupStat
new_group name = record {
  name = name;
  content_type = [];
  total = 0;
  kept = 0;
  samples = [];
  type_counts = [];
}

-- A sample is kept while there are fewer than `limit`.
abbrev pub add_sample : ℕ → List Text → Text → List Text
add_sample limit samples name = if ltb (length samples) limit then samples ++ name ∷ [] else samples

unfoldable pub observe_group : GroupStat → Text → Text → Bool → GroupStat
observe_group g content_type name kept = record g {
  total = g.total + 1;
  kept = bump kept g.kept;
  samples = add_sample max_group_samples g.samples name;
  type_counts =
      insert content_type (entry_or 0 (lookup content_type g.type_counts) + 1) g.type_counts;
}

abbrev pub observe_type : TypeStat → Bool → TypeStat
observe_type t kept = record { total = t.total + 1; kept = bump kept t.kept }

unfoldable pub observe : Report → Text → Text → Text → Text → Bool → Report
observe r group key content_type name kept = record r {
  total = r.total + 1;
  kept = bump kept r.kept;
  by_type =
      insert content_type (observe_type (entry_or no_streams (lookup content_type r.by_type)) kept)
        r.by_type;
  groups =
      insert key
        (observe_group (entry_or (new_group group) (lookup key r.groups)) content_type name kept)
        r.groups;
  kept_samples = if kept then add_sample max_kept_samples r.kept_samples name else r.kept_samples;
}

-- decided++ of one rule.
unfoldable pub decide_at : ℕ → List RuleStat → List RuleStat
decide_at i [] = []
decide_at zero (s ∷ stats) = record s { decided = s.decided + 1 } ∷ stats
decide_at (suc i) (s ∷ stats) = s ∷ decide_at i stats

-- The type with the most streams; a tie goes to the one that is listed first.
unfoldable pub dominant : TextMap ℕ → Text
dominant counts =
    let live = entry_or 0 (lookup content_live counts) in
    let vod = entry_or 0 (lookup content_vod counts) in
    let series = entry_or 0 (lookup content_series counts) in
    if ltb live vod
    then (if ltb vod series then content_series else content_vod)
    else (if ltb live series then content_series else content_live)

unfoldable pub group_less : Text × GroupStat → Text × GroupStat → Bool
group_less (_, a) (_, b) = if a.total == b.total then text_lt a.name b.name else ltb b.total a.total

unfoldable pub set_matched : List ℕ → List RuleStat → List RuleStat
set_matched ns [] = []
set_matched [] (s ∷ stats) = s ∷ stats
set_matched (n ∷ ns) (s ∷ stats) = record s { matched = n } ∷ set_matched ns stats

abbrev pub settle_group : Text × GroupStat → Text × GroupStat
settle_group (key, g) = (key, record g { content_type = dominant g.type_counts })

abbrev pub match_decided : RuleStat → RuleStat
match_decided s = record s { matched = s.decided }

unfoldable pub finish : Report → Report
finish r = record r {
  groups = sort_stable group_less (map settle_group r.groups);
  rules = elim r.matched [ none ↦ map match_decided r.rules | some ns ↦ set_matched ns r.rules ];
}

module _ (lib : Regexps) where
  open lib use {Regexp}

  unfoldable pub start_from : ℕ → List (CompiledRule Regexp) → List RuleStat
  start_from i [] = []
  start_from i (rule ∷ rules) =
      record { index = i; origin = rule.origin; rule = rule.rule; matched = 0; decided = 0 }
      ∷ start_from (suc i) rules

  unfoldable pub start_rules : Report → CompiledFilter Regexp → Bool → Report
  start_rules r f with_stats = record r {
    default_action = f.rule_default;
    rules = start_from 1 f.rules;
    matched =
        if with_stats
        then elim f.rules [ [] ↦ none | rule ∷ rules ↦ some (replicate (length f.rules) 0) ]
        else none;
  }

  -- Whether the default keeps a stream.
  abbrev pub default_keeps : CompiledFilter Regexp → Bool
  default_keeps f = not (text_eq f.rule_default default_drop)

  abbrev pub counts_of : Option (List ℕ) → List ℕ
  counts_of none = []
  counts_of (some ns) = ns

  abbrev pub put_counts : Option (List ℕ) → List ℕ → Option (List ℕ)
  put_counts none ns = none
  put_counts (some _) ns = some ns

  unfoldable pub settle : Report → CompiledFilter Regexp → Decision → Report × Bool × Option ℕ
  settle r f d = elim d.decided_by [
    | none ↦ (record r { default_decided = r.default_decided + 1 }, default_keeps f, none)
    | some i ↦ (record r { rules = decide_at i r.rules }, d.keep, some i)
  ]

  unfoldable pub observe_with :
      List (CompiledRule Regexp)
      → Report
      → CompiledFilter Regexp
      → Stream
      → Text
      → Bool
      → Report × Bool × Option ℕ
  observe_with [] r f stream group with_stats = (r, default_keeps f, none)
  observe_with (rule ∷ rules) r f stream group with_stats =
      let (d, ns) = rule_verdict lib stream group with_stats (rule ∷ rules) (counts_of r.matched) in
      settle (record r { matched = put_counts r.matched ns }) f d

  -- observeRules: the new report, whether the rules keep the stream, and the deciding rule's index.
  unfoldable pub observe_rules :
      Report → CompiledFilter Regexp → Stream → Text → Bool → Report × Bool × Option ℕ
  unfolding observe_with
  observe_rules r f stream group with_stats = observe_with f.rules r f stream group with_stats
