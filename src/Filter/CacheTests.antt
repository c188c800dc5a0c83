-- ===== src/Filter/CacheTests.antt =====
-- The cache of compiled filters on concrete settings.
use kptv_proxy.Prelude.{ℕ, ◌≡◌, refl, Bool, true, not, ◌&&◌, none, List, [], ◌∷◌, map, ◌==◌, arith}
use kptv_proxy.Text.{Text, codes, is_empty, join}
use kptv_proxy.Text.Ascii.{ascii}
use kptv_proxy.Text.Order.{sort_stable, insert_sorted, text_lt}
use kptv_proxy.Text.Split.{Lacks, AllLack, AreItems}
use kptv_proxy.Config.Rules.{FilterRule, field_name, action_include, default_drop}
use kptv_proxy.Config.Profiles.{SourceConfig, resolve_rules}
use kptv_proxy.Config.Literals.{literals}
use kptv_proxy.Filter.Compile.{
  override_line, sign_rules, signature_parts, build_filter, get_or_create_filter,
}
use kptv_proxy.Filter.Signature.{bar, IsClean, without_notes}
use kptv_proxy.Filter.Cache.{CacheCall, creates, clears, removes, run, get_or_create_filter-run}

abbrev rule : FilterRule
rule = record {
  field = field_name;
  action = action_include;
  pattern_text = codes "HD|SD";
  note = codes "kept";
}

abbrev settings : SourceConfig
settings = record {
  name = codes "A";
  url = codes "http://x";
  max_failures_before_block = 5;
  live_include_regex = codes "one";
  live_exclude_regex = [];
  series_include_regex = [];
  series_exclude_regex = [];
  vod_include_regex = [];
  vod_exclude_regex = [];
  live_category_regex = [];
  vod_category_regex = [];
  series_category_regex = [];
  group_filter_mode = codes "include";
  group_filter_list = codes "News" ∷ codes "Kids" ∷ [];
  group_filter_regex = [];
  import_types = codes "live" ∷ [];
  group_type_overrides = (codes "Films", codes "vod") ∷ (codes "News", codes "live") ∷ [];
  filter_profile = [];
  filter_rules = rule ∷ [];
  filter_default = [];
  quality_dedupe = true;
  quality_tiers = codes "hd" ∷ codes "sd" ∷ [];
}

-- The same source with another default.
abbrev dropping : SourceConfig
dropping = record settings { filter_default = default_drop }

abbrev lacks : ℕ → Text → Bool
lacks c [] = true
lacks c (d ∷ s) = not (d == c) && lacks c s

lacks-Lacks : (c : ℕ) (s : Text) → lacks c s ≡ true → Lacks c s
lacks-Lacks c [] e = tt
lacks-Lacks c (d ∷ s) e = (ground (arith, e), lacks-Lacks c s (ground (arith, e)))

abbrev all_lack : ℕ → List Text → Bool
all_lack c [] = true
all_lack c (s ∷ ss) = lacks c s && all_lack c ss

all_lack-AllLack : (c : ℕ) (ss : List Text) → all_lack c ss ≡ true → AllLack c ss
all_lack-AllLack c [] e = tt
all_lack-AllLack c (s ∷ ss) e =
    (lacks-Lacks c s (ground (arith, e)), all_lack-AllLack c ss (ground (arith, e)))

abbrev are_items : ℕ → List Text → Bool
are_items c [] = true
are_items c (s ∷ ss) = not (is_empty s) && (lacks c s && are_items c ss)

are_items-AreItems : (c : ℕ) (ss : List Text) → are_items c ss ≡ true → AreItems c ss
are_items-AreItems c [] e = tt
are_items-AreItems c (s ∷ ss) e = (
  ground (arith, e),
  lacks-Lacks c s (ground (arith, e)),
  are_items-AreItems c ss (ground (arith, e)),
)

settings-IsClean : IsClean settings none
unfolding resolve_rules join sort_stable insert_sorted text_lt
settings-IsClean = record {
  parts = all_lack-AllLack 0 (signature_parts settings (resolve_rules settings none)) refl;
  rule_parts =
      all_lack-AllLack 2
        ((resolve_rules settings none).def
          ∷ sign_rules (resolve_rules settings none).rules (resolve_rules settings none).origins)
        refl;
  fields = (lacks-Lacks bar rule.field refl, lacks-Lacks bar rule.action refl, tt);
  origins = all_lack-AllLack bar (resolve_rules settings none).origins refl;
  groups = are_items-AreItems 1 settings.group_filter_list refl;
  types = are_items-AreItems 1 settings.import_types refl;
  tiers = are_items-AreItems 1 settings.quality_tiers refl;
  overrides = are_items-AreItems 1 (map override_line settings.group_type_overrides) refl;
  override_keys = (lacks-Lacks 61 (codes "Films") refl, (lacks-Lacks 61 (codes "News") refl, tt));
  in_order = refl;
}

dropping-IsClean : IsClean dropping none
unfolding resolve_rules join sort_stable insert_sorted text_lt
dropping-IsClean = record {
  parts = all_lack-AllLack 0 (signature_parts dropping (resolve_rules dropping none)) refl;
  rule_parts =
      all_lack-AllLack 2
        ((resolve_rules dropping none).def
          ∷ sign_rules (resolve_rules dropping none).rules (resolve_rules dropping none).origins)
        refl;
  fields = (lacks-Lacks bar rule.field refl, lacks-Lacks bar rule.action refl, tt);
  origins = all_lack-AllLack bar (resolve_rules dropping none).origins refl;
  groups = are_items-AreItems 1 settings.group_filter_list refl;
  types = are_items-AreItems 1 settings.import_types refl;
  tiers = are_items-AreItems 1 settings.quality_tiers refl;
  overrides = are_items-AreItems 1 (map override_line settings.group_type_overrides) refl;
  override_keys = (lacks-Lacks 61 (codes "Films") refl, (lacks-Lacks 61 (codes "News") refl, tt));
  in_order = refl;
}

-- A source that is compiled, changed, and changed back.
abbrev calls : List CacheCall
calls = creates settings none ∷ removes (codes "http://y") ∷ clears ∷ creates dropping none ∷ []

get_or_create_filter-run_example :
    without_notes
      (get_or_create_filter ascii literals (run ascii literals [] calls) settings none).1
    ≡ without_notes (build_filter ascii literals settings (resolve_rules settings none))
get_or_create_filter-run_example =
    get_or_create_filter-run ascii literals calls settings none
      (settings-IsClean, (dropping-IsClean, tt)) settings-IsClean
