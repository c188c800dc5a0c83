-- ===== src/Config/Tests.antt =====
-- A save of filter rules and of group labels, and the theorems on them, at concrete inputs.
use kptv_proxy.Prelude.{◌≡◌, refl, ◌↔◌, List, [], ◌∷◌, map, length, ◌≤◌}
use kptv_proxy.Text.{
  Text, codes, contains, to_lower, fields, text_eq, has_prefix, trim_space, trim_left, trim_right,
  is_space, words, join,
}
use kptv_proxy.Text.Ascii.{ascii}
use kptv_proxy.Config.Rules.{
  FilterRule, accepted, refused, bad_field, tidy_rule, check_rule, normalize_from, normalize_rules,
  max_filter_rules, compile_filter_pattern,
}
use kptv_proxy.Config.RuleLaws.{
  with_patterns, AllAcceptable, normalize_rules_iff, normalize_rules_idem,
}
use kptv_proxy.Config.Groups.{
  group_key, group_key_idem, group_key_iff, dedupe_from, dedupe_groups, dedupe_groups_lem, keys,
  DistinctFrom,
}
use kptv_proxy.Config.Literals.{literals}

abbrev typed : List FilterRule
typed =
    record {
      field = codes " Name ";
      action = codes "EXCLUDE";
      pattern_text = codes "adult";
      note = codes " n ";
    }
    ∷ record { field = []; action = []; pattern_text = []; note = [] }
    ∷ record { field = []; action = []; pattern_text = codes "news"; note = [] }
    ∷ []

abbrev saved : List FilterRule
saved =
    record {
      field = codes "name";
      action = codes "exclude";
      pattern_text = codes "adult";
      note = codes "n";
    }
    ∷ record {
      field = codes "group";
      action = codes "include";
      pattern_text = codes "news";
      note = [];
    }
    ∷ []

saves : normalize_rules ascii literals typed ≡ accepted saved
unfolding normalize_rules normalize_from tidy_rule check_rule to_lower trim_space trim_left
    trim_right is_space contains text_eq compile_filter_pattern has_prefix
saves = refl

refuses :
    normalize_rules ascii literals
      (record { field = codes "title"; action = []; pattern_text = codes "a"; note = [] } ∷ [])
    ≡ refused (bad_field 1 (codes "title"))
unfolding normalize_rules normalize_from tidy_rule check_rule to_lower trim_space trim_left
    trim_right is_space contains text_eq compile_filter_pattern has_prefix
refuses = refl

normalize_rules_iff_example : (normalize_rules ascii literals typed ≡ accepted saved) ↔ (
    (length typed ≤ max_filter_rules)
    × (saved ≡ with_patterns ascii typed)
    × AllAcceptable ascii literals (with_patterns ascii typed))
normalize_rules_iff_example = normalize_rules_iff ascii literals typed saved

normalize_rules_idem_example : normalize_rules ascii literals saved ≡ accepted saved
normalize_rules_idem_example = normalize_rules_idem ascii literals typed saved saves

group_key_idem_example :
    group_key ascii (group_key ascii (codes " US  News")) ≡ group_key ascii (codes " US  News")
group_key_idem_example = group_key_idem ascii (codes " US  News")

group_key_iff_example : (group_key ascii (codes "US News") ≡ group_key ascii (codes "us  news")) ↔ (
    map (to_lower ascii) (fields (codes "US News"))
    ≡ map (to_lower ascii) (fields (codes "us  news")))
group_key_iff_example = group_key_iff ascii (codes "US News") (codes "us  news")

abbrev labels : List Text
labels = codes " US  News " ∷ codes "Sport" ∷ codes "us news" ∷ []

dedupes : dedupe_groups ascii labels ≡ codes "US  News" ∷ codes "Sport" ∷ []
unfolding dedupe_groups dedupe_from group_key join fields words to_lower trim_space trim_left
    trim_right is_space contains text_eq
dedupes = refl

dedupe_groups_lem_example :
    ((k : Text)
      → contains (keys ascii (dedupe_groups ascii labels)) k ≡ contains (keys ascii labels) k)
    × DistinctFrom ascii [] (keys ascii (dedupe_groups ascii labels))
    × (dedupe_groups ascii (dedupe_groups ascii labels) ≡ dedupe_groups ascii labels)
dedupe_groups_lem_example = dedupe_groups_lem ascii labels
