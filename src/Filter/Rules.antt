-- ===== src/Filter/Rules.antt =====
-- work/filter/rules.go and groups.go: compiling the ordered rules and walking them for a stream.
use kptv_proxy.Prelude.{
  ℕ, suc, Bool, true, false, ◌&&◌, ◌||◌, not, Option, none, some, List, [], ◌∷◌, if◌then◌else◌,
}
use kptv_proxy.Text.{Text, Unicode, codes, is_empty, text_eq, to_lower, trim_space}
use kptv_proxy.Text.Maps.{lookup}
use kptv_proxy.Config.Rules.{
  Regexps, FilterRule, field_group, field_name, field_url, action_include, compile_filter_pattern,
}
use kptv_proxy.Config.Profiles.{origin_source}
use kptv_proxy.Filter.Types.{Stream, CompiledRule}

abbrev pub group_attribute_keys : List Text
group_attribute_keys = codes "group-title" ∷ codes "tvg-group" ∷ []

-- The value of a missing key is the empty string.
abbrev pub or_empty : Option Text → Text
or_empty none = []
or_empty (some s) = s

unfoldable pub attribute : Stream → Text → Text
attribute s key = or_empty (lookup key s.attributes)

unfoldable pub group_from : Stream → List Text → Text
unfolding attribute
group_from s [] = []
group_from s (key ∷ keys) =
    let value = trim_space (attribute s key) in if is_empty value then group_from s keys else value

unfoldable pub group_of : Stream → Text
unfolding group_from
group_of s = group_from s group_attribute_keys

unfoldable pub group_subject : Unicode → Text → Text
group_subject u name = trim_space (to_lower u name)

unfoldable pub rule_subjects : Stream → Text → Text → List Text
rule_subjects s group field =
    if text_eq field field_group
    then group ∷ []
    else if text_eq field field_name
    then s.name ∷ []
    else if text_eq field field_url
    then s.url ∷ []
    else group ∷ s.name ∷ s.url ∷ []

-- What ruleVerdict returns, with the counts that it went on. `decided_by` is the index of the
-- deciding rule, where the code has -1 for none.
pub record Decision : Type 0 where
  pub keep : Bool
  pub decided_by : Option ℕ

abbrev pub undecided : Decision
undecided = record { keep = false; decided_by = none }

abbrev pub is_decided : Decision → Bool
is_decided d = elim d.decided_by [ none ↦ false | some i ↦ true ]

-- matched[i]++; nil when the counts are off.
unfoldable pub count_at : ℕ → List ℕ → List ℕ
count_at i [] = []
count_at ℕ.zero (n ∷ ns) = suc n ∷ ns
count_at (suc i) (n ∷ ns) = n ∷ count_at i ns

module _ (lib : Regexps) where
  open lib use {Regexp, compile, match_string}

  unfoldable pub matches_any : Regexp → List Text → Bool
  matches_any pattern [] = false
  matches_any pattern (s ∷ subjects) = match_string pattern s || matches_any pattern subjects

  -- The loop of matchesRule: an empty subject never matches.
  unfoldable pub matches_some : Regexp → List Text → Bool
  matches_some pattern [] = false
  matches_some pattern (s ∷ subjects) =
      (not (is_empty s) && match_string pattern s) || matches_some pattern subjects

  unfoldable pub matches_rule : CompiledRule Regexp → Stream → Text → Bool
  unfolding matches_some
  matches_rule rule s group = matches_some rule.pattern (rule_subjects s group rule.field)

  -- compileRules: the rules beside their origins. A rule that does not compile is dropped, and one
  -- with no origin comes from the source.
  unfoldable pub compile_rules : List FilterRule → List Text → List (CompiledRule Regexp)
  compile_rules [] origins = []
  compile_rules (r ∷ rules) [] =
      let rest = compile_rules rules [] in
      elim (compile_filter_pattern lib r.pattern_text) [
        | none ↦ rest
        | some p ↦
            record {
              field = r.field;
              include = text_eq r.action action_include;
              pattern = p;
              origin = origin_source;
              rule = r;
            }
            ∷ rest
      ]
  compile_rules (r ∷ rules) (o ∷ origins) =
      let rest = compile_rules rules origins in
      elim (compile_filter_pattern lib r.pattern_text) [
        | none ↦ rest
        | some p ↦
            record {
              field = r.field;
              include = text_eq r.action action_include;
              pattern = p;
              origin = o;
              rule = r;
            }
            ∷ rest
      ]

  module _ (stream : Stream) (group : Text) (collect_all : Bool) where
    -- The loop of ruleVerdict from rule `i` on.
    unfoldable pub verdict_from :
        ℕ → List (CompiledRule Regexp) → Decision → List ℕ → Decision × List ℕ
    verdict_from i [] d matched = (d, matched)
    verdict_from i (rule ∷ rules) d matched =
        let counted = count_at i matched in
        let first : Decision = record { keep = rule.include; decided_by = some i } in
        let passed = verdict_from (suc i) rules d matched in
        let later = verdict_from (suc i) rules d counted in
        let decides = verdict_from (suc i) rules first counted in
        if not (matches_rule rule stream group)
        then passed
        else if is_decided d
        then later
        else if collect_all
        then decides
        else (first, counted)

    unfoldable pub rule_verdict : List (CompiledRule Regexp) → List ℕ → Decision × List ℕ
    unfolding verdict_from
    rule_verdict rules matched = verdict_from 0 rules undecided matched
