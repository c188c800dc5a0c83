-- ===== src/Filter/Verdicts.antt =====
-- ruleVerdict of work/filter/rules.go against the first rule that matches.
use kptv_proxy.Prelude.{
  ℕ, suc, ◌≡◌, refl, Bool, true, Option, none, some, List, [], ◌∷◌, if◌then◌else◌, arith,
}
use kptv_proxy.Text.{Text}
use kptv_proxy.Config.Rules.{Regexps}
use kptv_proxy.Filter.Types.{Stream, CompiledRule}
use kptv_proxy.Filter.Rules.{
  Decision, undecided, is_decided, count_at, matches_rule, verdict_from, rule_verdict,
}

module _ (lib : Regexps) (stream : Stream) (group : Text) where
  open lib use {Regexp}

  -- The first rule that matches, with its place.
  unfoldable pub first_match : ℕ → List (CompiledRule Regexp) → Option (ℕ × CompiledRule Regexp)
  first_match i [] = none
  first_match i (r ∷ rules) =
      if matches_rule lib r stream group then some (i, r) else first_match (suc i) rules

  -- Its decision: nothing if no rule matches.
  abbrev pub decision_of : Option (ℕ × CompiledRule Regexp) → Decision
  decision_of none = undecided
  decision_of (some (i, r)) = record { keep = r.include; decided_by = some i }

  verdict_from_decided :
      (all : Bool) (i : ℕ) (rules : List (CompiledRule Regexp)) (d : Decision) (matched : List ℕ)
      → is_decided d ≡ true
      → (verdict_from lib stream group all i rules d matched).0 ≡ d
  unfolding verdict_from
  verdict_from_decided all i [] d matched h = refl
  verdict_from_decided all i (r ∷ rules) d matched h = ground (
    arith,
    verdict_from_decided all (suc i) rules d matched h,
    verdict_from_decided all (suc i) rules d (count_at i matched) h,
  )

  verdict_from_first :
      (all : Bool) (i : ℕ) (rules : List (CompiledRule Regexp)) (matched : List ℕ)
      → (verdict_from lib stream group all i rules undecided matched).0
        ≡ decision_of (first_match i rules)
  unfolding verdict_from first_match
  verdict_from_first all i [] matched = refl
  verdict_from_first all i (r ∷ rules) matched = ground (
    arith,
    verdict_from_first all (suc i) rules matched,
    verdict_from_decided all (suc i) rules (record { keep = r.include; decided_by = some i })
        (count_at i matched) refl,
  )

  -- ruleVerdict decides by the first rule that matches: its action and its index, or no decision if
  -- none matches. Counting the matches of the later rules does not change the decision.
  pub rule_verdict-first :
      (all : Bool) (rules : List (CompiledRule Regexp)) (matched : List ℕ)
      → (rule_verdict lib stream group all rules matched).0 ≡ decision_of (first_match 0 rules)
  unfolding rule_verdict
  rule_verdict-first all rules matched = verdict_from_first all 0 rules matched
