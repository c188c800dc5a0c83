-- ===== src/Config/RuleLaws.antt =====
-- NormalizeRules of work/config/filterrules.go: its results and its errors.
use kptv_proxy.Prelude.{
  ℕ, suc, ◌≤◌, ◌≡◌, refl, sym, ap, ◌∙◌, ◌↔◌, inl, inr, true, false, List, [], ◌∷◌, length, ltb,
  ltb→lt, ltb→le, Bool-cases, if◌then◌else◌, arith,
}
use kptv_proxy.Text.{Text, Unicode, is_empty, byte_len, contains, to_lower, trim_space, is_space}
use kptv_proxy.Text.Trim.{tidy, tidy_idem, trim_space_idem}
use kptv_proxy.Config.Rules.{
  Regexps, FilterRule, accepted, ◌>>=◌, >>=-eq-accepted, or_else, is_some, tidy_rule, check_rule,
  compile_filter_pattern, normalize_from, normalize_rules, field_group, action_include,
  filter_field_names, filter_action_names, max_filter_pattern_len, max_filter_rules,
}

abbrev AreLower : Text → Type 0
AreLower [] = Unit {0}
AreLower (c ∷ s) = (97 ≤ c) × (c ≤ 122) × AreLower s

pub lower_of_AreLower : (u : Unicode) (s : Text) → AreLower s → to_lower u s ≡ s
unfolding to_lower
lower_of_AreLower u [] a = refl
lower_of_AreLower u (c ∷ s) a = cc (u.lower_lower c a.0 a.1, lower_of_AreLower u s a.2)

or_else_idem :
    (u : Unicode) (d t : Text)
    → tidy u d ≡ d
    → tidy u t ≡ t
    → or_else (tidy u (or_else t d)) d ≡ or_else t d
or_else_idem u [] [] e h = rw e
or_else_idem u (c ∷ d) [] e h = rw e
or_else_idem u d (c ∷ t) e h = rw h

module _ (u : Unicode) where
  tidy-field_group : tidy u field_group ≡ field_group
  unfolding trim_space is_space
  tidy-field_group = lower_of_AreLower u field_group (omega arith)

  tidy-action_include : tidy u action_include ≡ action_include
  unfolding trim_space is_space
  tidy-action_include = lower_of_AreLower u action_include (omega arith)

  pub tidy_rule_idem : (r : FilterRule) → tidy_rule u (tidy_rule u r) ≡ tidy_rule u r
  unfolding tidy_rule
  tidy_rule_idem r = λ i. record {
    field = or_else_idem u field_group (tidy u r.field) tidy-field_group (tidy_idem u r.field) i;
    action =
        or_else_idem u action_include (tidy u r.action) tidy-action_include (tidy_idem u r.action)
          i;
    pattern_text = r.pattern_text;
    note = trim_space_idem r.note i;
  }

  -- The rules with a pattern, tidied, in their order.
  unfoldable pub with_patterns : List FilterRule → List FilterRule
  with_patterns [] = []
  with_patterns (r ∷ rules) =
      if is_empty r.pattern_text then with_patterns rules else tidy_rule u r ∷ with_patterns rules

  pattern_tidy : (r : FilterRule) → (tidy_rule u r).pattern_text ≡ r.pattern_text
  unfolding tidy_rule
  pattern_tidy r = refl

  with_patterns-length : (rules : List FilterRule) → length (with_patterns rules) ≤ length rules
  unfolding with_patterns
  with_patterns-length [] = omega arith
  with_patterns-length (r ∷ rules) = ground (arith, with_patterns-length rules)

  with_patterns_idem :
      (rules : List FilterRule) → with_patterns (with_patterns rules) ≡ with_patterns rules
  unfolding with_patterns
  with_patterns_idem [] = refl
  with_patterns_idem (r ∷ rules) = elim (Bool-cases (is_empty r.pattern_text)) [
    | inl blank ↦ rw (blank, with_patterns_idem rules)
    | inr full ↦ rw (full, tidy_rule_idem r, with_patterns_idem rules, pattern_tidy r, full)
  ]

  module _ (lib : Regexps) where
    -- A rule that every check passes.
    pub record IsAcceptable (r : FilterRule) : Type 0 where
      pub short : byte_len r.pattern_text ≤ max_filter_pattern_len
      pub known_field : contains filter_field_names r.field ≡ true
      pub known_action : contains filter_action_names r.action ≡ true
      pub compiles : is_some (compile_filter_pattern lib r.pattern_text) ≡ true

    abbrev pub AllAcceptable : List FilterRule → Type 0
    AllAcceptable [] = Unit {0}
    AllAcceptable (r ∷ rules) = IsAcceptable r × AllAcceptable rules

    check_rule_accepted :
        (n : ℕ) (r r' : FilterRule) → check_rule u lib n r ≡ accepted r' → IsAcceptable r × (r' ≡ r)
    unfolding check_rule
    check_rule_accepted n r r' e = ground arith

    check_rule_pass : (n : ℕ) (r : FilterRule) → IsAcceptable r → check_rule u lib n r ≡ accepted r
    unfolding check_rule
    check_rule_pass n r a = ground arith

    -- The loop at a rule with a pattern, and at one without.
    normalize_full :
        (n : ℕ) (r : FilterRule) (rules : List FilterRule)
        → is_empty r.pattern_text ≡ false
        → normalize_from u lib n (r ∷ rules) ≡ (
            check_rule u lib n (tidy_rule u r) >>= λ r'.
            normalize_from u lib (suc n) rules >>= λ rs. accepted (r' ∷ rs))
    unfolding normalize_from tidy_rule
    normalize_full n r rules full = rw full

    normalize_blank :
        (n : ℕ) (r : FilterRule) (rules : List FilterRule)
        → is_empty r.pattern_text ≡ true
        → normalize_from u lib n (r ∷ rules) ≡ normalize_from u lib (suc n) rules
    unfolding normalize_from tidy_rule
    normalize_blank n r rules blank = rw blank

    normalize_from_accepted :
        (n : ℕ) (rules out : List FilterRule)
        → normalize_from u lib n rules ≡ accepted out
        → (out ≡ with_patterns rules) × AllAcceptable (with_patterns rules)
    unfolding with_patterns
    normalize_from_accepted n [] out e = unfold normalize_from in (cc e, tt)
    normalize_from_accepted n (r ∷ rules) out e = elim (Bool-cases (is_empty r.pattern_text)) [
      | inl blank ↦
          rw blank
            (normalize_from_accepted (suc n) rules out (sym (normalize_blank n r rules blank) ∙ e))
      | inr full ↦
          let (r', checked, later) =
            >>=-eq-accepted (check_rule u lib n (tidy_rule u r)) _
              (sym (normalize_full n r rules full) ∙ e) in
          let (rs, done, whole) = >>=-eq-accepted (normalize_from u lib (suc n) rules) _ later in
          let (a, same) = check_rule_accepted n (tidy_rule u r) r' checked in
          let (content, all) = normalize_from_accepted (suc n) rules rs done in
          rw full (cc (whole, same, content), (a, all))
    ]

    normalize_from_pass :
        (n : ℕ) (rules : List FilterRule)
        → AllAcceptable (with_patterns rules)
        → normalize_from u lib n rules ≡ accepted (with_patterns rules)
    unfolding with_patterns
    normalize_from_pass n [] a = unfold normalize_from in refl
    normalize_from_pass n (r ∷ rules) a = elim (Bool-cases (is_empty r.pattern_text)) [
      | inl blank ↦
          normalize_blank n r rules blank
          ∙ rw blank (normalize_from_pass (suc n) rules (rw blank at a))
      | inr full ↦
          let both : IsAcceptable (tidy_rule u r) × AllAcceptable (with_patterns rules) =
            rw full at a in
          normalize_full n r rules full
          ∙ rw full (
              rw (
                check_rule_pass n (tidy_rule u r) both.0,
                normalize_from_pass (suc n) rules both.1,
              ))
    ]

    -- NormalizeRules succeeds exactly if there are at most 200 rules and every rule that has a
    -- pattern passes the checks once it is tidied: it is at most 500 bytes long, its field and its
    -- action are known and it compiles. The result is then those rules, tidied, in their order.
    pub normalize_rules_iff :
        (rules out : List FilterRule)
        → (normalize_rules u lib rules ≡ accepted out) ↔ (
            (length rules ≤ max_filter_rules)
            × (out ≡ with_patterns rules)
            × AllAcceptable (with_patterns rules))
    unfolding normalize_rules
    normalize_rules_iff rules out = elim (Bool-cases (ltb max_filter_rules (length rules))) [
      | inl many ↦ (λ e. cc (rw many at e), λ (few, _, _). absurd (omega (arith, ltb→lt _ _ many)))
      | inr few ↦ (
        λ e.
            let (c, a) = normalize_from_accepted 1 rules out (rw few at e) in
            (omega (arith, ltb→le _ _ few), c, a),
        λ (_, c, a). rw few (normalize_from_pass 1 rules a ∙ ap accepted (sym c)),
      )
    ]

    -- A list that NormalizeRules returned is returned unchanged when it is saved again.
    pub normalize_rules_idem :
        (rules out : List FilterRule)
        → normalize_rules u lib rules ≡ accepted out
        → normalize_rules u lib out ≡ accepted out
    normalize_rules_idem rules out e =
        let (few, content, all) = (normalize_rules_iff rules out).0 e in
        let again = with_patterns_idem rules in
        (normalize_rules_iff out out).1 (
          rw content (omega (arith, with_patterns-length rules)),
          rw content (sym again),
          rw (content, again) all,
        )
