-- ===== src/Filter/Signature/Compiled.antt =====
-- Settings with one signature compile to one filter: filterSignature against what
-- GetOrCreateFilter of work/filter/filter.go compiles.
use kptv_proxy.Prelude.{◌≡◌, refl, sym, ap, ap₂, ◌∙◌, Option, none, some, List, [], ◌∷◌, map}
use kptv_proxy.Text.{Text, Unicode, text_eq, join}
use kptv_proxy.Text.Split.{Lacks, cut_injective, join_injective, join_items_injective}
use kptv_proxy.Config.Rules.{Regexps, FilterRule, FilterProfile, action_include}
use kptv_proxy.Config.Profiles.{SourceConfig, resolve_rules}
use kptv_proxy.Filter.Types.{CompiledRule}
use kptv_proxy.Filter.Rules.{compile_rules}
use kptv_proxy.Config.Rules.{compile_filter_pattern}
use kptv_proxy.Filter.Compile.{
  build_filter, filter_signature, signature_parts, sign_rule, sign_rules,
}
use kptv_proxy.Filter.Signature.{
  bar, AreBarred, IsClean, bare, without_notes, override_line_injective, format_bool_injective,
  length-resolve_rules, AllLack-AreBarred,
}

module _ (lib : Regexps) where
  open lib use {Regexp}

  -- What one rule adds, from its signature's parts.
  abbrev with_rule :
      Option Regexp → Text → FilterRule → List (CompiledRule Regexp) → List (CompiledRule Regexp)
  with_rule none o r rest = rest
  with_rule (some p) o r rest =
      record {
        field = r.field;
        include = text_eq r.action action_include;
        pattern = p;
        origin = o;
        rule = r;
      }
      ∷ rest

  compile_rules_step :
      (o : Text) (origins : List Text) (r : FilterRule) (rules : List FilterRule)
      → map bare (compile_rules lib (r ∷ rules) (o ∷ origins))
        ≡ with_rule
            (compile_filter_pattern lib r.pattern_text)
            o
            (record r { note = [] })
            (map bare (compile_rules lib rules origins))
  unfolding compile_rules
  compile_rules_step o origins r rules = step (compile_filter_pattern lib r.pattern_text)
    where
      step :
          (found : Option Regexp)
          → map bare (elim found as (λ _. List (CompiledRule Regexp)) [
            | none ↦ compile_rules lib rules origins
            | some p ↦
                record {
                  field = r.field;
                  include = text_eq r.action action_include;
                  pattern = p;
                  origin = o;
                  rule = r;
                }
                ∷ compile_rules lib rules origins
          ])
            ≡ with_rule found o
                (record r { note = [] })
                (map bare (compile_rules lib rules origins))
      step none = refl
      step (some p) = refl

  -- What a rule's line in the signature tells.
  abbrev written : Text → FilterRule → Text × Text × Text × Text
  written o r = (o, r.field, r.action, r.pattern_text)

  abbrev with_written :
      Text × Text × Text × Text → List (CompiledRule Regexp) → List (CompiledRule Regexp)
  with_written w rest =
      with_rule (compile_filter_pattern lib w.3) w.0
        (record { field = w.1; action = w.2; pattern_text = w.3; note = [] }) rest

  sign_rule_injective :
      (o o' : Text) (r r' : FilterRule)
      → Lacks bar o × Lacks bar r.field × Lacks bar r.action
      → Lacks bar o' × Lacks bar r'.field × Lacks bar r'.action
      → sign_rule o r ≡ sign_rule o' r'
      → written o r ≡ written o' r'
  sign_rule_injective o o' r r' v w e =
      let (p, e1) = cut_injective bar o o' _ _ v.0 w.0 e in
      let (q, e2) = cut_injective bar r.field r'.field _ _ v.1 w.1 e1 in
      let (t, e3) = cut_injective bar r.action r'.action _ _ v.2 w.2 e2 in rw (p, q, t, e3) refl

  compile_rules-bare :
      (rules rules' : List FilterRule) (origins origins' : List Text)
      → AreBarred rules origins
      → AreBarred rules' origins'
      → sign_rules rules origins ≡ sign_rules rules' origins'
      → map bare (compile_rules lib rules origins) ≡ map bare (compile_rules lib rules' origins')
  compile_rules-bare [] [] origins origins' v w e = unfold compile_rules in refl
  compile_rules-bare [] (r ∷ rules) origins [] v w e = absurd w
  compile_rules-bare [] (r ∷ rules) origins (o ∷ origins') v w e = absurd (cc e)
  compile_rules-bare (r ∷ rules) rules' [] origins' v w e = absurd v
  compile_rules-bare (r ∷ rules) [] (o ∷ origins) origins' v w e = absurd (cc e)
  compile_rules-bare (r ∷ rules) (r' ∷ rules') (o ∷ origins) [] v w e = absurd w
  compile_rules-bare (r ∷ rules) (r' ∷ rules') (o ∷ origins) (o' ∷ origins') v w e =
      compile_rules_step o origins r rules
      ∙ ap₂ with_written (sign_rule_injective o o' r r' (v.0, v.1, v.2) (w.0, w.1, w.2) (cc e))
          (compile_rules-bare rules rules' origins origins' v.3 w.3 (cc e))
      ∙ sym (compile_rules_step o' origins' r' rules')

  rules_barred :
      (s : SourceConfig) (cfg : Option (List FilterProfile))
      → IsClean s cfg
      → AreBarred (resolve_rules s cfg).rules (resolve_rules s cfg).origins
  rules_barred s cfg v =
      AllLack-AreBarred (resolve_rules s cfg).rules (resolve_rules s cfg).origins
        (length-resolve_rules s cfg) v.fields v.origins

  -- Two clean settings with one signature compile to one filter, up to the notes.
  pub build_filter-filter_signature :
      (u : Unicode) (s s' : SourceConfig) (cfg cfg' : Option (List FilterProfile))
      → IsClean s cfg
      → IsClean s' cfg'
      → filter_signature s (resolve_rules s cfg) ≡ filter_signature s' (resolve_rules s' cfg')
      → without_notes (build_filter u lib s (resolve_rules s cfg))
        ≡ without_notes (build_filter u lib s' (resolve_rules s' cfg'))
  unfolding filter_signature build_filter
  build_filter-filter_signature u s s' cfg cfg' v w e =
      let rs = resolve_rules s cfg in
      let rs' = resolve_rules s' cfg' in
      let parts : signature_parts s rs ≡ signature_parts s' rs' =
        join_injective 0 _ _ _ _ v.parts w.parts e in
      let rules : rs.def ∷ sign_rules rs.rules rs.origins
          ≡ rs'.def ∷ sign_rules rs'.rules rs'.origins =
        join_injective 2 _ _ _ _ v.rule_parts w.rule_parts (cc parts) in
      let compiled =
        compile_rules-bare rs.rules rs'.rules rs.origins rs'.origins (rules_barred s cfg v)
          (rules_barred s' cfg' w) (cc rules) in
      let def : rs.def ≡ rs'.def = cc rules in
      let groups =
        join_items_injective 1 s.group_filter_list s'.group_filter_list v.groups w.groups
          (cc parts) in
      let types =
        join_items_injective 1 s.import_types s'.import_types v.types w.types (cc parts) in
      let tiers =
        join_items_injective 1 s.quality_tiers s'.quality_tiers v.tiers w.tiers (cc parts) in
      let dedupe : s.quality_dedupe ≡ s'.quality_dedupe =
        format_bool_injective s.quality_dedupe s'.quality_dedupe (cc parts) in
      let overrides =
        override_line_injective s.group_type_overrides s'.group_type_overrides v.override_keys
          w.override_keys
          (join_items_injective 1 _ _ v.overrides w.overrides
            (ap (join (1 ∷ [])) (sym v.in_order) ∙ cc parts ∙ ap (join (1 ∷ [])) w.in_order)) in
      let mode : s.group_filter_mode ≡ s'.group_filter_mode = cc parts in
      let regex : s.group_filter_regex ≡ s'.group_filter_regex = cc parts in
      let lc : s.live_category_regex ≡ s'.live_category_regex = cc parts in
      let vc : s.vod_category_regex ≡ s'.vod_category_regex = cc parts in
      let sc : s.series_category_regex ≡ s'.series_category_regex = cc parts in
      let li : s.live_include_regex ≡ s'.live_include_regex = cc parts in
      let le : s.live_exclude_regex ≡ s'.live_exclude_regex = cc parts in
      let si : s.series_include_regex ≡ s'.series_include_regex = cc parts in
      let se : s.series_exclude_regex ≡ s'.series_exclude_regex = cc parts in
      let vi : s.vod_include_regex ≡ s'.vod_include_regex = cc parts in
      let ve : s.vod_exclude_regex ≡ s'.vod_exclude_regex = cc parts in
      rw
        (
          compiled, def, groups, types, tiers, dedupe, overrides, mode, regex, lc, vc, sc, li, le,
          si, se, vi, ve,
        )
        refl
