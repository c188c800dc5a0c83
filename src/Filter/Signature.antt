-- ===== src/Filter/Signature.antt =====
-- filterSignature of work/filter/filter.go: which settings it tells apart. The settings that are
-- written down must not hold the separators; a rule's note is not written down at all.
pub mod Compiled
use kptv_proxy.Prelude.{
  ℕ, ◌≡◌, refl, sym, ap, ap₂, ◌∙◌, Bool, true, false, Option, none, some, List, [], ◌∷◌, ◌++◌, map,
  suc, ◌+◌, length, length-append, arith,
}
use kptv_proxy.Text.{Text, codes}
use kptv_proxy.Text.Order.{text_lt, sort_stable}
use kptv_proxy.Text.Split.{Lacks, AllLack, AreItems, cut_injective}
use kptv_proxy.Config.Rules.{FilterRule, FilterProfile}
use kptv_proxy.Config.Profiles.{
  SourceConfig, resolve_rules, effective_rules, attribute, profile_of, origin_source,
}
use kptv_proxy.Filter.Types.{CompiledRule, CompiledFilter}
use kptv_proxy.Filter.Compile.{signature_parts, sign_rules, override_line, format_bool}

abbrev pub bar : ℕ
bar = 124

-- Each rule has an origin, and only its pattern may hold a bar.
abbrev pub AreBarred : List FilterRule → List Text → Type 0
AreBarred [] origins = Unit {0}
AreBarred (r ∷ rules) [] = ⊥
AreBarred (r ∷ rules) (o ∷ origins) =
    Lacks bar o × Lacks bar r.field × Lacks bar r.action × AreBarred rules origins

abbrev pub AreFields : List FilterRule → Type 0
AreFields [] = Unit {0}
AreFields (r ∷ rules) = Lacks bar r.field × Lacks bar r.action × AreFields rules

abbrev pub AreKeys : List (Text × Text) → Type 0
AreKeys [] = Unit {0}
AreKeys ((k, t) ∷ rest) = Lacks 61 k × AreKeys rest

-- Settings without the separators: no part has a zero, no rule a 2, no origin, field or action a bar,
-- no item of a list is empty or has a 1, and a group with a forced type has no equals sign. The forced types are a Go map, whose
-- order means nothing; here they stand in the order of their lines.
pub record IsClean (s : SourceConfig) (cfg : Option (List FilterProfile)) : Type 0 where
  pub parts : AllLack 0 (signature_parts s (resolve_rules s cfg))
  pub rule_parts : AllLack 2 (
      (resolve_rules s cfg).def
      ∷ sign_rules (resolve_rules s cfg).rules (resolve_rules s cfg).origins)
  pub fields : AreFields (resolve_rules s cfg).rules
  pub origins : AllLack bar (resolve_rules s cfg).origins
  pub groups : AreItems 1 s.group_filter_list
  pub types : AreItems 1 s.import_types
  pub tiers : AreItems 1 s.quality_tiers
  pub overrides : AreItems 1 (map override_line s.group_type_overrides)
  pub override_keys : AreKeys s.group_type_overrides
  pub in_order :
      sort_stable text_lt (map override_line s.group_type_overrides)
      ≡ map override_line s.group_type_overrides

length-attribute :
    (o : Text) (rules : List FilterRule) → length (attribute o rules).1 ≡ length rules
length-attribute o [] = refl
length-attribute o (r ∷ rules) = ap suc (length-attribute o rules)

length-effective_rules :
    (profiles : List FilterProfile) (s : SourceConfig)
    → length (effective_rules profiles s).1 ≡ length (effective_rules profiles s).0
unfolding effective_rules
length-effective_rules profiles s = both (profile_of profiles s)
  where
    both :
        (found : Option FilterProfile)
        → let (rules, origins) = elim found as (λ _. List FilterRule × List Text) [
          | none ↦ attribute origin_source s.filter_rules
          | some p ↦
              let (shared, shared_origins) = attribute (codes "profile:" ++ p.name) p.rules in
              let (own, own_origins) = attribute origin_source s.filter_rules in
              (shared ++ own, shared_origins ++ own_origins)
        ] in
          length origins ≡ length rules
    both none = length-attribute origin_source s.filter_rules
    both (some p) =
        length-append (attribute (codes "profile:" ++ p.name) p.rules).1
          (attribute origin_source s.filter_rules).1
        ∙ ap₂ ◌+◌ (length-attribute (codes "profile:" ++ p.name) p.rules)
            (length-attribute origin_source s.filter_rules)
        ∙ sym (length-append p.rules s.filter_rules)

pub length-resolve_rules :
    (s : SourceConfig) (cfg : Option (List FilterProfile))
    → length (resolve_rules s cfg).origins ≡ length (resolve_rules s cfg).rules
unfolding resolve_rules
length-resolve_rules s none = length-attribute origin_source s.filter_rules
length-resolve_rules s (some profiles) = length-effective_rules profiles s

-- resolve_rules gives one origin for each rule.
pub AllLack-AreBarred :
    (rules : List FilterRule) (origins : List Text)
    → length origins ≡ length rules
    → AreFields rules
    → AllLack bar origins
    → AreBarred rules origins
AllLack-AreBarred [] origins e v w = tt
AllLack-AreBarred (r ∷ rules) [] e v w = absurd (omega (arith, e))
AllLack-AreBarred (r ∷ rules) (o ∷ origins) e v w =
    (w.0, v.0, v.1, AllLack-AreBarred rules origins (omega (arith, e)) v.2 w.1)

-- A compiled rule, and a filter, less what the operators noted on the rules.
abbrev pub bare : {R : Type 0} → CompiledRule R → CompiledRule R
bare c = record c { rule = record (c.rule) { note = [] } }

abbrev pub without_notes : {R : Type 0} → CompiledFilter R → CompiledFilter R
without_notes f = record f { rules = map bare f.rules }

pub override_line_injective :
    (xs ys : List (Text × Text))
    → AreKeys xs
    → AreKeys ys
    → map override_line xs ≡ map override_line ys
    → xs ≡ ys
override_line_injective [] [] v w e = refl
override_line_injective [] (y ∷ ys) v w e = absurd (cc e)
override_line_injective (x ∷ xs) [] v w e = absurd (cc e)
override_line_injective ((k, t) ∷ xs) ((k', t') ∷ ys) v w e =
    let (p, q) = cut_injective 61 k k' t t' v.0 w.0 (cc e) in
    ap₂ ◌∷◌ (ap₂ (λ a b. (a, b)) p q) (override_line_injective xs ys v.1 w.1 (cc e))

pub format_bool_injective : (a b : Bool) → format_bool a ≡ format_bool b → a ≡ b
format_bool_injective true true e = refl
format_bool_injective true false e = absurd (cc e)
format_bool_injective false true e = absurd (cc e)
format_bool_injective false false e = refl
