-- ===== src/Config/Rules.antt =====
-- work/config/filterrules.go: ordered filter rules, how a save tidies and checks them. An error
-- carries what its message names, without the owner's label. A nil list is the empty list, as no
-- caller tells them apart.
use kptv_proxy.Prelude.{
  ℕ, suc, ◌≡◌, refl, Bool, true, false, ◌||◌, not, Option, none, some, List, [], ◌∷◌, ◌++◌, length,
  ltb, if◌then◌else◌,
}
use kptv_proxy.Text.{
  Text, Unicode, codes, is_empty, byte_len, text_eq, contains, has_prefix, to_lower, trim_space,
}

-- github.com/grafana/regexp, which the code only calls: a pattern compiles or does not, and a
-- compiled pattern is tested on a text, or finds the place of its first match.
pub record Regexps : Type 1 where
  pub Regexp : Type 0
  pub compile : Text → Option Regexp
  pub match_string : Regexp → Text → Bool
  pub find_index : Regexp → Text → Option (ℕ × ℕ)

abbrev pub field_group : Text
field_group = codes "group"

abbrev pub field_name : Text
field_name = codes "name"

abbrev pub field_url : Text
field_url = codes "url"

abbrev pub field_any : Text
field_any = codes "any"

abbrev pub action_include : Text
action_include = codes "include"

abbrev pub action_exclude : Text
action_exclude = codes "exclude"

abbrev pub default_keep : Text
default_keep = codes "keep"

abbrev pub default_drop : Text
default_drop = codes "drop"

abbrev pub max_filter_rules : ℕ
max_filter_rules = 200

abbrev pub max_filter_pattern_len : ℕ
max_filter_pattern_len = 500

pub record FilterRule : Type 0 where
  pub field : Text
  pub action : Text
  pub pattern_text : Text
  pub note : Text

pub record FilterProfile : Type 0 where
  pub id : ℕ
  pub name : Text
  pub default_action : Text
  pub rules : List FilterRule

abbrev pub filter_field_names : List Text
filter_field_names = field_group ∷ field_name ∷ field_url ∷ field_any ∷ []

abbrev pub filter_action_names : List Text
filter_action_names = action_include ∷ action_exclude ∷ []

-- What a save is refused with. The number is the rule's place in the list, from 1.
pub data Error : Type 0 where
  too_many_rules : ℕ → Error
  pattern_too_long : ℕ → Error
  bad_field bad_action bad_pattern : ℕ → Text → Error
  bad_default : Text → Error
  no_name : Error

-- The outcome of a check: the tidied value, or why the save is refused.
pub data Checked (V : Type 0) : Type 0 where
  refused : Error → Checked V
  accepted : V → Checked V

module _ {V W : Type 0} where
  infixl 5 ◌>>=◌
  abbrev pub ◌>>=◌ : Checked V → (V → Checked W) → Checked W
  refused why >>= next = refused why
  accepted v >>= next = next v

  -- A chain that accepts went through its first check.
  pub >>=-eq-accepted :
      (first : Checked V) (next : V → Checked W) {w : W}
      → (first >>= next) ≡ accepted w
      → (v : V) × (first ≡ accepted v) × (next v ≡ accepted w)
  >>=-eq-accepted (refused why) next e = cc
  >>=-eq-accepted (accepted v) next e = (v, refl, e)

-- A value that stands for an empty one.
abbrev pub or_else : Text → Text → Text
or_else [] d = d
or_else (c ∷ s) d = c ∷ s

abbrev pub is_some {ℓ} : {A : Type ℓ} → Option A → Bool
is_some none = false
is_some (some a) = true

module _ (lib : Regexps) where
  open lib use {Regexp, compile}

  unfoldable pub compile_filter_pattern : Text → Option Regexp
  unfolding has_prefix
  compile_filter_pattern pattern_text =
      if has_prefix pattern_text (codes "(?")
      then compile pattern_text
      else compile (codes "(?i)" ++ pattern_text)

module _ (u : Unicode) where
  -- The trimming and the defaults at the head of the loop of NormalizeRules.
  unfoldable pub tidy_rule : FilterRule → FilterRule
  tidy_rule r = record {
    field = or_else (to_lower u (trim_space r.field)) field_group;
    action = or_else (to_lower u (trim_space r.action)) action_include;
    pattern_text = r.pattern_text;
    note = trim_space r.note;
  }

  unfoldable pub normalize_default : Text → Checked Text
  unfolding text_eq
  normalize_default value =
      let v = to_lower u (trim_space value) in
      if is_empty v || text_eq v default_keep
      then accepted []
      else if text_eq v default_drop
      then accepted default_drop
      else refused (bad_default v)

  module _ (lib : Regexps) where
    -- The checks on rule number `n`, in their order.
    unfoldable pub check_rule : ℕ → FilterRule → Checked FilterRule
    check_rule n r =
        if ltb max_filter_pattern_len (byte_len r.pattern_text)
        then refused (pattern_too_long n)
        else if not (contains filter_field_names r.field)
        then refused (bad_field n r.field)
        else if not (contains filter_action_names r.action)
        then refused (bad_action n r.action)
        else if is_some (compile_filter_pattern lib r.pattern_text)
        then accepted r
        else refused (bad_pattern n r.pattern_text)

    -- The loop over the rules, at rule number `n`.
    unfoldable pub normalize_from : ℕ → List FilterRule → Checked (List FilterRule)
    normalize_from n [] = accepted []
    normalize_from n (rule ∷ rules) =
        let r = tidy_rule rule in
        let rest = normalize_from (suc n) rules in
        if is_empty r.pattern_text
        then rest
        else check_rule n r >>= λ r'. rest >>= λ rs. accepted (r' ∷ rs)

    unfoldable pub normalize_rules : List FilterRule → Checked (List FilterRule)
    normalize_rules rules =
        if ltb max_filter_rules (length rules)
        then refused (too_many_rules (length rules))
        else normalize_from 1 rules

    -- Normalize of a profile.
    unfoldable pub normalize_profile : FilterProfile → Checked FilterProfile
    normalize_profile p =
        let name = trim_space p.name in
        if is_empty name
        then refused no_name
        else normalize_default p.default_action >>= λ d. normalize_rules p.rules >>= λ rs.
            accepted (record p { name = name; default_action = d; rules = rs })
