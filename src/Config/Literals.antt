-- ===== src/Config/Literals.antt =====
-- The regexp library at a concrete function: a pattern is a text that is looked for as it stands,
-- less a leading (?i), and only the empty pattern does not compile.
use kptv_proxy.Prelude.{ℕ, suc, ◌+◌, Option, none, some, [], ◌∷◌, drop, length, if◌then◌else◌}
use kptv_proxy.Text.{Text, codes, is_empty, has_prefix}
use kptv_proxy.Config.Rules.{Regexps, is_some}

unfoldable pub find_from : ℕ → Text → Text → Option (ℕ × ℕ)
unfolding has_prefix
find_from i p [] = if is_empty p then some (i, i) else none
find_from i p (c ∷ s) =
    let later = find_from (suc i) p s in
    if has_prefix (c ∷ s) p then some (i, i + length p) else later

abbrev literal : Text → Option Text
literal p =
    let rest = if has_prefix p (codes "(?i)") then drop 4 p else p in
    if is_empty rest then none else some rest

abbrev pub literals : Regexps
literals = record {
  Regexp = Text;
  compile = literal;
  match_string = λ p s. is_some (find_from 0 p s);
  find_index = find_from 0;
}
