-- ===== src/M3u8/Written.antt =====
-- Reading back a line that was written with quoted attributes.
use kptv_proxy.Prelude.{
  ℕ, zero, suc, ◌<◌, ◌≤◌, ◌≡◌, refl, sym, subst, ap, ap₂, ◌∙◌, false, some, List, [], ◌∷◌, ◌++◌,
  append_assoc, map, reverse, length, length-append, arith,
}
use kptv_proxy.Text.{Text, codes, is_space, has_prefix, trim_right, trim_space, join}
use kptv_proxy.Text.Trim.{trim_left_of_Starts}
use kptv_proxy.Text.Fields.{NoSpace, IsWord, space}
use kptv_proxy.Text.Maps.{TextMap, insert}
use kptv_proxy.M3u8.{
  extinf, quote, comma, equals, blank, cut, scan_back, trim_blanks, trim_prefix, add_attribute,
  next_attribute, extract, with_name, named, parse_parts, parse_split, parse_extinf,
}
use kptv_proxy.M3u8.Scan.{
  cut_lem, cut-none, scan_back_name, trim_right_snoc, trim_space-NoSpace, NoSpace-Lacks,
  trim_blanks_word, trim_blanks-blank, take_value_quoted,
}
use kptv_proxy.Text.Split.{Lacks}

-- An attribute as `key="value"`, and the list with blanks between.
abbrev pub pair_text : Text × Text → Text
pair_text (k, v) = k ++ equals ∷ quote ∷ (v ++ quote ∷ [])

abbrev pub attribute_list : List (Text × Text) → Text
attribute_list pairs = join space (map pair_text pairs)

abbrev pub extinf_line : Text → List (Text × Text) → Text → Text
extinf_line duration pairs name =
    extinf ++ (duration ++ blank ∷ (attribute_list pairs ++ comma ∷ name))

abbrev pub IsAttribute : Text × Text → Type 0
IsAttribute (k, v) = IsWord k × Lacks equals k × Lacks quote v

abbrev pub AreAttributes : List (Text × Text) → Type 0
AreAttributes [] = Unit {0}
AreAttributes (p ∷ ps) = IsAttribute p × AreAttributes ps

abbrev pub insert_all : List (Text × Text) → TextMap Text → TextMap Text
insert_all [] m = m
insert_all ((k, v) ∷ ps) m = insert_all ps (insert k v m)

pair_text-append :
    (k v rest : Text) → pair_text (k, v) ++ rest ≡ k ++ equals ∷ quote ∷ (v ++ quote ∷ rest)
pair_text-append k v rest =
    append_assoc k (equals ∷ quote ∷ (v ++ quote ∷ [])) rest
    ∙ ap (λ r. k ++ equals ∷ quote ∷ r) (append_assoc v (quote ∷ []) rest)

extract_pair :
    (fuel : ℕ) (k v rest : Text) (attrs : TextMap Text)
    → IsAttribute (k, v)
    → extract (suc fuel) (k ++ equals ∷ quote ∷ (v ++ quote ∷ rest)) attrs
      ≡ extract fuel rest (insert k v attrs)
unfolding extract
extract_pair fuel [] v rest attrs h = absurd (cc h.0.0)
extract_pair fuel (c ∷ k) v rest attrs h =
    let t = equals ∷ quote ∷ (v ++ quote ∷ rest) in
    ap (λ r. next_attribute (cut equals r) attrs (λ more m. extract fuel more m))
      (trim_blanks_word c (k ++ t) h.0.1.0)
    ∙ ap (λ o. next_attribute o attrs (λ more m. extract fuel more m))
        (cut_lem equals (c ∷ k) (quote ∷ (v ++ quote ∷ rest)) h.1)
    ∙ ap (λ p. extract fuel p.1 (add_attribute (trim_space (c ∷ k)) p.0 attrs))
        (take_value_quoted v rest h.2)
    ∙ ap (λ key. extract fuel rest (add_attribute key v attrs)) (trim_space-NoSpace (c ∷ k) h.0.1)

extract_blank :
    (fuel : ℕ) (s : Text) (attrs : TextMap Text)
    → extract fuel (space ++ s) attrs ≡ extract fuel s attrs
unfolding extract
extract_blank zero s attrs = refl
extract_blank (suc fuel) s attrs =
    ap (λ r. next_attribute (cut equals r) attrs (λ more m. extract fuel more m))
      (trim_blanks-blank s)

extract_nothing : (fuel : ℕ) (attrs : TextMap Text) → extract (suc fuel) [] attrs ≡ some attrs
unfolding extract trim_blanks cut
extract_nothing fuel attrs = refl

extract_attributes :
    (fuel : ℕ) (pairs : List (Text × Text)) (attrs : TextMap Text)
    → AreAttributes pairs
    → length pairs < fuel
    → extract fuel (attribute_list pairs) attrs ≡ some (insert_all pairs attrs)
extract_attributes zero pairs attrs h p = absurd (omega (arith, p))
extract_attributes (suc fuel) [] attrs h p = unfold join in extract_nothing fuel attrs
extract_attributes (suc zero) (q ∷ ps) attrs h p = absurd (omega (arith, p))
extract_attributes (suc (suc fuel)) ((k, v) ∷ []) attrs h p =
    unfold join in
    (extract_pair (suc fuel) k v [] attrs h.0 ∙ extract_nothing fuel (insert k v attrs))
extract_attributes (suc (suc fuel)) ((k, v) ∷ q ∷ ps) attrs h p =
    ap (λ r. extract (suc (suc fuel)) r attrs) (joined k v q ps)
    ∙ extract_pair (suc fuel) k v (space ++ attribute_list (q ∷ ps)) attrs h.0
    ∙ extract_blank (suc fuel) (attribute_list (q ∷ ps)) (insert k v attrs)
    ∙ extract_attributes (suc fuel) (q ∷ ps) (insert k v attrs) h.1 (omega (arith, p))
  where
    joined :
        (k v : Text) (q : Text × Text) (ps : List (Text × Text))
        → attribute_list ((k, v) ∷ q ∷ ps)
          ≡ k ++ equals ∷ quote ∷ (v ++ quote ∷ (space ++ attribute_list (q ∷ ps)))
    joined k v q ps = unfold join in pair_text-append k v (space ++ attribute_list (q ∷ ps))

-- A list of attributes is at least as long as their number, and ends with a quote.
attribute_list-length : (pairs : List (Text × Text)) → length pairs ≤ length (attribute_list pairs)
unfolding join
attribute_list-length [] = omega arith
attribute_list-length ((k, v) ∷ []) =
    omega (arith, length-append k (equals ∷ quote ∷ (v ++ quote ∷ [])))
attribute_list-length ((k, v) ∷ q ∷ ps) = omega (
  arith,
  attribute_list-length (q ∷ ps),
  length-append k (equals ∷ quote ∷ (v ++ quote ∷ [])),
  length-append (pair_text (k, v)) (space ++ attribute_list (q ∷ ps)),
)

attribute_list_end :
    (p : Text × Text) (ps : List (Text × Text))
    → (t : Text) × (attribute_list (p ∷ ps) ≡ t ++ quote ∷ [])
unfolding join
attribute_list_end (k, v) [] =
    (k ++ equals ∷ quote ∷ v, sym (append_assoc k (equals ∷ quote ∷ v) (quote ∷ [])))
attribute_list_end (k, v) (q ∷ ps) =
    let (t, e) = attribute_list_end q ps in
    (
      pair_text (k, v) ++ (space ++ t),
      ap (λ r. pair_text (k, v) ++ (space ++ r)) e
          ∙ sym (append_assoc (pair_text (k, v)) (space ++ t) (quote ∷ [])),
    )

trim_prefix-extinf : (s : Text) → trim_prefix (extinf ++ s) extinf ≡ s
unfolding trim_prefix has_prefix
trim_prefix-extinf s = refl

trim_before :
    (duration t : Text)
    → IsWord duration
    → trim_space (duration ++ blank ∷ (t ++ quote ∷ [])) ≡ duration ++ blank ∷ (t ++ quote ∷ [])
unfolding trim_space
trim_before [] t h = absurd (cc h.0)
trim_before (c ∷ d) t h =
    ap trim_right (trim_left_of_Starts (c ∷ (d ++ blank ∷ (t ++ quote ∷ []))) h.1.0)
    ∙ ap trim_right (sym (append_assoc (c ∷ d) (blank ∷ t) (quote ∷ [])))
    ∙ trim_right_snoc ((c ∷ d) ++ blank ∷ t) quote (unfold is_space in refl)
    ∙ append_assoc (c ∷ d) (blank ∷ t) (quote ∷ [])

parse_before :
    (duration name : Text) (p : Text × Text) (ps : List (Text × Text))
    → IsWord duration
    → AreAttributes (p ∷ ps)
    → parse_parts
        (duration ++ blank ∷ attribute_list (p ∷ ps))
        (cut blank (duration ++ blank ∷ attribute_list (p ∷ ps)))
        name
      ≡ some (with_name name (insert_all (p ∷ ps) ((codes "duration", duration) ∷ [])))
parse_before duration name p ps d h =
    ap (λ o. parse_parts (duration ++ blank ∷ attribute_list (p ∷ ps)) o name)
      (cut_lem blank duration (attribute_list (p ∷ ps)) (NoSpace-Lacks duration d.1))
    ∙ ap (named name) (
        extract_attributes (suc (length (attribute_list (p ∷ ps)))) (p ∷ ps)
          ((codes "duration", duration) ∷ []) h (omega (arith, attribute_list-length (p ∷ ps))))

-- A line with at least one attribute, whose keys are words without an equals sign and whose values
-- have no quote, with a name that has no quote and no comma and no blanks around it, is read back as
-- it was written: the duration, the attributes in order, and the name.
pub parse_extinf-extinf_line :
    (duration name : Text) (p : Text × Text) (ps : List (Text × Text))
    → IsWord duration
    → AreAttributes (p ∷ ps)
    → Lacks quote name
    → Lacks comma name
    → trim_space name ≡ name
    → parse_extinf (extinf_line duration (p ∷ ps) name)
      ≡ some (with_name name (insert_all (p ∷ ps) ((codes "duration", duration) ∷ [])))
unfolding parse_extinf
parse_extinf-extinf_line duration name p ps d h a b e =
    ap (λ r. parse_split (scan_back false (reverse r) []))
      (trim_prefix-extinf (duration ++ blank ∷ (attribute_list (p ∷ ps) ++ comma ∷ name))
        ∙ sym (append_assoc duration (blank ∷ attribute_list (p ∷ ps)) (comma ∷ name)))
    ∙ ap parse_split (scan_back_name (duration ++ blank ∷ attribute_list (p ∷ ps)) name a b)
    ∙ ap₂ (λ x n. parse_parts x (cut blank x) n) trimmed e
    ∙ parse_before duration name p ps d h
  where
    trimmed :
        trim_space (duration ++ blank ∷ attribute_list (p ∷ ps))
        ≡ duration ++ blank ∷ attribute_list (p ∷ ps)
    trimmed =
        let (t, f) = attribute_list_end p ps in
        subst (λ r. trim_space (duration ++ blank ∷ r) ≡ duration ++ blank ∷ r) (sym f)
          (trim_before duration t d)

-- A line with a duration and a name but no attributes is read as its duration alone: the name is
-- lost, whatever it is, if it has no comma and no quote.
pub parse_extinf_bare :
    (duration name : Text)
    → NoSpace duration
    → Lacks quote name
    → Lacks comma name
    → parse_extinf (extinf ++ (duration ++ comma ∷ name)) ≡ some ((codes "duration", duration) ∷ [])
unfolding parse_extinf
parse_extinf_bare duration name d a b =
    ap (λ r. parse_split (scan_back false (reverse r) []))
      (trim_prefix-extinf (duration ++ comma ∷ name))
    ∙ ap parse_split (scan_back_name duration name a b)
    ∙ ap (λ x. parse_parts x (cut blank x) (trim_space name)) (trim_space-NoSpace duration d)
    ∙ ap (λ o. parse_parts duration o (trim_space name))
        (cut-none blank duration (NoSpace-Lacks duration d))
