-- ===== src/Text/Fields.antt =====
-- Fields and Join: splitting at runs of spaces.
use kptv_proxy.Prelude.{
  ℕ, ◌≡◌, refl, ap, ◌∙◌, false, ◌&&◌, inl, inr, List, [], ◌∷◌, ◌++◌, map, Bool-cases, append-nil,
  if◌then◌else◌, arith,
}
use kptv_proxy.Text.{
  Text, Unicode, is_space, is_empty, to_lower, trim_left, trim_right, trim_space, close, words,
  fields, join,
}

abbrev pub NoSpace : Text → Type 0
NoSpace [] = Unit {0}
NoSpace (c ∷ w) = (is_space c ≡ false) × NoSpace w

abbrev pub IsWord : Text → Type 0
IsWord w = (is_empty w ≡ false) × NoSpace w

abbrev pub AreWords : List Text → Type 0
AreWords [] = Unit {0}
AreWords (w ∷ ws) = IsWord w × AreWords ws

close-AreWords : (w : Text) (ws : List Text) → NoSpace w → AreWords ws → AreWords (close w ws)
close-AreWords [] ws n a = a
close-AreWords (c ∷ w) ws n a = ((refl, n), a)

words-AreWords : (s : Text) → NoSpace (words s).0 × AreWords (words s).1
unfolding words
words-AreWords [] = (tt, tt)
words-AreWords (c ∷ s) =
    let (n, a) = words-AreWords s in ground (arith, close-AreWords (words s).0 (words s).1 n a)

pub fields-AreWords : (s : Text) → AreWords (fields s)
unfolding fields
fields-AreWords s = let (n, a) = words-AreWords s in close-AreWords (words s).0 (words s).1 n a

words-append : (w s : Text) → NoSpace w → words (w ++ s) ≡ (w ++ (words s).0, (words s).1)
unfolding words
words-append [] s n = refl
words-append (c ∷ w) s n = ground (arith, words-append w s n.1)

abbrev pub space : Text
space = 32 ∷ []

words-space : (s : Text) → words (space ++ s) ≡ ([], fields s)
unfolding words fields is_space
words-space s = refl

close_word : (w : Text) (ws : List Text) → is_empty w ≡ false → close w ws ≡ w ∷ ws
close_word [] ws h = cc
close_word (c ∷ w) ws h = refl

words_word : (w : Text) → NoSpace w → words w ≡ (w, [])
unfolding words
words_word [] n = refl
words_word (c ∷ w) n = ground (arith, words_word w n.1)

-- Words joined by single spaces are split again into the same words.
pub fields-join : (ws : List Text) → AreWords ws → fields (join space ws) ≡ ws
unfolding fields join
fields-join [] a = refl
fields-join (w ∷ []) a = rw (words_word w a.0.1) (close_word w [] a.0.0)
fields-join (w ∷ v ∷ ws) a =
    ap (λ p. close p.0 p.1)
      (words-append w (space ++ join space (v ∷ ws)) a.0.1
        ∙ ap (λ p. (w ++ p.0, p.1)) (words-space (join space (v ∷ ws))))
    ∙ ap (λ t. close t (fields (join space (v ∷ ws)))) (append-nil w)
    ∙ close_word w (fields (join space (v ∷ ws))) a.0.0
    ∙ ap (λ r. w ∷ r) (fields-join (v ∷ ws) a.1)

trim_step :
    (c : ℕ) (r s : Text)
    → words r ≡ words s
    → words (if is_empty r && is_space c then [] else c ∷ r) ≡ words (c ∷ s)
unfolding words
trim_step c [] s e = ground (arith, ap (λ p. p.0) e, ap (λ p. p.1) e)
trim_step c (d ∷ r) s e = rw e

words-trim_right : (s : Text) → words (trim_right s) ≡ words s
unfolding words trim_right
words-trim_right [] = refl
words-trim_right (c ∷ s) = trim_step c (trim_right s) s (words-trim_right s)

fields-trim_left : (s : Text) → fields (trim_left s) ≡ fields s
unfolding words fields trim_left
fields-trim_left [] = refl
fields-trim_left (c ∷ s) = ground (arith, fields-trim_left s)

pub fields-trim_space : (s : Text) → fields (trim_space s) ≡ fields s
unfolding trim_space fields
fields-trim_space s = ap (λ p. close p.0 p.1) (words-trim_right (trim_left s)) ∙ fields-trim_left s

module _ (u : Unicode) where
  lower_words : List Text → List Text
  lower_words = map (to_lower u)

  close-to_lower :
      (w : Text) (ws : List Text)
      → close (to_lower u w) (map (to_lower u) ws) ≡ map (to_lower u) (close w ws)
  unfolding to_lower
  close-to_lower [] ws = refl
  close-to_lower (c ∷ w) ws = refl

  words-to_lower :
      (s : Text) → words (to_lower u s) ≡ (to_lower u (words s).0, map (to_lower u) (words s).1)
  unfolding words to_lower
  words-to_lower [] = refl
  words-to_lower (c ∷ s) = elim (Bool-cases (is_space c)) [
    | inl blank ↦
        rw (u.lower_space c, blank, words-to_lower s)
          (ap (λ ws. ([], ws)) (close-to_lower (words s).0 (words s).1))
    | inr letter ↦ rw (u.lower_space c, letter, words-to_lower s)
  ]

  pub fields-to_lower : (s : Text) → fields (to_lower u s) ≡ map (to_lower u) (fields s)
  unfolding fields
  fields-to_lower s =
      ap (λ p. close p.0 p.1) (words-to_lower s) ∙ close-to_lower (words s).0 (words s).1
