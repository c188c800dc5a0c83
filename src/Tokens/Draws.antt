-- ===== src/Tokens/Draws.antt =====
-- What is drawn from the bytes that are read.
use kptv_proxy.Prelude.{
  ℕ, zero, suc, ◌≤◌, ◌<◌, ◌≡◌, refl, sym, subst, ap, ◌∙◌, inl, inr, some, List, [], ◌∷◌, ◌++◌, map,
  append_assoc, append-nil, length, length-append, length-take, take, ltb, leb, ◌==◌, Bool-cases,
  if◌then◌else◌, arith,
}
use kptv_proxy.Text.{Text}
use kptv_proxy.Tokens.{limit, char_of, draw, finished, draw_all, random_alnum}

-- The characters of the bytes below the limit.
abbrev pub kept_chars : List ℕ → Text
kept_chars [] = []
kept_chars (b ∷ bytes) =
    let rest = kept_chars bytes in if leb limit b then rest else char_of b ∷ rest

abbrev pub concat : List (List ℕ) → List ℕ
concat [] = []
concat (buf ∷ bufs) = buf ++ concat bufs

take_exact : (xs ys : Text) → take (length xs) (xs ++ ys) ≡ xs
take_exact [] ys = refl
take_exact (x ∷ xs) ys = ap (λ r. x ∷ r) (take_exact xs ys)

take_first : (n : ℕ) (xs ys : Text) → length xs ≡ n → take n (xs ++ ys) ≡ xs
take_first n xs ys e = subst (λ k. take k (xs ++ ys) ≡ xs) e (take_exact xs ys)

take_all : (n : ℕ) (xs : Text) → length xs ≤ n → take n xs ≡ xs
take_all zero [] p = refl
take_all zero (x ∷ xs) p = absurd (omega (arith, p))
take_all (suc n) [] p = refl
take_all (suc n) (x ∷ xs) p = ap (λ r. x ∷ r) (take_all n xs (omega (arith, p)))

take_twice : (n : ℕ) (xs ys : Text) → take n (take n xs ++ ys) ≡ take n (xs ++ ys)
take_twice zero xs ys = refl
take_twice (suc n) [] ys = refl
take_twice (suc n) (x ∷ xs) ys = ap (λ r. x ∷ r) (take_twice n xs ys)

kept_chars-append : (xs ys : List ℕ) → kept_chars (xs ++ ys) ≡ kept_chars xs ++ kept_chars ys
kept_chars-append [] ys = refl
kept_chars-append (x ∷ xs) ys = elim (Bool-cases (leb limit x)) [
  | inl e ↦ rw e (kept_chars-append xs ys)
  | inr e ↦ rw e (ap (λ r. char_of x ∷ r) (kept_chars-append xs ys))
]

draw_lem :
    (n : ℕ) (out : Text) (buf : List ℕ)
    → length out < n
    → draw n out buf ≡ take n (out ++ kept_chars buf)
unfolding draw
draw_lem n out [] p = sym (ap (take n) (append-nil out) ∙ take_all n out (omega (arith, p)))
draw_lem n out (b ∷ buf) p = elim (Bool-cases (leb limit b)) [
  | inl e ↦ rw e (draw_lem n out buf p)
  | inr e ↦ elim (Bool-cases (length (out ++ char_of b ∷ []) == n)) [
    | inl f ↦
        rw (e, f)
          (sym (
            ap (take n) (sym (append_assoc out (char_of b ∷ []) (kept_chars buf)))
            ∙ take_first n (out ++ char_of b ∷ []) (kept_chars buf) (ground (arith, f))))
    | inr f ↦
        rw (e, f)
          (draw_lem n (out ++ char_of b ∷ []) buf
              (ground (arith, f, p, length-append out (char_of b ∷ [])))
            ∙ ap (take n) (append_assoc out (char_of b ∷ []) (kept_chars buf)))
  ]
]

draw_all_lem :
    (n : ℕ) (bufs : List (List ℕ)) (out : Text)
    → length out ≤ n
    → n ≤ length (out ++ kept_chars (concat bufs))
    → draw_all n (map some bufs) out ≡ finished (take n (out ++ kept_chars (concat bufs)))
unfolding draw_all
draw_all_lem n [] out p q = elim (Bool-cases (ltb (length out) n)) [
  | inl e ↦ absurd (ground (arith, e, q, length-append out []))
  | inr e ↦ rw e (ap finished (sym (ap (take n) (append-nil out) ∙ take_all n out p)))
]
draw_all_lem n (buf ∷ bufs) out p q = elim (Bool-cases (ltb (length out) n)) [
  | inl e ↦ rw e (
      ap (draw_all n (map some bufs)) (draw_lem n out buf (ground (arith, e)))
      ∙ draw_all_lem n bufs (take n (out ++ kept_chars buf))
          (omega (arith, length-take n (out ++ kept_chars buf)))
          (omega (
            arith,
            length-append (take n (out ++ kept_chars buf)) (kept_chars (concat bufs)),
            length-take n (out ++ kept_chars buf),
            length-append out (kept_chars buf),
            length-append out (kept_chars (buf ++ concat bufs)),
            ap length (kept_chars-append buf (concat bufs)),
            length-append (kept_chars buf) (kept_chars (concat bufs)),
            q,
          ))
      ∙ ap finished (
          take_twice n (out ++ kept_chars buf) (kept_chars (concat bufs))
          ∙ ap (take n) (
              append_assoc out (kept_chars buf) (kept_chars (concat bufs))
              ∙ ap (λ r. out ++ r) (sym (kept_chars-append buf (concat bufs))))))
  | inr e ↦ rw e (
      ap finished (sym (take_first n out (kept_chars (buf ++ concat bufs)) (ground (arith, e, p)))))
]

-- If the reads do not fail and have enough bytes below the limit between them, randomAlnum ends, and
-- it returns the characters of the first of these bytes, as many as were asked for, wherever the
-- buffers begin and end.
pub random_alnum_lem :
    (n : ℕ) (bufs : List (List ℕ))
    → n ≤ length (kept_chars (concat bufs))
    → random_alnum n (map some bufs) ≡ finished (take n (kept_chars (concat bufs)))
unfolding random_alnum
random_alnum_lem n bufs p = draw_all_lem n bufs [] (omega arith) p
