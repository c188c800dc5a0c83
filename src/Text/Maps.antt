-- ===== src/Text/Maps.antt =====
-- Maps from texts as association lists. Reading takes the first entry of a key; writing replaces it
-- in place, or adds one at the end.
use kptv_proxy.Prelude.{◌≡◌, refl, Option, none, some, List, [], ◌∷◌, if◌then◌else◌, arith}
use kptv_proxy.Text.{Text, text_eq}
use kptv_proxy.Text.Equality.{text_eq→eq, text_eq_refl}

abbrev pub TextMap : Type 0 → Type 0
TextMap V = List (Text × V)

module _ {V : Type 0} where
  unfoldable pub lookup : Text → TextMap V → Option V
  lookup k [] = none
  lookup k ((j, v) ∷ m) = if text_eq j k then some v else lookup k m

  unfoldable pub insert : Text → V → TextMap V → TextMap V
  insert k v [] = (k, v) ∷ []
  insert k v ((j, w) ∷ m) = if text_eq j k then (k, v) ∷ m else (j, w) ∷ insert k v m

  unfoldable pub delete : Text → TextMap V → TextMap V
  delete k [] = []
  delete k ((j, w) ∷ m) = let rest = delete k m in if text_eq j k then rest else (j, w) ∷ rest

  pub lookup-insert :
      (k j : Text) (v : V) (m : TextMap V)
      → lookup j (insert k v m) ≡ (if text_eq k j then some v else lookup j m)
  unfolding lookup insert
  lookup-insert k j v [] = refl
  lookup-insert k j v ((i, w) ∷ m) =
      ground (
        arith,
        text_eq→eq i k,
        text_eq→eq k j,
        text_eq→eq i j,
        text_eq_refl k,
        lookup-insert k j v m,
      )

  pub lookup-delete :
      (k j : Text) (m : TextMap V)
      → lookup j (delete k m) ≡ (if text_eq k j then none else lookup j m)
  unfolding lookup delete
  lookup-delete k j [] = ground arith
  lookup-delete k j ((i, w) ∷ m) = ground (
    arith,
    text_eq→eq i k,
    text_eq_refl k,
    text_eq→eq i j,
    text_eq_refl j,
    text_eq→eq k j,
    lookup-delete k j m,
  )
