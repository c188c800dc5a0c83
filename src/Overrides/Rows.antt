-- ===== src/Overrides/Rows.antt =====
-- The rows of the table of overrides, read after each statement, and their keys.
use kptv_proxy.Prelude.{
  ℕ, ◌≡◌, refl, sym, ap, ap₂, ◌∙◌, inl, inr, true, false, ◌&&◌, not, Option, none, some, [], ◌∷◌,
  if◌then◌else◌, ◌==◌, Bool-cases, arith,
}
use kptv_proxy.Text.{Text, text_eq}
use kptv_proxy.Text.Equality.{text_eq→eq, text_eq_refl}
use kptv_proxy.Text.Maps.{TextMap, lookup, insert, lookup-insert}
use kptv_proxy.Overrides.{
  StreamOverride, Table, override_key, same_pair, get_stream_override, index_rows, with_status,
  or_fresh, upsert_dead, has_order, delete_alive, clear_status, status_alive,
}

-- A channel name holds no NUL.
abbrev pub HasNoNul : Text → Type 0
HasNoNul [] = Unit {0}
HasNoNul (c ∷ s) = ((c == 0) ≡ false) × HasNoNul s

-- UNIQUE(channel, s_hash), and no NUL in a channel name.
abbrev pub IsSound : Table → Type 0
IsSound [] = Unit {0}
IsSound ((c, o) ∷ t) = HasNoNul c × (get_stream_override t c o.hash ≡ none) × IsSound t

pub same_pair_trans :
    (a b c d e f : Text) → same_pair a b c d ≡ true → same_pair c d e f ≡ same_pair a b e f
same_pair_trans a b c d e f h =
    let first : a ≡ c = text_eq→eq a c (ground arith) in
    let second : b ≡ d = text_eq→eq b d (ground arith) in
    ap₂ (λ x y. same_pair x y e f) (sym first) (sym second)

pub same_pair_sym : (a b c d : Text) → same_pair a b c d ≡ true → same_pair c d a b ≡ true
same_pair_sym a b c d h =
    same_pair_trans a b c d a b h ∙ ground (arith, text_eq_refl a, text_eq_refl b)

pub same_pair_refl : (c h : Text) → same_pair c h c h ≡ true
same_pair_refl c h = ground (arith, text_eq_refl c, text_eq_refl h)

-- Keys tell pairs apart, as a channel name holds no NUL.
pub text_eq-override_key :
    (c h d k : Text)
    → HasNoNul c
    → HasNoNul d
    → text_eq (override_key c h) (override_key d k) ≡ same_pair c h d k
unfolding override_key text_eq
text_eq-override_key [] h [] k u v = refl
text_eq-override_key [] h (x ∷ d) k u v = ground (arith, v.0)
text_eq-override_key (x ∷ c) h [] k u v = ground (arith, u.0)
text_eq-override_key (x ∷ c) h (y ∷ d) k u v = ground (arith, text_eq-override_key c h d k u.1 v.1)

abbrev pub found : Option StreamOverride → Option StreamOverride → Option StreamOverride
found none later = later
found (some o) later = some o

pub get-upsert_dead :
    (t : Table) (c h r : Text) (s : ℕ) (d k : Text)
    → get_stream_override (upsert_dead t c h r s) d k ≡ (
        if same_pair c h d k
        then some (with_status s r (or_fresh h (get_stream_override t c h)))
        else get_stream_override t d k)
unfolding get_stream_override upsert_dead
get-upsert_dead [] c h r s d k = refl
get-upsert_dead ((b, o) ∷ t) c h r s d k = ground (
  arith,
  get-upsert_dead t c h r s d k,
  same_pair_trans b o.hash c h d k,
  same_pair_trans b o.hash d k c h,
  same_pair_sym c h d k,
)

-- What the first statement of SetStreamAlive leaves of a row.
abbrev pub ordered_only : Option StreamOverride → Option StreamOverride
ordered_only none = none
ordered_only (some o) = if has_order o then some o else none

abbrev pub cleared : Option StreamOverride → Option StreamOverride
cleared none = none
cleared (some o) = some (with_status status_alive [] o)

pub get-other :
    (t : Table) (c h d k : Text)
    → same_pair c h d k ≡ true
    → get_stream_override t d k ≡ get_stream_override t c h
get-other t c h d k e =
    let first : c ≡ d = text_eq→eq c d (ground arith) in
    let second : h ≡ k = text_eq→eq h k (ground arith) in
    ap₂ (get_stream_override t) (sym first) (sym second)

pub get-delete_alive :
    (t : Table) (c h d k : Text)
    → IsSound t
    → get_stream_override (delete_alive t c h) d k ≡ (
        if same_pair c h d k
        then ordered_only (get_stream_override t c h)
        else get_stream_override t d k)
unfolding get_stream_override delete_alive
get-delete_alive [] c h d k v = ground arith
get-delete_alive ((b, o) ∷ t) c h d k v = ground (
  arith,
  v.1,
  get-delete_alive t c h d k v.2,
  get-other t b o.hash c h,
  same_pair_trans b o.hash c h d k,
  same_pair_trans b o.hash d k c h,
  same_pair_sym c h d k,
)

pub get-clear_status :
    (t : Table) (c h d k : Text)
    → get_stream_override (clear_status t c h) d k ≡ (
        if same_pair c h d k
        then cleared (get_stream_override t c h)
        else get_stream_override t d k)
unfolding get_stream_override clear_status
get-clear_status [] c h d k = ground arith
get-clear_status ((b, o) ∷ t) c h d k = ground (
  arith,
  get-clear_status t c h d k,
  same_pair_trans b o.hash c h d k,
  same_pair_trans b o.hash d k c h,
  same_pair_sym c h d k,
)

pub upsert_dead-IsSound :
    (t : Table) (c h r : Text) (s : ℕ) → HasNoNul c → IsSound t → IsSound (upsert_dead t c h r s)
unfolding upsert_dead
upsert_dead-IsSound [] c h r s n v = (n, unfold get_stream_override in refl, tt)
upsert_dead-IsSound ((b, o) ∷ t) c h r s n v = elim (Bool-cases (same_pair b o.hash c h)) [
  | inl e ↦ rw e v
  | inr e ↦ rw e (
    v.0,
    ground (arith, get-upsert_dead t c h r s b o.hash, same_pair_sym c h b o.hash, v.1),
    upsert_dead-IsSound t c h r s n v.2,
  )
]

pub delete_alive-IsSound : (t : Table) (c h : Text) → IsSound t → IsSound (delete_alive t c h)
unfolding delete_alive
delete_alive-IsSound [] c h v = v
delete_alive-IsSound ((b, o) ∷ t) c h v =
    elim (Bool-cases (same_pair b o.hash c h && not (has_order o))) [
      | inl e ↦ rw e (delete_alive-IsSound t c h v.2)
      | inr e ↦ rw e (
        v.0,
        ground (
          arith,
          get-delete_alive t c h b o.hash v.2,
          get-other t b o.hash c h,
          same_pair_sym c h b o.hash,
          v.1,
        ),
        delete_alive-IsSound t c h v.2,
      )
    ]

pub clear_status-IsSound : (t : Table) (c h : Text) → IsSound t → IsSound (clear_status t c h)
unfolding clear_status
clear_status-IsSound [] c h v = v
clear_status-IsSound ((b, o) ∷ t) c h v =
    let free : get_stream_override (clear_status t c h) b o.hash ≡ none = ground (
      arith,
      get-clear_status t c h b o.hash,
      get-other t b o.hash c h,
      same_pair_sym c h b o.hash,
      v.1,
    ) in
    elim (Bool-cases (same_pair b o.hash c h)) [
      | inl e ↦ rw e (v.0, free, clear_status-IsSound t c h v.2)
      | inr e ↦ rw e (v.0, free, clear_status-IsSound t c h v.2)
    ]

-- The snapshot of a table reads as the table does.
pub lookup-index_rows :
    (m : TextMap StreamOverride) (t : Table) (c h : Text)
    → HasNoNul c
    → IsSound t
    → lookup (override_key c h) (index_rows m t)
      ≡ found (get_stream_override t c h) (lookup (override_key c h) m)
unfolding index_rows get_stream_override
lookup-index_rows m [] c h n v = refl
lookup-index_rows m ((b, o) ∷ t) c h n v =
    lookup-index_rows (insert (override_key b o.hash) o m) t c h n v.2
    ∙ ap (found (get_stream_override t c h))
        (lookup-insert (override_key b o.hash) (override_key c h) o m)
    ∙ ground (
      arith,
      text_eq-override_key b o.hash c h v.0 n,
      get-other t b o.hash c h,
      same_pair_sym c h b o.hash,
      v.1,
    )
