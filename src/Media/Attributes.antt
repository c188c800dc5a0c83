-- ===== src/Media/Attributes.antt =====
-- The attributes of an entry, as a reader of the playlist gets them.
use kptv_proxy.Prelude.{
  ℕ, ◌≡◌, refl, ap, ◌∙◌, inl, inr, Bool, true, false, not, ◌&&◌, List, [], ◌∷◌, ◌++◌, take, length,
  ltb, ◌==◌, Bool-cases, if◌then◌else◌, arith,
}
use kptv_proxy.Text.{
  Text, codes, is_space, is_empty, text_eq, trim_left, trim_right, trim_space, fields, join,
}
use kptv_proxy.Text.Fields.{NoSpace, IsWord, AreWords, space, fields-AreWords}
use kptv_proxy.Text.Trim.{Starts, trim_left-Starts, trim_left_of_Starts, trim_right-Starts}
use kptv_proxy.M3u8.{equals, quote}
use kptv_proxy.M3u8.Scan.{trim_right_snoc, trim_right-NoSpace}
use kptv_proxy.Text.Split.{Lacks}
use kptv_proxy.M3u8.Playlist.{trim_right-append}
use kptv_proxy.M3u8.Written.{AreAttributes}
use kptv_proxy.Media.{
  MediaEntry, Account, Added, kind_attrs, common_attrs, all_attrs, pairs_of, sanitize, attr_value,
  escape_m3u_attribute, max_attr_len,
}

-- A test of keys: a word without an equals sign.
abbrev key_runes : Text → Bool
key_runes [] = true
key_runes (c ∷ s) = not (is_space c) && not (c == equals) && key_runes s

abbrev is_key : Text → Bool
is_key k = not (is_empty k) && key_runes k

abbrev are_keys : List Added → Bool
are_keys [] = true
are_keys (c ∷ calls) = is_key c.key && are_keys calls

key_runes_lem : (k : Text) → key_runes k ≡ true → NoSpace k × Lacks equals k
key_runes_lem [] h = (tt, tt)
key_runes_lem (c ∷ s) h =
    let (a, b) = key_runes_lem s (ground (arith, h)) in
    ((ground (arith, h), a), (ground (arith, h), b))

is_key_lem : (k : Text) → is_key k ≡ true → IsWord k × Lacks equals k
is_key_lem [] h = absurd (cc h)
is_key_lem (c ∷ s) h = let (a, b) = key_runes_lem (c ∷ s) h in ((refl, a), b)

are_keys-append :
    (xs ys : List Added) → are_keys xs ≡ true → are_keys ys ≡ true → are_keys (xs ++ ys) ≡ true
are_keys-append [] ys a b = b
are_keys-append (x ∷ xs) ys a b = ground (arith, a, are_keys-append xs ys, b)

kind_attrs_keys : (e : MediaEntry) → are_keys (kind_attrs e) ≡ true
unfolding is_space
kind_attrs_keys e = elim (Bool-cases (text_eq e.media_type (codes "music"))) [
  | inl a ↦ rw a refl
  | inr a ↦ elim (Bool-cases (text_eq e.media_type (codes "shows"))) [
    | inl b ↦ rw (a, b) refl
    | inr b ↦ rw (a, b) refl
  ]
]

all_attrs_keys : (e : MediaEntry) (a : Account) → are_keys (all_attrs e a) ≡ true
unfolding is_space all_attrs
all_attrs_keys e a = are_keys-append (kind_attrs e) (common_attrs e a) (kind_attrs_keys e) refl

-- No value has a quote.
abbrev pub AreQuoteFree : List (Text × Text) → Type 0
AreQuoteFree [] = Unit {0}
AreQuoteFree ((k, v) ∷ ps) = Lacks quote v × AreQuoteFree ps

pairs_of-AreAttributes :
    (calls : List Added)
    → are_keys calls ≡ true
    → AreQuoteFree (pairs_of calls)
    → AreAttributes (pairs_of calls)
unfolding pairs_of
pairs_of-AreAttributes [] h q = tt
pairs_of-AreAttributes (c ∷ calls) h q =
    chosen (c.when && not (is_empty (attr_value (sanitize c.value)))) q
      (pairs_of-AreAttributes calls (ground (arith, h)))
  where
    chosen :
        (b : Bool)
        → AreQuoteFree (
            if b
            then (c.key, escape_m3u_attribute (attr_value (sanitize c.value))) ∷ pairs_of calls
            else pairs_of calls)
        → (AreQuoteFree (pairs_of calls) → AreAttributes (pairs_of calls))
        → AreAttributes (
            if b
            then (c.key, escape_m3u_attribute (attr_value (sanitize c.value))) ∷ pairs_of calls
            else pairs_of calls)
    chosen true q g = let (w, l) = is_key_lem c.key (ground (arith, h)) in ((w, l, q.0), g q.1)
    chosen false q g = g q

pub all_attrs-AreAttributes :
    (e : MediaEntry) (a : Account)
    → AreQuoteFree (pairs_of (all_attrs e a))
    → AreAttributes (pairs_of (all_attrs e a))
all_attrs-AreAttributes e a q = pairs_of-AreAttributes (all_attrs e a) (all_attrs_keys e a) q

trim_right_cons :
    (c : ℕ) (s : Text) → is_empty s ≡ false → trim_right s ≡ s → trim_right (c ∷ s) ≡ c ∷ s
unfolding trim_right
trim_right_cons c [] h e = absurd (cc h)
trim_right_cons c (d ∷ s) h e = rw e refl

join_some : (w : Text) (ws : List Text) → AreWords (w ∷ ws) → is_empty (join space (w ∷ ws)) ≡ false
unfolding join
join_some [] ws a = absurd (cc a.0.0)
join_some (c ∷ w) [] a = refl
join_some (c ∷ w) (v ∷ ws) a = refl

trim_right-join : (ws : List Text) → AreWords ws → trim_right (join space ws) ≡ join space ws
unfolding join
trim_right-join [] a = unfold trim_right in refl
trim_right-join (w ∷ []) a = trim_right-NoSpace w a.0.1
trim_right-join (w ∷ v ∷ ws) a =
    trim_right-append w 32 (join space (v ∷ ws))
      (trim_right_cons 32 (join space (v ∷ ws)) (join_some v ws a.1) (trim_right-join (v ∷ ws) a.1))

join-Starts : (ws : List Text) → AreWords ws → Starts (join space ws)
unfolding join
join-Starts [] a = tt
join-Starts ([] ∷ ws) a = absurd (cc a.0.0)
join-Starts ((c ∷ w) ∷ []) a = a.0.1.0
join-Starts ((c ∷ w) ∷ v ∷ ws) a = a.0.1.0

Starts-snoc : (s : Text) (c : ℕ) → is_space c ≡ false → Starts s → Starts (s ++ c ∷ [])
Starts-snoc [] c h n = h
Starts-snoc (d ∷ s) c h n = n

trim_space-trimmed : (s : Text) → Starts s → trim_right s ≡ s → trim_space s ≡ s
unfolding trim_space
trim_space-trimmed s n e = ap trim_right (trim_left_of_Starts s n) ∙ e

-- A sanitized text has no spaces around it, cut or not.
pub trim_space-sanitize : (s : Text) → trim_space (sanitize s) ≡ sanitize s
unfolding sanitize
trim_space-sanitize s = chosen (is_empty s) (ltb max_attr_len (length (join space (fields s))))
  where
    chosen :
        (a b : Bool)
        → trim_space (
            if a
            then []
            else if b
            then trim_space (take max_attr_len (join space (fields s))) ++ 0x2026 ∷ []
            else join space (fields s))
          ≡ (if a
              then []
              else if b
              then trim_space (take max_attr_len (join space (fields s))) ++ 0x2026 ∷ []
              else join space (fields s))
    chosen true b = unfold trim_space trim_left trim_right in refl
    chosen false true =
        trim_space-trimmed (trim_space (take max_attr_len (join space (fields s))) ++ 0x2026 ∷ [])
          (Starts-snoc (trim_space (take max_attr_len (join space (fields s)))) 0x2026
            (unfold is_space in refl)
            (unfold trim_space in
              trim_right-Starts (trim_left (take max_attr_len (join space (fields s))))
                (trim_left-Starts (take max_attr_len (join space (fields s))))))
          (trim_right_snoc (trim_space (take max_attr_len (join space (fields s)))) 0x2026
            (unfold is_space in refl))
    chosen false false =
        trim_space-trimmed (join space (fields s)) (join-Starts (fields s) (fields-AreWords s))
          (trim_right-join (fields s) (fields-AreWords s))
