-- ===== src/Filter/Cache.antt =====
-- The manager's cache of compiled filters, GetOrCreateFilter, ClearFilters and RemoveFilter of
-- work/filter/filter.go, over sequences of calls.
use kptv_proxy.Prelude.{
  ◌≡◌, refl, sym, subst, ap, ◌∙◌, inl, inr, Option, some, List, [], ◌∷◌, Bool-cases, Option-cases,
}
use kptv_proxy.Text.{Text, Unicode, text_eq}
use kptv_proxy.Text.Equality.{text_eq→eq}
use kptv_proxy.Text.Maps.{lookup, insert, delete, lookup-insert, lookup-delete}
use kptv_proxy.Config.Rules.{Regexps, FilterProfile}
use kptv_proxy.Config.Profiles.{SourceConfig, resolve_rules}
use kptv_proxy.Filter.Types.{CompiledFilter}
use kptv_proxy.Filter.Signature.{IsClean, without_notes}
use kptv_proxy.Filter.Signature.Compiled.{build_filter-filter_signature}
use kptv_proxy.Filter.Compile.{
  FilterManager, build_filter, filter_signature, get_or_create_filter, store_filter, clear_filters,
  remove_filter,
}

pub data CacheCall : Type 0 where
  creates : SourceConfig → Option (List FilterProfile) → CacheCall
  clears : CacheCall
  removes : Text → CacheCall

module _ (u : Unicode) (lib : Regexps) where
  -- A filter that some clean settings with this signature compile to.
  abbrev pub IsSigned : Text → CompiledFilter lib.Regexp → Type 0
  IsSigned signature f =
      (s : SourceConfig) × (cfg : Option (List FilterProfile)) × IsClean s cfg
      × (filter_signature s (resolve_rules s cfg) ≡ signature)
      × (f ≡ build_filter u lib s (resolve_rules s cfg))

  -- The settings of every call are clean.
  abbrev pub AreClean : List CacheCall → Type 0
  AreClean [] = Unit {0}
  AreClean (creates s cfg ∷ calls) = IsClean s cfg × AreClean calls
  AreClean (clears ∷ calls) = AreClean calls
  AreClean (removes url ∷ calls) = AreClean calls

  unfoldable pub run : FilterManager u lib → List CacheCall → FilterManager u lib
  run fm [] = fm
  run fm (creates s cfg ∷ calls) = run (get_or_create_filter u lib fm s cfg).0 calls
  run fm (clears ∷ calls) = run (clear_filters u lib fm) calls
  run fm (removes url ∷ calls) = run (remove_filter u lib fm url) calls

  abbrev IsCoherent : FilterManager u lib → Type 0
  IsCoherent fm =
      (k signature : Text) (f : CompiledFilter lib.Regexp)
      → lookup k fm ≡ some (signature, f)
      → IsSigned signature f

  empty-IsCoherent : IsCoherent []
  unfolding lookup
  empty-IsCoherent k signature f e = cc e

  insert-IsCoherent :
      (fm : FilterManager u lib) (k signature : Text) (f : CompiledFilter lib.Regexp)
      → IsSigned signature f
      → IsCoherent fm
      → IsCoherent (insert k (signature, f) fm)
  insert-IsCoherent fm k signature f w v j signature' f' e = elim (Bool-cases (text_eq k j)) [
    | inl y ↦
        let same : some (signature, f) ≡ some (signature', f') =
          rw y at (sym (lookup-insert k j (signature, f) fm) ∙ e) in
        let both : ◌≡◌ {A = Text × CompiledFilter lib.Regexp} (signature, f) (signature', f') =
          cc same in
        subst (λ p. IsSigned p.0 p.1) both w
    | inr y ↦ v j signature' f' (rw y at (sym (lookup-insert k j (signature, f) fm) ∙ e))
  ]

  delete-IsCoherent :
      (fm : FilterManager u lib) (k : Text) → IsCoherent fm → IsCoherent (delete k fm)
  delete-IsCoherent fm k v j signature f e = elim (Bool-cases (text_eq k j)) [
    | inl y ↦ cc (rw y at (sym (lookup-delete k j fm) ∙ e))
    | inr y ↦ v j signature f (rw y at (sym (lookup-delete k j fm) ∙ e))
  ]

  store-IsCoherent :
      (fm : FilterManager u lib) (s : SourceConfig) (cfg : Option (List FilterProfile))
      → IsClean s cfg
      → IsCoherent fm
      → IsCoherent (store_filter u lib fm s (resolve_rules s cfg)).0
        × IsSigned
            (filter_signature s (resolve_rules s cfg))
            (store_filter u lib fm s (resolve_rules s cfg)).1
  store-IsCoherent fm s cfg n v =
      let signed : IsSigned (filter_signature s (resolve_rules s cfg))
          (build_filter u lib s (resolve_rules s cfg)) =
        (s, cfg, n, refl, refl) in
      (
        insert-IsCoherent fm s.url (filter_signature s (resolve_rules s cfg))
            (build_filter u lib s (resolve_rules s cfg)) signed v,
        signed,
      )

  get-IsCoherent :
      (fm : FilterManager u lib) (s : SourceConfig) (cfg : Option (List FilterProfile))
      → IsClean s cfg
      → IsCoherent fm
      → IsCoherent (get_or_create_filter u lib fm s cfg).0
        × IsSigned
            (filter_signature s (resolve_rules s cfg))
            (get_or_create_filter u lib fm s cfg).1
  unfolding get_or_create_filter
  get-IsCoherent fm s cfg n v = elim (Option-cases (lookup s.url fm)) [
    | inl e ↦ rw (e, get_or_create_filter) (store-IsCoherent fm s cfg n v)
    | inr ((signature, f), e) ↦
        elim (Bool-cases (text_eq signature (filter_signature s (resolve_rules s cfg)))) [
          | inl y ↦
              rw (e, get_or_create_filter, y)
                (v, subst (λ t. IsSigned t f) (text_eq→eq _ _ y) (v s.url signature f e))
          | inr y ↦
              rw (e, get_or_create_filter, y)
                (store-IsCoherent (delete s.url fm) s cfg n (delete-IsCoherent fm s.url v))
        ]
  ]

  run-IsCoherent :
      (fm : FilterManager u lib) (calls : List CacheCall)
      → AreClean calls
      → IsCoherent fm
      → IsCoherent (run fm calls)
  unfolding run clear_filters remove_filter
  run-IsCoherent fm [] n v = v
  run-IsCoherent fm (creates s cfg ∷ calls) n v =
      run-IsCoherent (get_or_create_filter u lib fm s cfg).0 calls n.1
        (get-IsCoherent fm s cfg n.0 v).0
  run-IsCoherent fm (clears ∷ calls) n v = run-IsCoherent [] calls n empty-IsCoherent
  run-IsCoherent fm (removes url ∷ calls) n v =
      run-IsCoherent (delete url fm) calls n (delete-IsCoherent fm url v)

  -- Whatever calls a new manager had, GetOrCreateFilter never returns a stale filter: what it returns
  -- is what the source's present settings compile to, up to the operators' notes on the rules. The
  -- settings of the calls and the present ones hold none of the signature's separators (no text a
  -- zero byte, no rule a byte 2, no list an empty item or a byte 1, no origin, field or action of a
  -- rule a bar, no group with a forced type an equals sign), and the forced types, which are a Go
  -- map, stand in the order of their lines in the signature.
  pub get_or_create_filter-run :
      (calls : List CacheCall) (s : SourceConfig) (cfg : Option (List FilterProfile))
      → AreClean calls
      → IsClean s cfg
      → without_notes (get_or_create_filter u lib (run [] calls) s cfg).1
        ≡ without_notes (build_filter u lib s (resolve_rules s cfg))
  get_or_create_filter-run calls s cfg cleans clean =
      let (s', cfg', clean', same, e) =
        (get-IsCoherent (run [] calls) s cfg clean
          (run-IsCoherent [] calls cleans empty-IsCoherent)).1 in
      ap without_notes e ∙ build_filter-filter_signature lib u s' s cfg' cfg clean' clean same
