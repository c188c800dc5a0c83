-- ===== src/Filter/Unfiltered.antt =====
-- A source with no filters: the two ways of Apply in work/filter/filter.go.
use kptv_proxy.Prelude.{
  ◌≡◌, refl, sym, ap, ap₂, ◌∙◌, true, false, Option, none, List, [], ◌∷◌, map, arith, subst,
}
use kptv_proxy.Text.{Text, Unicode}
use kptv_proxy.Config.Rules.{Regexps, FilterProfile}
use kptv_proxy.Config.Profiles.{SourceConfig, has_content_filters, resolve_rules}
use kptv_proxy.Filter.Types.{Stream, CompiledFilter}
use kptv_proxy.Filter.Quality.{Outcome, Stage, Mark}
use kptv_proxy.Filter.QualityStage.{sweep, sweep_no_tiers}
use kptv_proxy.Filter.Report.{new_report}
use kptv_proxy.Filter.Compile.{build_filter}
use kptv_proxy.Filter.Apply.{Options, pass, pass_all, apply_filter, apply_unfiltered, narrow}
use kptv_proxy.Filter.Kept.{
  outcome_of, kept_streams, collect-kept_streams, apply_filter-kept, rules_say, outcome_with,
}
use kptv_proxy.Filter.Rules.{group_of}
use kptv_proxy.Text.Maps.{lookup}
use kptv_proxy.Filter.Stages.{
  resolve_content_type, content_type_of_stream, hits_any, passes_patterns, should_include_stream,
  passes_group_filter, gate, match_subjects,
}
use kptv_proxy.Filter.Verdicts.{first_match}
use kptv_proxy.Config.Groups.{group_key}
use kptv_proxy.Filter.ApplyLaws.{stamp}
use kptv_proxy.Filter.Plain.{IsOpen, no_filters-IsPlain, build_filter-IsOpen}

module _ (u : Unicode) (lib : Regexps) (vod_regex : Option lib.Regexp) where
  resolve_content_type-open :
      (f : CompiledFilter lib.Regexp) (s : Stream) (subjects : List Text) (key : Text)
      → IsOpen lib f
      → resolve_content_type u lib vod_regex s f subjects key
        ≡ content_type_of_stream u lib vod_regex s
  unfolding resolve_content_type hits_any lookup
  resolve_content_type-open f s subjects key o =
      rw (o.forced, o.series_category, o.vod_category, o.live_category) refl

  passes_open : (subjects : List Text) → passes_patterns u lib none none subjects ≡ true
  unfolding passes_patterns hits_any
  passes_open subjects = refl

  should_include_stream-open :
      (f : CompiledFilter lib.Regexp) (content_type : Text) (subjects : List Text)
      → IsOpen lib f
      → should_include_stream u lib f content_type subjects ≡ true
  unfolding should_include_stream
  should_include_stream-open f content_type subjects o =
      rw
        (
          o.live_include,
          o.live_exclude,
          o.series_include,
          o.series_exclude,
          o.vod_include,
          o.vod_exclude,
          passes_open subjects,
        )
        (ground arith)

  rules_say-open :
      (f : CompiledFilter lib.Regexp) (s : Stream)
      → IsOpen lib f
      → rules_say u lib vod_regex f s ≡ (true, none)
  unfolding first_match
  rules_say-open f s o = rw (o.rules, o.keeps) refl

  gate-open :
      (f : CompiledFilter lib.Regexp) (content_type : Text)
      → IsOpen lib f
      → gate u lib f content_type ≡ true
  unfolding gate
  gate-open f content_type o = rw o.types refl

  narrow-open :
      (f : CompiledFilter lib.Regexp) (group key content_type : Text) (subjects : List Text)
      → IsOpen lib f
      → narrow u lib vod_regex f group key content_type subjects (true, none)
        ≡ (true, Stage.default)
  unfolding narrow passes_group_filter
  narrow-open f group key content_type subjects o =
      simp
        (o.mode, gate-open f content_type o, should_include_stream-open f content_type subjects o)

  abbrev outcome_at : Stream → Text → Outcome
  outcome_at s content_type = record {
    stream = record s { content_type = content_type };
    group_name = group_of s;
    group_key = group_key u (group_of s);
    content_type = content_type;
    keep = true;
    stage = Stage.default;
    rule_index = 0;
  }

  outcome_of-pass :
      (f : CompiledFilter lib.Regexp) (s : Stream)
      → IsOpen lib f
      → outcome_of u lib vod_regex f s ≡ pass u lib vod_regex s
  unfolding pass
  outcome_of-pass f s o =
      ap (outcome_with u lib vod_regex f s) (rules_say-open f s o)
      ∙ rw
          (narrow-open f (group_of s) (group_key u (group_of s))
            (stamp u lib vod_regex f s).content_type (match_subjects u s) o)
          (ap (outcome_at s)
            (resolve_content_type-open f s (match_subjects u s) (group_key u (group_of s)) o))

  abbrev pub stamped : Stream → Stream
  stamped s = record s { content_type = content_type_of_stream u lib vod_regex s }

  kept_streams-pass_all :
      (streams : List Stream)
      → kept_streams (pass_all u lib vod_regex streams) ≡ map stamped streams
  unfolding pass_all pass
  kept_streams-pass_all [] = refl
  kept_streams-pass_all (s ∷ streams) = ap (λ r. stamped s ∷ r) (kept_streams-pass_all streams)

  map-pass :
      (f : CompiledFilter lib.Regexp) (streams : List Stream)
      → IsOpen lib f
      → map (outcome_of u lib vod_regex f) streams ≡ pass_all u lib vod_regex streams
  unfolding pass_all
  map-pass f [] o = refl
  map-pass f (s ∷ streams) o = ap₂ ◌∷◌ (outcome_of-pass f s o) (map-pass f streams o)

  sweep_open :
      (tiers : List lib.Regexp) (all : List (Option Mark)) (os : List Outcome)
      → tiers ≡ []
      → (sweep u lib tiers all os).0 ≡ os
  sweep_open tiers all os e =
      subst (λ t. (sweep u lib t all os).0 ≡ os) (sym e)
        (ap (λ p. p.0) (sweep_no_tiers u lib all os))

  -- If a source has no filters, then a pass of Apply with the filter that its settings compile to
  -- returns the streams that the short way of Apply returns, and these are the whole catalog, in
  -- its order, each stream with nothing changed but its content type, which is the one that
  -- content_type_of_stream finds for it.
  pub apply_filter-unfiltered :
      (s : SourceConfig) (cfg : Option (List FilterProfile)) (opts : Options)
      (streams : List Stream)
      → has_content_filters s ≡ false
      → ((apply_filter u lib vod_regex (build_filter u lib s (resolve_rules s cfg)) opts streams).0
          ≡ (apply_unfiltered u lib vod_regex opts streams).0)
        × ((apply_unfiltered u lib vod_regex opts streams).0 ≡ map stamped streams)
  unfolding apply_unfiltered
  apply_filter-unfiltered s cfg opts streams h =
      let f = build_filter u lib s (resolve_rules s cfg) in
      let o = build_filter-IsOpen u lib s cfg (no_filters-IsPlain s h) in
      (
        apply_filter-kept u lib vod_regex f opts streams
            ∙ ap kept_streams (sweep_open f.quality_tiers _ _ o.tiers ∙ map-pass f streams o)
            ∙ sym
                (collect-kept_streams opts.verdicts new_report (pass_all u lib vod_regex streams)),
        collect-kept_streams opts.verdicts new_report (pass_all u lib vod_regex streams)
            ∙ kept_streams-pass_all streams,
      )
