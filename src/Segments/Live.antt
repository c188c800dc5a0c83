-- ===== src/Segments/Live.antt =====
-- Refreshes of one playlist, by the queue that the tracker stands for.
use kptv_proxy.Prelude.{
  ℕ, ◌+◌, ◌<◌, ◌≤◌, ◌≡◌, refl, sym, subst, ◌∙◌, inl, inr, Bool, true, false, not, ◌&&◌, Option,
  none, some, List, [], ◌∷◌, ◌++◌, length, length-append, ltb, Bool-cases, if◌then◌else◌, arith,
}
use kptv_proxy.Text.{Text, is_empty, contains}
use kptv_proxy.Text.Equality.{text_eq_refl, contains_snoc}
use kptv_proxy.Segments.{SegmentTracker, has_processed, mark_processed}
use kptv_proxy.Segments.Queue.{push}
use kptv_proxy.Segments.Slots.{AreDistinct, snoc-AreDistinct}
use kptv_proxy.Segments.Holds.{Holds, marked, mark-Holds}
use kptv_proxy.Segments.Refresh.{
  Upstream, Loop, Ending, ended, cancelled, aborted, panicked, mark_in, failed, streamed, answered,
  send, visit, held_back, hls_max_segment_errors,
}

-- The loop's tracker stands for `q`, and what was sent is in `q`, no segment twice.
pub record Kept (m : ℕ) (q : List Text) (l : Loop) : Type 0 where
  pub holds : Holds m l.tracker q
  pub once : AreDistinct l.sent
  pub sent_known : (u : Text) → contains l.sent u ≡ true → contains q u ≡ true

-- One segment later.
pub record Visited (m : ℕ) (q : List Text) (url : Text) (l l' : Loop) : Type 0 where
  pub later : List Text
  pub kept : Kept m later l'
  pub near : length later ≤ length q + 1
  pub stays : (u : Text) → contains q u ≡ true → contains later u ≡ true
  pub errors : l.segment_errors ≤ l'.segment_errors
  pub found : l'.segment_errors ≡ l.segment_errors → contains later url ≡ true

abbrev pub VisitHolds : ℕ → List Text → Text → Loop → Loop × Ending → Type 0
VisitHolds m q url l (l', ended) = Visited m q url l l'
VisitHolds m q url l (l', cancelled) = AreDistinct l'.sent
VisitHolds m q url l (l', aborted) = AreDistinct l'.sent
VisitHolds m q url l (l', panicked) = ⊥

room_push : (m : ℕ) (q : List Text) (url : Text) → length q < m → push m q url ≡ q ++ url ∷ []
room_push m q url p = ground (arith, p)

snoc_old : (q : List Text) (url u : Text) → contains q u ≡ true → contains (q ++ url ∷ []) u ≡ true
snoc_old q url u e = ground (arith, contains_snoc q url u, e)

snoc_new : (q : List Text) (url : Text) → contains (q ++ url ∷ []) url ≡ true
snoc_new q url = ground (arith, contains_snoc q url url, text_eq_refl url)

mark_room :
    (m : ℕ) (q : List Text) (url : Text) (st : SegmentTracker)
    → Holds m st q
    → length q < m
    → contains q url ≡ false
    → is_empty url ≡ false
    → (mark_processed st url ≡ some (marked st q url)) × Holds m (marked st q url) (q ++ url ∷ [])
mark_room m q url st v p new word =
    let (e, h) = mark-Holds m st q url v new word in
    (e, subst (λ r. Holds m (marked st q url) r) (room_push m q url p) h)

visited_skip :
    (m : ℕ) (q : List Text) (url : Text) (l : Loop)
    → Kept m q l
    → length q < m
    → contains q url ≡ false
    → is_empty url ≡ false
    → VisitHolds m q url l (mark_in l url)
visited_skip m q url l k p new word =
    let (e, h) = mark_room m q url l.tracker k.holds p new word in
    subst (VisitHolds m q url l) (sym (mark_in_lem e)) (record {
      later = q ++ url ∷ [];
      kept = record {
        holds = h;
        once = k.once;
        sent_known = λ u s. snoc_old q url u (k.sent_known u s);
      };
      near = omega (arith, length-append q (url ∷ []));
      stays = snoc_old q url;
      errors = omega arith;
      found = λ _. snoc_new q url;
    })
  where
    mark_in_lem :
        mark_processed l.tracker url ≡ some (marked l.tracker q url)
        → mark_in l url ≡ (record l { tracker = marked l.tracker q url }, ended)
    mark_in_lem e = ground (arith, e)

contains_clash : (q : List Text) (u : Text) → contains q u ≡ true → contains q u ≡ false → ⊥
contains_clash q u e f = cc (sym e ∙ f)

new_sent :
    (q sent : List Text) (url : Text)
    → ((u : Text) → contains sent u ≡ true → contains q u ≡ true)
    → contains q url ≡ false
    → contains sent url ≡ false
new_sent q sent url k new = elim (Bool-cases (contains sent url)) [
  | inl y ↦ absurd (contains_clash q url (k url y) new)
  | inr n ↦ n
]

snoc_both :
    (q sent : List Text) (url : Text)
    → ((u : Text) → contains sent u ≡ true → contains q u ≡ true)
    → (u : Text) → contains (sent ++ url ∷ []) u ≡ true
    → contains (q ++ url ∷ []) u ≡ true
snoc_both q sent url k u e = ground (arith, contains_snoc q url u, contains_snoc sent url u, k u, e)

failed-Visited :
    (m : ℕ) (q : List Text) (url : Text) (l : Loop) → Kept m q l → Visited m q url l (failed l)
failed-Visited m q url l k = record {
  later = q;
  kept = record { holds = k.holds; once = k.once; sent_known = k.sent_known };
  near = omega arith;
  stays = λ u e. e;
  errors = omega arith;
  found = λ e. absurd (omega (arith, e));
}

visited_sent :
    (m : ℕ) (q : List Text) (url : Text) (l : Loop) (n : ℕ)
    → Kept m q l
    → length q < m
    → contains q url ≡ false
    → is_empty url ≡ false
    → VisitHolds m q url l (answered (some n) l url)
visited_sent m q url l n k p new word =
    let (e, h) = mark_room m q url l.tracker k.holds p new word in
    subst (VisitHolds m q url l) (sym (answered_lem e)) (record {
      later = q ++ url ∷ [];
      kept = record {
        holds = h;
        once = snoc-AreDistinct l.sent url (new_sent q l.sent url k.sent_known new) k.once;
        sent_known = snoc_both q l.sent url k.sent_known;
      };
      near = omega (arith, length-append q (url ∷ []));
      stays = snoc_old q url;
      errors = omega arith;
      found = λ _. snoc_new q url;
    })
  where
    answered_lem :
        mark_processed l.tracker url ≡ some (marked l.tracker q url)
        → answered (some n) l url ≡ (streamed l (marked l.tracker q url) url n, ended)
    answered_lem e = ground (arith, e)

visited_answer :
    (m : ℕ) (q : List Text) (url : Text) (o : Option ℕ) (l : Loop)
    → Kept m q l
    → length q < m
    → contains q url ≡ false
    → is_empty url ≡ false
    → VisitHolds m q url l (answered o l url)
visited_answer m q url (some n) l k p new word = visited_sent m q url l n k p new word
visited_answer m q url none l k p new word =
    chosen (ltb hls_max_segment_errors (failed l).segment_errors)
  where
    chosen :
        (b : Bool) → VisitHolds m q url l (if b then (failed l, aborted) else (failed l, ended))
    chosen true = k.once
    chosen false = failed-Visited m q url l k

pub visit-VisitHolds :
    (m : ℕ) (q : List Text) (url : Text) (up : Upstream) (b : Bool) (segments : List Text)
    (l : Loop)
    → Kept m q l
    → length q < m
    → is_empty url ≡ false
    → VisitHolds m q url l (visit up b segments l url)
unfolding visit has_processed
visit-VisitHolds m q url up b segments l k p word =
    chosen (has_processed l.tracker url) (contains q url) (k.holds.known url) refl
      (b && not (contains (held_back segments) url)) (up.cancelled l.attempt)
  where
    chosen :
        (seen had : Bool)
        → seen ≡ had
        → contains q url ≡ had
        → (skipped stopped : Bool)
        → VisitHolds m q url l (
            if seen
            then (l, ended)
            else if skipped
            then mark_in l url
            else if stopped
            then (l, cancelled)
            else send up l url)
    chosen true true e f skipped stopped = record {
      later = q;
      kept = k;
      near = omega arith;
      stays = λ u g. g;
      errors = omega arith;
      found = λ _. f;
    }
    chosen true false e f skipped stopped = absurd (cc e)
    chosen false true e f skipped stopped = absurd (cc e)
    chosen false false e f true stopped = visited_skip m q url l k p f word
    chosen false false e f false true = k.once
    chosen false false e f false false = visited_answer m q url (up.sends l.attempt) l k p f word
