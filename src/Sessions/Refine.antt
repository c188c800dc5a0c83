-- ===== src/Sessions/Refine.antt =====
-- The sessions against a table that forgets nothing: an expired row is one that a read passes over.
use kptv_proxy.Prelude.{
  ℕ, ◌*◌, ◌/◌, ◌%◌, ◌≤◌, ◌<◌, ◌≡◌, refl, sym, subst, ap, ap₂, ◌∙◌, inl, inr, Bool, true, false,
  Option, none, some, List, [], ◌∷◌, ltb, leb, ◌==◌, if◌then◌else◌, arith,
}
use kptv_proxy.Text.{Text, text_eq}
use kptv_proxy.Sessions.{
  Row, second, find_row, delete_where, new_row, insert_row, read_row, create_session,
  delete_session, get_session, delete_sessions_for_user, session_cleanup,
}
use kptv_proxy.Sessions.Thin.{
  Thinned, later_Thinned, snoc_Thinned, delete_where-Thinned, all-AreExpired, thinner, AreKeyed,
  find_none, IsFound, find_row-IsFound, found-AreExpired, delete_where-AreKeyed, snoc-AreKeyed,
  nothing,
}

-- `swept` is a tick of the cleanup.
pub data Op : Type 0 where
  created : Text → ℕ → Text → Text → Bool → Op
  read ended : Text → Op
  revoked : ℕ → Op
  swept : Op

pub record Timed : Type 0 where
  pub at : ℕ
  pub op : Op

pub data Reply : Type 0 where
  made : Bool → Reply
  session : Option Row → Reply
  done : Reply

-- What a read shows of a row: nothing once it has expired.
abbrev pub unless_expired : ℕ → Option Row → Option Row
unless_expired now none = none
unless_expired now (some r) = if ltb (r.expires_at * second) now then none else some r

abbrev pub as_reply : List Row × Option Row → List Row × Reply
as_reply (rows, found) = (rows, session found)

module _ (hash : Text → Text) where
  abbrev pub after_create : List Row → Option (List Row) → List Row × Reply
  after_create rows none = (rows, made false)
  after_create rows (some rows') = (rows', made true)

  unfoldable pub step : List Row → Timed → List Row × Reply
  step rows t = elim t.op [
    | created raw user_id username name remember_me ↦
        after_create rows (create_session hash rows raw user_id username name remember_me t.at)
    | read raw ↦ as_reply (get_session hash rows raw t.at)
    | ended raw ↦ (delete_session hash rows raw, done)
    | revoked user_id ↦ (delete_sessions_for_user rows user_id, done)
    | swept ↦ (session_cleanup rows t.at, done)
  ]

  unfoldable pub run : List Row → List Timed → List Reply
  run rows [] = []
  run rows (t ∷ ts) = let (rows', r) = step rows t in r ∷ run rows' ts

  -- The table that forgets nothing but what is deleted.
  unfoldable pub plain_step : List Row → Timed → List Row × Reply
  plain_step rows t = elim t.op [
    | created raw user_id username name remember_me ↦
        after_create rows (create_session hash rows raw user_id username name remember_me t.at)
    | read raw ↦ (rows, session (unless_expired t.at (find_row (hash raw) rows)))
    | ended raw ↦ (delete_session hash rows raw, done)
    | revoked user_id ↦ (delete_sessions_for_user rows user_id, done)
    | swept ↦ (rows, done)
  ]

  unfoldable pub plain_run : List Row → List Timed → List Reply
  plain_run rows [] = []
  plain_run rows (t ∷ ts) = let (rows', r) = plain_step rows t in r ∷ plain_run rows' ts

  -- An id is drawn once, and no read is in a nanosecond that begins a second.
  abbrev pub IsUsual : List Row → Timed → Type 0
  IsUsual rows t = elim t.op [
    | created raw user_id username name remember_me ↦ find_row (hash raw) rows ≡ none
    | read raw ↦ 0 < t.at % second
    | ended raw ↦ Unit {0}
    | revoked user_id ↦ Unit {0}
    | swept ↦ Unit {0}
  ]

  -- The clock does not go back.
  abbrev pub AreUsual : ℕ → List Row → List Timed → Type 0
  AreUsual now rows [] = Unit {0}
  AreUsual now rows (t ∷ ts) =
      (now ≤ t.at) × IsUsual rows t × AreUsual t.at (plain_step rows t).0 ts

  record IsStepped (now : ℕ) (plain thin : List Row × Reply) : Type 0 where
    reply : thin.1 ≡ plain.1
    rows : Thinned now plain.0 thin.0
    keyed : AreKeyed plain.0

  read-IsStepped :
      (now : ℕ) (all thin : List Row) (raw : Text)
      → 0 < now % second
      → AreKeyed all
      → Thinned now all thin
      → IsStepped now
          (all, session (unless_expired now (find_row (hash raw) all)))
          (as_reply (get_session hash thin raw now))
  unfolding get_session
  read-IsStepped now all thin raw p a t =
      found (find_row (hash raw) thin) (find_row (hash raw) all) refl
        (find_row-IsFound (hash raw) now all thin a t)
    where
      passed : (r : Row) → r.expires_at * second ≤ now → unless_expired now (some r) ≡ none
      passed r x = ground (arith, x, p)

      decided :
          (r : Row) (b : Bool)
          → ltb (r.expires_at * second) now ≡ b
          → find_row (hash raw) thin ≡ some r
          → IsStepped now
              (all, session (if b then none else some r))
              (as_reply (if b then (delete_session hash thin raw, none) else (thin, some r)))
      decided r true x e = record {
        reply = refl;
        rows =
            unfold delete_session in
            thinner now (λ s. text_eq s.id_hash (hash raw)) all thin
              (found-AreExpired (hash raw) now r all thin a t e (ground (arith, x))) t;
        keyed = a;
      }
      decided r false x e = record { reply = refl; rows = t; keyed = a }

      found :
          (o q : Option Row)
          → find_row (hash raw) thin ≡ o
          → IsFound now q o
          → IsStepped now
              (all, session (unless_expired now q))
              (as_reply (read_row hash thin raw now o))
      found none q e (inl f) = record {
        reply = ap (λ k. session (unless_expired now k)) (sym f);
        rows = t;
        keyed = a;
      }
      found none q e (inr (r, f, x)) = record {
        reply = ap session (sym (passed r x)) ∙ ap (λ k. session (unless_expired now k)) (sym f);
        rows = t;
        keyed = a;
      }
      found (some r) q e f =
          subst
            (λ k.
              IsStepped now (all, session (unless_expired now k))
                (as_reply (read_row hash thin raw now (some r))))
            (sym f) (decided r (ltb (r.expires_at * second) now) refl e)

  create-IsStepped :
      (now : ℕ) (all thin : List Row) (raw : Text) (r : Row)
      → r.id_hash ≡ hash raw
      → find_row (hash raw) all ≡ none
      → AreKeyed all
      → Thinned now all thin
      → IsStepped now
          (after_create all (insert_row (find_row (hash raw) all) r all))
          (after_create thin (insert_row (find_row (hash raw) thin) r thin))
  create-IsStepped now all thin raw r same e a t =
      subst
        (λ o.
          IsStepped now (after_create all (insert_row o r all))
            (after_create thin (insert_row (find_row (hash raw) thin) r thin)))
        (sym e)
        (subst
          (λ o.
            IsStepped now (after_create all (insert_row none r all))
              (after_create thin (insert_row o r thin)))
          (sym (find_none (hash raw) now all thin t e))
          (record {
            reply = refl;
            rows = snoc_Thinned now all thin r t;
            keyed = snoc-AreKeyed all r (subst (λ h. find_row h all ≡ none) (sym same) e) a;
          }))

  delete-IsStepped :
      (now : ℕ) (all thin : List Row) (chosen : Row → Bool)
      → AreKeyed all
      → Thinned now all thin
      → IsStepped now (delete_where chosen all, done) (delete_where chosen thin, done)
  delete-IsStepped now all thin chosen a t = record {
    reply = refl;
    rows = delete_where-Thinned now chosen all thin t;
    keyed = delete_where-AreKeyed chosen all a;
  }

  step_op-IsStepped :
      (now : ℕ) (op : Op) (all thin : List Row)
      → IsUsual all (record { at = now; op = op })
      → AreKeyed all
      → Thinned now all thin
      → IsStepped now
          (plain_step all (record { at = now; op = op }))
          (step thin (record { at = now; op = op }))
  unfolding step plain_step create_session delete_session delete_sessions_for_user session_cleanup
  step_op-IsStepped now (created raw user_id username name remember_me) all thin u a t =
      create-IsStepped now all thin raw (new_row hash raw user_id username name remember_me now)
        refl u a t
  step_op-IsStepped now (read raw) all thin u a t = read-IsStepped now all thin raw u a t
  step_op-IsStepped now (ended raw) all thin u a t =
      delete-IsStepped now all thin (λ r. text_eq r.id_hash (hash raw)) a t
  step_op-IsStepped now (revoked user_id) all thin u a t =
      delete-IsStepped now all thin (λ r. r.user_id == user_id) a t
  step_op-IsStepped now swept all thin u a t = record {
    reply = refl;
    rows =
        thinner now (λ r. leb r.expires_at (now / second)) all thin
          (all-AreExpired now (λ r. leb r.expires_at (now / second)) thin
            (λ r e. ground (arith, e)))
          t;
    keyed = a;
  }

  run-plain_run :
      (now : ℕ) (all thin : List Row) (ts : List Timed)
      → AreUsual now all ts
      → AreKeyed all
      → Thinned now all thin
      → run thin ts ≡ plain_run all ts
  unfolding run plain_run
  run-plain_run now all thin [] u a t = refl
  run-plain_run now all thin (c ∷ ts) u a t =
      let s = step_op-IsStepped c.at c.op all thin u.1 a (later_Thinned now c.at all thin u.0 t) in
      ap₂ (λ r rs. r ∷ rs) s.reply
        (run-plain_run c.at (plain_step all c).0 (step thin c).0 ts u.2 s.keyed s.rows)

  -- From an empty table, with a clock that does not go back, ids that are drawn once, and no read in
  -- a nanosecond that begins a second, what the sessions reply is what a table replies that keeps
  -- every row until its session is ended or its user revoked, and shows a row until it expires: the
  -- deletions of expired rows, on a read or by the cleanup, are not seen.
  pub run_sessions : (ts : List Timed) → AreUsual 0 [] ts → run [] ts ≡ plain_run [] ts
  run_sessions ts u = run-plain_run 0 [] [] ts u tt nothing
