-- ===== src/Overrides/Written.antt =====
-- SetStreamDead and SetStreamAlive of work/db/overrides.go, read back from the table.
use kptv_proxy.Prelude.{
  ℕ, ◌≡◌, refl, sym, ap, ◌∙◌, inl, inr, Bool, true, false, ◌||◌, Option, none, some, ◌==◌,
  if◌then◌else◌, Bool-cases, arith,
}
use kptv_proxy.Text.{Text, codes, text_eq}
use kptv_proxy.Overrides.{
  StreamOverride, Table, Answers, same_pair, get_stream_override, with_status, or_fresh,
  set_stream_dead, set_stream_alive, is_dead, dead_status, reason_of,
}
use kptv_proxy.Overrides.Snapshot.{get-revive_table}
use kptv_proxy.Overrides.Rows.{IsSound, get-upsert_dead, get-other, ordered_only, cleared}

-- The custom order of a stream.
abbrev pub order_of : Option StreamOverride → Option ℕ
order_of none = none
order_of (some o) = o.s_order

or_fresh_order : (h : Text) (o : Option StreamOverride) → (or_fresh h o).s_order ≡ order_of o
or_fresh_order h none = refl
or_fresh_order h (some o) = refl

pub dead_status_lem : (r : Text) → (dead_status r == 2 || dead_status r == 3) ≡ true
dead_status_lem r = elim (Bool-cases (text_eq r (codes "manual"))) [
  | inl e ↦ rw e refl
  | inr e ↦ rw e refl
]

-- A row after the mark, from the row before.
marked_lem :
    (b : Bool) (h r : Text) (x g gc : Option StreamOverride)
    → x ≡ (if b then some (with_status (dead_status r) r (or_fresh h gc)) else g)
    → (b ≡ true → g ≡ gc)
    → (is_dead x ≡ (if b then true else is_dead g))
      × (reason_of x ≡ (if b then r else reason_of g))
      × (order_of x ≡ order_of g)
marked_lem true h r x g gc e f = (
  ap is_dead e ∙ dead_status_lem r,
  ap reason_of e,
  ap order_of e ∙ or_fresh_order h gc ∙ sym (ap order_of (f refl)),
)
marked_lem false h r x g gc e f = (ap is_dead e, ap reason_of e, ap order_of e)

revived_dead : (g : Option StreamOverride) → is_dead (cleared (ordered_only g)) ≡ false
revived_dead none = refl
revived_dead (some o) = ground arith

revived_order : (g : Option StreamOverride) → order_of (cleared (ordered_only g)) ≡ order_of g
revived_order none = refl
revived_order (some o) = ground arith

revived_lem :
    (b : Bool) (x g gc : Option StreamOverride)
    → x ≡ (if b then cleared (ordered_only gc) else g)
    → (b ≡ true → g ≡ gc)
    → (is_dead x ≡ (if b then false else is_dead g)) × (order_of x ≡ order_of g)
revived_lem true x g gc e f =
    (ap is_dead e ∙ revived_dead gc, ap order_of e ∙ revived_order gc ∙ sym (ap order_of (f refl)))
revived_lem false x g gc e f = (ap is_dead e, ap order_of e)

-- If both statements work, then after SetStreamDead the stream is dead with that reason, after
-- SetStreamAlive it is not; neither changes whether any other stream is dead, and no stream's
-- custom order is lost.
pub set_stream_lem :
    (a : Answers) (t : Table) (c h r d k : Text)
    → a.first ≡ true
    → a.second ≡ true
    → IsSound t
    → let marked = get_stream_override (set_stream_dead a t c h r (dead_status r)).0 d k in
      let revived = get_stream_override (set_stream_alive a t c h).0 d k in
      let before = get_stream_override t d k in
      (is_dead marked ≡ (if same_pair c h d k then true else is_dead before))
      × (reason_of marked ≡ (if same_pair c h d k then r else reason_of before))
      × (is_dead revived ≡ (if same_pair c h d k then false else is_dead before))
      × (order_of marked ≡ order_of before)
      × (order_of revived ≡ order_of before)
unfolding set_stream_dead set_stream_alive
set_stream_lem a t c h r d k f s v =
    let (x, y, z) =
      marked_lem (same_pair c h d k) h r _ (get_stream_override t d k) (get_stream_override t c h)
        (get-upsert_dead t c h r (dead_status r) d k) (get-other t c h d k) in
    let (x', z') =
      revived_lem (same_pair c h d k) _ (get_stream_override t d k) (get_stream_override t c h)
        (get-revive_table t c h d k v) (get-other t c h d k) in
    rw (f, s) (x, y, x', z, z')
