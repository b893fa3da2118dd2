-- ===== src/Orchestrator/Rollback/Target.antt =====
-- Where `ResolveRollbackTarget` and `PlanRollback` may lead.
use tenara.Prelude.{
  ℕ, ◌≤◌, ◌≡◌, refl, sym, ap, ◌∙◌, subst, inl, inr, true, false, not, ◌||◌, Option, none, some,
  List, arith, ◌==◌, nat_Eq, string_Eq, Bool-cases, Option-cases, is_some, any, Member, Outcome, ok,
  err, >>=-eq-ok, is_ok, ok-injective, int_Eq, any_Member, any-false,
}
use tenara.Orchestrator.Deploy
use tenara.Orchestrator.Deploy.{
  State, Time, AuditEvent, transition, rolling_back, running, degraded, actor_user, can_transition,
}
use tenara.Orchestrator.Deploy.Table.{table_sound}
use tenara.Orchestrator.Deploy.Paths.{transition_ok}
use tenara.Orchestrator.Rollback.{
  RevisionSnapshot, find_snapshot, pick_newest, resolve_explicit, or_no_path,
  resolve_rollback_target, lift_move, plan_rollback, is_candidate, from_some, none_ne,
}
use tenara.Orchestrator.Rollback.Newest.{AtLeast, find-Member, pick-Member, pick_covers}

explicit_ok :
    (found : Option RevisionSnapshot) (current n : ℕ) {s : RevisionSnapshot}
    → resolve_explicit found current n ≡ ok s
    → (found ≡ some s) × (is_candidate current s ≡ true)
unfolding resolve_explicit
explicit_ok none current n h = cc
explicit_ok (some r) current n h = ground arith

default_ok :
    (best : Option RevisionSnapshot) (current : ℕ) {s : RevisionSnapshot}
    → or_no_path best current ≡ ok s
    → best ≡ some s
unfolding or_no_path
default_ok none current h = cc
default_ok (some b) current h = cc

default_is_ok :
    (best : Option RevisionSnapshot) (current : ℕ) → is_ok (or_no_path best current) ≡ is_some best
unfolding or_no_path
default_is_ok none current = refl
default_is_ok (some b) current = refl

-- A rollback that is resolved goes to a revision of the list that lies behind the current one
-- and has passed the scan and signature gates, and to the named one if one is named.
pub resolve_sound :
    (revs : List RevisionSnapshot) (current : ℕ) (target : Option ℕ) {s : RevisionSnapshot}
    → resolve_rollback_target revs current target ≡ ok s
    → Member s revs × (is_candidate current s ≡ true) × (from_some target s.number ≡ s.number)
unfolding resolve_rollback_target
resolve_sound revs current (some n) h =
    let (found, c) = explicit_ok (find_snapshot revs n) current n h in
    let (m, e) = find-Member revs n found in (m, c, sym e)
resolve_sound revs current none h =
    let picked = default_ok (pick_newest revs current none) current h in
    elim (pick-Member revs current none picked) [
      | inl e ↦ absurd (none_ne e)
      | inr (m, c) ↦ (m, c, refl)
    ]

-- With no revision named, no revision that qualifies is newer than the one that is chosen.
pub resolve_newest :
    (revs : List RevisionSnapshot) (current : ℕ) (r : RevisionSnapshot) {s : RevisionSnapshot}
    → resolve_rollback_target revs current none ≡ ok s
    → Member r revs
    → is_candidate current r ≡ true
    → r.number ≤ s.number
unfolding resolve_rollback_target
resolve_newest revs current r {s} h m c =
    subst (AtLeast r.number) (default_ok (pick_newest revs current none) current h)
      (pick_covers current none m c)

AtLeast-some : (n : ℕ) (o : Option RevisionSnapshot) → AtLeast n o → is_some o ≡ true
AtLeast-some n none h = absurd h
AtLeast-some n (some b) h = refl

pick-none :
    (revs : List RevisionSnapshot) (current : ℕ)
    → any (is_candidate current) revs ≡ false
    → is_some (pick_newest revs current none) ≡ false
pick-none revs current h = elim (Option-cases (pick_newest revs current none)) [
  | inl e ↦ rw e refl
  | inr (s, e) ↦ elim (pick-Member revs current none e) [
    | inl k ↦ absurd (none_ne k)
    | inr (m, c) ↦ cc (any-false (is_candidate current) h m)
  ]
]

-- With no revision named, a rollback is resolved exactly if some revision qualifies.
resolve_default_complete :
    (revs : List RevisionSnapshot) (current : ℕ)
    → is_ok (resolve_rollback_target revs current none) ≡ any (is_candidate current) revs
unfolding resolve_rollback_target
resolve_default_complete revs current =
    rw default_is_ok (elim (Bool-cases (any (is_candidate current) revs)) [
      | inl e ↦
          let (r, m, c) = any_Member (is_candidate current) revs e in
          AtLeast-some r.number (pick_newest revs current none) (pick_covers current none m c)
          ∙ sym e
      | inr e ↦ pick-none revs current e ∙ sym e
    ])

lift_ok : (o : Outcome Deploy.Error AuditEvent) {ev : AuditEvent} → lift_move o ≡ ok ev → o ≡ ok ev
lift_ok (ok e) h = cc
lift_ok (err e) h = cc

rolling_from :
    (s : State) (at : Time) {ev : AuditEvent}
    → transition s rolling_back actor_user at ≡ ok ev
    → (s == running || s == degraded) ≡ true
rolling_from s at h =
    let (c, _, _, _) = transition_ok s rolling_back actor_user at h in
    table_sound (λ f t. not (t == rolling_back) || f == running || f == degraded) s rolling_back
      refl c

-- A planned rollback starts from RUNNING or DEGRADED, its audit row is the move into ROLLING_BACK
-- by a user, and its destination is behind the current revision and past both gates.
pub plan_rollback_sound :
    (from_state : State) (revs : List RevisionSnapshot) (current : ℕ) (target : Option ℕ)
    (at : Time) {ev : AuditEvent} {dest : RevisionSnapshot}
    → plan_rollback from_state revs current target at ≡ ok (ev, dest)
    → ((from_state == running || from_state == degraded) ≡ true)
      × (transition from_state rolling_back actor_user at ≡ ok ev)
      × Member dest revs
      × (is_candidate current dest ≡ true)
unfolding plan_rollback
plan_rollback_sound from_state revs current target at {ev} {dest} h =
    let (e, moved, more) =
      >>=-eq-ok (lift_move (transition from_state rolling_back actor_user at)) _ h in
    let (d, resolved, whole) = >>=-eq-ok (resolve_rollback_target revs current target) _ more in
    let pair = ok-injective whole in
    let (m, c, _) = resolve_sound revs current target (resolved ∙ ap ok (ap (λ p. p.1) pair)) in
    let accepted =
      lift_ok (transition from_state rolling_back actor_user at)
        (moved ∙ ap ok (ap (λ p. p.0) pair)) in
    (rolling_from from_state at accepted, accepted, m, c)
