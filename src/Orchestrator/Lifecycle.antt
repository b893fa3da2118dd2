-- ===== src/Orchestrator/Lifecycle.antt =====
-- control-plane/internal/orchestrator/lifecycle.go: guards for restart, stop and start, the
-- replica count, and the record of a suspended route.
use tenara.Prelude.{
  ℕ, String, ◌≡◌, refl, inl, inr, true, false, not, ◌&&◌, ◌||◌, arith, if◌then◌else◌, ◌==◌, nat_Eq,
  string_Eq, text_iff, text-cases, get, Outcome, ok, err, is_ok, int_Eq,
}
use tenara.Orchestrator.Deploy.{
  State, Time, AuditEvent, Error, restart_requires_live, transition, can_transition, actor_user,
  planned, running, degraded, failed, stopped, deleting,
}
use tenara.Orchestrator.Deploy.Table.{table_sound, entered_from}

unfoldable pub guard_restart : State → Outcome Error (Unit {0})
guard_restart state =
    if not (state == running) && not (state == degraded)
    then err (restart_requires_live state)
    else ok tt

unfoldable pub guard_stop : State → Time → Outcome Error AuditEvent
unfolding transition
guard_stop from at = transition from stopped actor_user at

unfoldable pub guard_start : State → Time → Outcome Error AuditEvent
unfolding transition
guard_start from at = transition from planned actor_user at

unfoldable replicas_for : State → ℕ → ℕ
replicas_for state normal = if state == stopped then 0 else normal

pub record SuspendedRoute : Type 0 where
  pub suspended_at : Time
  pub app_id : String
  pub hostname : String
  pub route_spec : String

unfoldable suspend_route : String → String → String → Time → SuspendedRoute
suspend_route app_id hostname route_spec at = record {
  suspended_at = at;
  app_id = app_id;
  hostname = hostname;
  route_spec = route_spec;
}

-- STOPPED is entered from RUNNING and DEGRADED.
into-stopped :
    (s : State) → (s == running || s == degraded) ≡ true → can_transition s stopped ≡ true
unfolding can_transition get
into-stopped s h = elim (text-cases s running) [
  | inl e ↦ rw e refl
  | inr m ↦ rw ((text_iff s degraded).0 (rw m at h)) refl
]

to-stopped : (s : State) → can_transition s stopped ≡ (s == running || s == degraded)
to-stopped s = entered_from (λ f. f == running || f == degraded) s stopped refl (into-stopped s)

-- PLANNED is entered from STOPPED, FAILED and DELETING.
into-planned :
    (s : State)
    → (s == stopped || s == failed || s == deleting) ≡ true
    → can_transition s planned ≡ true
unfolding can_transition get
into-planned s h = elim (text-cases s stopped) [
  | inl e ↦ rw e refl
  | inr m ↦ elim (text-cases s failed) [
    | inl e ↦ rw e refl
    | inr n ↦ rw ((text_iff s deleting).0 (rw (m, n) at h)) refl
  ]
]

to-planned : (s : State) → can_transition s planned ≡ (s == stopped || s == failed || s == deleting)
to-planned s =
    entered_from (λ f. f == stopped || f == failed || f == deleting) s planned refl (into-planned s)

-- An app can be stopped in exactly the states in which it can be restarted, RUNNING and DEGRADED;
-- a start is accepted in exactly STOPPED, FAILED and DELETING.
pub guard_states :
    (s : State) (at : Time)
    → (is_ok (guard_stop s at) ≡ (s == running || s == degraded))
      × (is_ok (guard_restart s) ≡ (s == running || s == degraded))
      × (is_ok (guard_start s at) ≡ (s == stopped || s == failed || s == deleting))
unfolding guard_stop guard_restart guard_start
guard_states s at =
    (rw (← to-stopped s) (ground arith), ground arith, rw (← to-planned s) (ground arith))

stopped_ne : (s : State) → can_transition s stopped ≡ true → (s == stopped) ≡ false
stopped_ne s c =
    ground (arith, table_sound (λ f t. not (t == stopped) || not (f == stopped)) s stopped refl c)

-- A workload is scaled to zero exactly in the state that a stop enters, which no stop or restart
-- leaves and from which a start is accepted.
stop_scales_to_zero :
    (s : State) (at : Time) (normal : ℕ) {e : AuditEvent}
    → guard_stop s at ≡ ok e
    → (replicas_for e.to_state normal ≡ 0)
      × (replicas_for s normal ≡ normal)
      × (is_ok (guard_restart e.to_state) ≡ false)
      × (is_ok (guard_start e.to_state at) ≡ true)
unfolding guard_stop guard_start guard_restart replicas_for
stop_scales_to_zero s at normal {e} h =
    let to : e.to_state ≡ stopped = ground arith in
    let c : can_transition s stopped ≡ true = ground arith in
    rw to (refl, rw (stopped_ne s c) refl, refl, unfold can_transition get in refl)
