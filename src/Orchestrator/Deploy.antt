-- ===== src/Orchestrator/Deploy.antt =====
-- control-plane/internal/orchestrator/deploy_state.go: states, the transition table, `Transition`.
pub mod Table
pub mod Paths
use tenara.Prelude.{
  ℕ, zero, suc, ◌+◌, ◌-◌, ◌*◌, ◌/◌, ◌%◌, ◌^◌, ◌≤◌, ◌<◌, String, ◌≡◌, refl, sym, ap, ◌∙◌, subst, ◌≢◌,
  ◌↔◌, ◌⊎◌, inl, inr, Bool, true, false, not, ◌&&◌, ◌||◌, Option, none, some, List, [], ◌∷◌, ◌++◌,
  map, arith, ltb, leb, nat_eq, if◌then◌else◌, ltb→lt, ltb→ge, leb→le, leb→gt, nat_eq_iff, Eq, ◌==◌,
  nat_Eq, string_Eq, text_iff, text_refl, text_ne, Bool-cases, Option-cases, text-cases, is_some,
  length, any, all, length-append, Member, here, there, All, All-Member, Map, get, remove, put,
  keys, get-remove, get-put, map_laws, all-get, get_or, Outcome, ok, err, ◌>>=◌, ◌>>◌, require,
  refuse, >>=-eq-ok, tests, ℤ, pos, negsuc, lt_ℤ, int_Eq, int_iff, All-of_all, all-of_All,
  any_Member, any-false,
}

-- A state is a string in the source, so any other string is a state that no row names.
abbrev pub State : Type 0
State = String

abbrev pub planned : State
planned = "PLANNED"

abbrev pub building : State
building = "BUILDING"

abbrev pub deploying : State
deploying = "DEPLOYING"

abbrev pub verifying : State
verifying = "VERIFYING"

abbrev pub running : State
running = "RUNNING"

abbrev pub degraded : State
degraded = "DEGRADED"

abbrev pub failed : State
failed = "FAILED"

abbrev pub rolling_back : State
rolling_back = "ROLLING_BACK"

abbrev pub stopped : State
stopped = "STOPPED"

abbrev pub deleting : State
deleting = "DELETING"

abbrev pub deleted : State
deleted = "DELETED"

-- the map literal, row by row
abbrev pub allowed_transitions : Map (Map Bool)
allowed_transitions =
    (planned, (building, true) ∷ [])
    ∷ (building, (deploying, true) ∷ (failed, true) ∷ [])
    ∷ (deploying, (verifying, true) ∷ (failed, true) ∷ [])
    ∷ (verifying, (running, true) ∷ (degraded, true) ∷ (failed, true) ∷ [])
    ∷ (
      running,
      (verifying, true)
          ∷ (degraded, true)
          ∷ (rolling_back, true)
          ∷ (stopped, true)
          ∷ (deleting, true)
          ∷ [],
    )
    ∷ (
      degraded,
      (verifying, true)
          ∷ (rolling_back, true)
          ∷ (stopped, true)
          ∷ (failed, true)
          ∷ (deleting, true)
          ∷ [],
    )
    ∷ (failed, (planned, true) ∷ (deleting, true) ∷ [])
    ∷ (rolling_back, (verifying, true) ∷ (failed, true) ∷ [])
    ∷ (stopped, (planned, true) ∷ (deleting, true) ∷ [])
    ∷ (deleting, (deleted, true) ∷ (planned, true) ∷ [])
    ∷ []

-- a row that is not there is a nil map, whose reads give false
unfoldable pub can_transition : State → State → Bool
unfolding get
can_transition from to = get_or (get_or allowed_transitions from []) to false

-- an instant, in nanoseconds
abbrev pub Time : Type 0
Time = ℕ

abbrev pub actor_controller : String
actor_controller = "controller"

abbrev pub actor_user : String
actor_user = "user"

pub record AuditEvent : Type 0 where
  pub at : Time
  pub app_id : String
  pub from_state : State
  pub to_state : State
  pub actor_type : String

pub data Error : Type 0 where
  illegal_transition : State → State → Error
  restart_requires_live : State → Error
  concurrent_deploy : String → Error

unfoldable pub transition : State → State → String → Time → Outcome Error AuditEvent
transition from to actor_type at =
    if not (can_transition from to)
    then err (illegal_transition from to)
    else ok
        (record { at = at; app_id = ""; from_state = from; to_state = to; actor_type = actor_type })
