-- ===== src/Orchestrator/Tests.antt =====
-- Runs of the orchestrator at concrete inputs.
use tenara.Prelude.{
  ℕ, String, ◌≡◌, refl, Bool, true, false, not, none, some, List, [], ◌∷◌, all, Member, here, ok,
  err, is_ok, ℤ, pos, int_Eq, string_Eq, nat_Eq, get,
}
use tenara.Prelude.{◌&&◌, keys, Map}
use tenara.Orchestrator.Deploy.{
  State, AuditEvent, concurrent_deploy, planned, building, deploying, verifying, running, degraded,
  rolling_back, stopped, deleted, actor_user, can_transition,
}
use tenara.Orchestrator.Deploy.Paths.{
  walks, last, visits, running_passes_pipeline, deleted_reachable,
}
use tenara.Orchestrator.Locks.{
  new_deploy_locks, acquire, release, Op, acquire_op, release_op, run, is_held, spec_run, answers,
  spec_answers, locks_refine_set, acquire_exclusive,
}
use tenara.Orchestrator.Rollback.{
  RevisionSnapshot, resolve_rollback_target, find_snapshot, eligible, resolve_explicit,
  is_candidate, from_some,
}
use tenara.Orchestrator.Rollback.Target.{resolve_sound}
use tenara.AppSpec.Spec.{ServiceDef, Spec, is_http_type}
use tenara.Orchestrator.Plan
use tenara.Orchestrator.Plan.{generate, is_incomplete, type_of}
use tenara.Orchestrator.Plan.Checklist.{planned_iff}
use tenara.Orchestrator.Delete.{delete_step_order}
use tenara.Orchestrator.Delete.Order.{missing, drain, drain_finishes}

-- a first deploy
abbrev first_deploy : List State
first_deploy = building ∷ deploying ∷ verifying ∷ running ∷ []

running_passes_pipeline_example :
    (visits building first_deploy ≡ true)
    × (visits deploying first_deploy ≡ true)
    × (visits verifying first_deploy ≡ true)
unfolding walks last can_transition get
running_passes_pipeline_example = running_passes_pipeline planned first_deploy refl refl refl

deleted_reachable_example :
    (path : List State) × (walks planned path ≡ true) × (last planned path ≡ deleted)
deleted_reachable_example = deleted_reachable planned here

-- another app is deployed and released meanwhile
abbrev meanwhile : List Op
meanwhile = acquire_op "shop" ∷ release_op "shop" ∷ acquire_op "blog" ∷ []

acquire_exclusive_example :
    let l' = run (acquire new_deploy_locks "blog").0 meanwhile in
    (acquire l' "blog" ≡ (l', err (concurrent_deploy "blog")))
    × ((acquire (release l' "blog") "blog").1 ≡ ok tt)
acquire_exclusive_example = acquire_exclusive new_deploy_locks "blog" meanwhile refl

locks_refine_set_example :
    (answers new_deploy_locks meanwhile ≡ spec_answers (is_held new_deploy_locks) meanwhile)
    × ((k : String)
        → is_held (run new_deploy_locks meanwhile) k
          ≡ spec_run (is_held new_deploy_locks) meanwhile k)
locks_refine_set_example = locks_refine_set meanwhile new_deploy_locks

abbrev stop_row : AuditEvent
stop_row = record {
  at = 5;
  app_id = "";
  from_state = running;
  to_state = stopped;
  actor_type = actor_user;
}

abbrev revision : ℕ → String → Bool → RevisionSnapshot
revision n signature scanned = record {
  image_digest = "sha256:00";
  signature_ref = signature;
  number = n;
  config_rev = 1;
  secret_rev = 1;
  app_spec_ver = 1;
  scan_passed = scanned;
}

abbrev good_two : RevisionSnapshot
good_two = revision 2 "cosign:2" true

-- 3 has failed its scan, 4 is the current one
abbrev history : List RevisionSnapshot
history =
    revision 1 "cosign:1" true
    ∷ good_two
    ∷ revision 3 "cosign:3" false
    ∷ revision 4 "cosign:4" true
    ∷ []

resolve_sound_example :
    Member good_two history × (is_candidate 4 good_two ≡ true) × (from_some (some 2) 2 ≡ 2)
unfolding resolve_rollback_target find_snapshot resolve_explicit eligible
resolve_sound_example = resolve_sound history 4 (some 2) {s = good_two} refl

abbrev rollback_row : AuditEvent
rollback_row = record {
  at = 5;
  app_id = "";
  from_state = degraded;
  to_state = rolling_back;
  actor_type = actor_user;
}

abbrev recorded : List ℤ
recorded = pos 3 ∷ pos 1 ∷ []

drain_finishes_example : drain 7 recorded ≡ missing recorded delete_step_order
drain_finishes_example = drain_finishes recorded refl

abbrev service : String → ServiceDef
service type = record { type = type; runtime = "go"; path = "src"; schedule = ""; port = pos 80 }

abbrev web_and_api : Spec
web_and_api = record {
  services = ("web", service "frontend") ∷ ("api", service "backend") ∷ [];
  routing = [];
  database = none;
  version = "v1";
}

abbrev plan_input : Plan.Input
plan_input = record {
  spec = web_and_api;
  now = 10;
  app_id = "7f3a-11";
  slug = "shop";
  env = "production";
  base_domain = "tenara.local";
  ttl = 5;
}

abbrev api_and_web : Map ServiceDef
api_and_web = ("api", service "backend") ∷ ("web", service "frontend") ∷ []

planned_iff_example : is_ok (generate plan_input) ≡ (
    not (is_incomplete plan_input)
    && all (λ n. is_http_type (type_of web_and_api.services n)) (keys web_and_api.services))
planned_iff_example = planned_iff plan_input
