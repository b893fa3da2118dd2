-- ===== src/Apps/Plans.antt =====
-- control-plane/internal/apps/store.go: plans that await their approval. `expires_of` reads the
-- expires_at of a snapshot as its column gives it back, and nothing for one that has none.
use tenara.Prelude.{
  String, Outcome, Bool, false, not, ◌&&◌, Option, none, some, ◌∷◌, ltb, if◌then◌else◌, ◌==◌,
  nat_Eq, string_Eq, any, ok, err, int_Eq,
}
use tenara.Prelude.{find, update_where}
use tenara.Bytes.{Bytes}
use tenara.Orchestrator.Deploy.{State, Time, planned}
use tenara.Apps.{
  Deployment, Db, Error, Result, not_found, plan_expired, storage_error, conflict, corrupt_snapshot,
  plan_already,
}
use tenara.Apps.Environments.{ensure_environment}

abbrev pub awaiting_approval : State
awaiting_approval = "AWAITING_APPROVAL"

abbrev pub awaiting : String → String → Bytes → String → String → Deployment
awaiting app_id env_id snapshot id plan_id = record {
  id = id;
  app_id = app_id;
  environment_id = env_id;
  state = awaiting_approval;
  plan_id = some plan_id;
  plan_snapshot = some snapshot;
}

-- the ids of the new environment, of the deployment and of the plan
pub record NewIds : Type 0 where
  pub environment : String
  pub deployment : String
  pub plan : String

abbrev pub canonical : String → Option String → String
canonical raw none = raw
canonical raw (some id) = id

-- the INSERT, for the environment that there is
abbrev pub insert_plan : String → Bytes → NewIds → Result String → Result (String × String)
insert_plan app_id snapshot ids (db, err e) = (db, err e)
insert_plan app_id snapshot ids (db, ok env_id) = (
  record db {
    deployments = awaiting app_id env_id snapshot ids.deployment ids.plan ∷ db.deployments;
  },
  ok (ids.deployment, ids.plan),
)

unfoldable pub save_awaiting_plan :
    (String → Option String)
    → Db
    → String
    → String
    → String
    → Bytes
    → NewIds
    → Result (String × String)
unfolding ensure_environment
save_awaiting_plan uuid db org app_id env snapshot ids =
    insert_plan (canonical app_id (uuid app_id)) snapshot ids
      (ensure_environment uuid db org app_id env ids.environment)

abbrev pub has_plan : String → Option String → Bool
has_plan plan_id none = false
has_plan plan_id (some p) = p == plan_id

-- the JOIN asks that the app is the caller's, and not that it is still there
abbrev pub joins : Db → String → String → String → Deployment → Bool
joins db org app_id plan_id d =
    has_plan plan_id d.plan_id
    && d.app_id == app_id
    && any (λ a. a.id == app_id && a.org_id == org) db.applications

abbrev pub snapshot_expires : (Bytes → Option Time) → Option Bytes → Option Time
snapshot_expires expires_of none = none
snapshot_expires expires_of (some s) = expires_of s

abbrev pub has_id : String → Deployment → Bool
has_id id d = d.id == id

abbrev pub to_planned : Deployment → Deployment
to_planned d = record d { state = planned }

-- what the SELECT finds is checked against the time and the state
abbrev pub check_unexpired : Deployment → Time → Option Time → Outcome Error String
check_unexpired d now none = err (conflict corrupt_snapshot)
check_unexpired d now (some expires) =
    if ltb expires now
    then err plan_expired
    else if not (d.state == awaiting_approval)
    then err (conflict (plan_already d.state))
    else ok d.id

abbrev pub check_found : (Bytes → Option Time) → Time → Option Deployment → Outcome Error String
check_found expires_of now none = err not_found
check_found expires_of now (some d) =
    check_unexpired d now (snapshot_expires expires_of d.plan_snapshot)

abbrev pub check_at :
    (Bytes → Option Time)
    → Db
    → String
    → Time
    → Option String
    → Option String
    → Outcome Error String
check_at expires_of db org now none app = err not_found
check_at expires_of db org now (some plan_id) none = err storage_error
check_at expires_of db org now (some plan_id) (some app_id) =
    check_found expires_of now (find (joins db org app_id plan_id) db.deployments)

-- `ApprovePlan` up to its UPDATE, which is a statement of its own: other requests may come between.
-- The app's id goes into the SELECT as it is, so that a text that is no UUID fails there.
unfoldable pub check_plan :
    (String → Option String)
    → (Bytes → Option Time)
    → Db
    → String
    → String
    → String
    → Time
    → Outcome Error String
unfolding find
check_plan uuid expires_of db org app_id plan_id now =
    check_at expires_of db org now (uuid plan_id) (uuid app_id)

-- the UPDATE, by the id of the deployment alone
unfoldable pub record_approval : Db → String → Db
unfolding update_where
record_approval db id = record db {
  deployments = update_where (has_id id) to_planned db.deployments;
}

abbrev pub approve_checked : Db → Outcome Error String → Result String
approve_checked db (err e) = (db, err e)
approve_checked db (ok id) = (record_approval db id, ok id)

-- both statements, with no other request between them
unfoldable pub approve_plan :
    (String → Option String)
    → (Bytes → Option Time)
    → Db
    → String
    → String
    → String
    → Time
    → Result String
unfolding check_plan record_approval
approve_plan uuid expires_of db org app_id plan_id now =
    approve_checked db (check_plan uuid expires_of db org app_id plan_id now)
