-- ===== src/Apps/Deploying.antt =====
-- control-plane/internal/apps/handlers.go: the handlers of deployments, rollbacks and diagnostics, with
-- the manifests that control-plane/internal/provision renders.
use tenara.Prelude.{
  ◌%◌, String, Bool, not, Option, none, some, List, [], ◌∷◌, ◌++◌, if◌then◌else◌, ◌==◌, nat_Eq,
  string_Eq, length, Outcome, ok, err, int_Eq,
}
use tenara.Bytes.{Bytes, codes}
use tenara.Orchestrator.Deploy.{Time, planned}
use tenara.Apps.{
  RevisionRow, Db, Error, Result, App, not_found, plan_expired, not_enough_revisions, storage_error,
  quota_exceeded, conflict, invalid_digest, unsupported_kind, get_app, org_tier, tier_or_free,
}
use tenara.Bytes.{contains}
use tenara.AppSpec.Cron.Numbers.{itoa}
use tenara.Apps.Plans.{approve_plan}
use tenara.Apps.Releases.{rollback_latest, list_revisions}
use tenara.Apps.Handlers.{
  revisions_body, rollback_body, deployment_body, diagnostics_body, Response, json, problem, Served,
  map_write_err, respond, for_org, validation_failed,
}

pub record DeployInput : Type 0 where
  pub plan_id : String
  pub image : Bytes
  pub git_url : String
  pub git_sha : String

-- the manifests of provision
pub record ServiceInput : Type 0 where
  pub name : Bytes
  pub image : Bytes

pub record AppEnvInput : Type 0 where
  pub app_id : String
  pub env : String
  pub name : Bytes
  pub quota_tier : String
  pub isolation : String
  pub services : List ServiceInput

pub record BuildInput : Type 0 where
  pub app_id : String
  pub env : String
  pub name : Bytes
  pub git_url : String
  pub git_sha : String

pub data Manifest : Type 0 where
  app_env : AppEnvInput → Manifest
  build : BuildInput → Manifest

unfoldable pub services_of : Bytes → Bytes → List ServiceInput
unfolding contains
services_of slug image =
    if contains image (codes "@sha256:")
    then record { name = slug ++ codes "-web"; image = image } ∷ []
    else []

abbrev pub env_of : App → String → DeployInput → AppEnvInput
env_of a tier i = record {
  app_id = a.id;
  env = "production";
  name = a.slug;
  quota_tier = tier_or_free tier;
  isolation = "shared";
  services = services_of a.slug i.image;
}

-- the name ends in the last digits of the time in nanoseconds
abbrev pub build_of : App → DeployInput → Time → BuildInput
build_of a i now = record {
  app_id = a.id;
  env = "production";
  name = a.slug ++ (codes "-b-" ++ itoa (now % 100000));
  git_url = i.git_url;
  git_sha = i.git_sha;
}

abbrev pub manifest_of : App → String → DeployInput → Time → Option Manifest
manifest_of a tier i now =
    if not (length i.image == 0)
    then some (app_env (env_of a tier i))
    else if not (i.git_url == "")
    then some (build (build_of a i now))
    else none

abbrev pub bridge_for : Db → String → DeployInput → Time → Outcome Error App → Option Manifest
bridge_for db org i now (err e) = none
bridge_for db org i now (ok a) = manifest_of a (org_tier db org) i now

-- `applyBridgeBestEffort`: the manifest that is applied, if an applier is wired; what the applier
-- answers changes nothing
unfoldable pub apply_bridge :
    (String → Option String) → Bool → Db → String → String → DeployInput → Time → Option Manifest
unfolding get_app org_tier services_of itoa
apply_bridge uuid wired db org app_id i now =
    if wired then bridge_for db org i now (get_app uuid db org app_id) else none

abbrev pub deploy_error : Error → Response
deploy_error not_found = problem 404 "NOT_FOUND"
deploy_error plan_expired = problem 410 "PLAN_EXPIRED"
deploy_error (conflict c) = problem 409 "CONFLICT"
deploy_error not_enough_revisions = problem 500 "INTERNAL"
deploy_error storage_error = problem 500 "INTERNAL"
deploy_error (quota_exceeded t n) = problem 500 "INTERNAL"
deploy_error (invalid_digest d) = problem 500 "INTERNAL"
deploy_error (unsupported_kind k) = problem 500 "INTERNAL"

-- the state, the answer and the manifest that is applied
abbrev pub Deployed : Type 0
Deployed = Db × Response × Option Manifest

abbrev pub approved :
    (String → Option String)
    → Bool
    → String
    → String
    → DeployInput
    → Time
    → Result String
    → Deployed
approved uuid wired org app_id i now (db, err e) = (db, deploy_error e, none)
approved uuid wired org app_id i now (db, ok id) =
    (db, json 202 (deployment_body id planned), apply_bridge uuid wired db org app_id i now)

abbrev pub deploy_input :
    (String → Option String)
    → (Bytes → Option Time)
    → Bool
    → Db
    → String
    → String
    → Time
    → Option DeployInput
    → Deployed
deploy_input uuid expires_of wired db org app_id now none = (db, validation_failed, none)
deploy_input uuid expires_of wired db org app_id now (some i) =
    if i.plan_id == ""
    then (db, validation_failed, none)
    else approved uuid wired org app_id i now
        (approve_plan uuid expires_of db org app_id i.plan_id now)

abbrev pub deploy_for :
    (String → Option String)
    → (Bytes → Option Time)
    → Bool
    → Db
    → Option (String × String)
    → String
    → Time
    → Option DeployInput
    → Deployed
deploy_for uuid expires_of wired db none app_id now input = (db, problem 401 "UNAUTHORIZED", none)
deploy_for uuid expires_of wired db (some (user, org)) app_id now input =
    deploy_input uuid expires_of wired db org app_id now input

unfoldable pub handle_deploy :
    (String → Option String)
    → (Bytes → Option Time)
    → Bool
    → Db
    → Option (String × String)
    → String
    → Time
    → Option DeployInput
    → Deployed
unfolding approve_plan apply_bridge
handle_deploy uuid expires_of wired db ident app_id now input =
    deploy_for uuid expires_of wired db ident app_id now input

abbrev rollback_error : Error → Response
rollback_error not_enough_revisions = problem 409 "NOT_ENOUGH_REVISIONS"
rollback_error not_found = map_write_err not_found
rollback_error plan_expired = map_write_err plan_expired
rollback_error storage_error = map_write_err storage_error
rollback_error (quota_exceeded t n) = map_write_err (quota_exceeded t n)
rollback_error (conflict c) = map_write_err (conflict c)
rollback_error (invalid_digest d) = map_write_err (invalid_digest d)
rollback_error (unsupported_kind k) = map_write_err (unsupported_kind k)

abbrev pub rolled_back : Result (RevisionRow × RevisionRow) → Served
rolled_back (db, err e) = (db, rollback_error e)
rolled_back (db, ok (row, target)) = (db, json 200 (rollback_body target.revision row.revision))

unfoldable pub handle_rollback :
    (String → Option String)
    → (String → String → Bool)
    → Db
    → Option (String × String)
    → String
    → Time
    → Served
unfolding rollback_latest map_write_err
handle_rollback uuid lt db ident app_id now =
    for_org db ident λ org. rolled_back (rollback_latest uuid lt db org app_id now)

unfoldable pub handle_list_deployments :
    (String → Option String)
    → (String → String → Bool)
    → Db
    → Option (String × String)
    → String
    → Served
unfolding list_revisions map_write_err
handle_list_deployments uuid lt db ident app_id =
    for_org db ident
      λ org. respond (λ rs. json 200 (revisions_body rs)) (db, list_revisions uuid lt db org app_id)

abbrev latest_digest : List RevisionRow → Bytes
latest_digest [] = []
latest_digest (r ∷ rs) = r.image_digest

-- a list that fails counts as empty
abbrev or_no_revisions : Outcome Error (List RevisionRow) → List RevisionRow
or_no_revisions (ok rs) = rs
or_no_revisions (err e) = []

abbrev diagnosed : App → List RevisionRow → Response
diagnosed a rs = json 200 (diagnostics_body a.id (latest_digest rs) (length rs))

unfoldable pub handle_diagnostics :
    (String → Option String)
    → (String → String → Bool)
    → Db
    → Option (String × String)
    → String
    → Served
unfolding get_app list_revisions map_write_err
handle_diagnostics uuid lt db ident app_id = for_org db ident λ org.
    respond (λ a. diagnosed a (or_no_revisions (list_revisions uuid lt db org app_id)))
      (db, get_app uuid db org app_id)
