-- ===== src/Apps/Refusals.antt =====
-- What the handlers of control-plane/internal/apps refuse changes nothing.
mod Handled
use tenara.Apps.Refusals.Handled.{
  respond-Refused, for_org-Refused, create_Refused, rename_Refused, service_Refused,
  environment_Refused, put_for_Refused, analyze_Refused, plan_Refused, deploy_Refused,
  rolled_Refused,
}
use tenara.Prelude.{
  String, ◌≡◌, refl, Bool, true, false, Option, none, some, if◌then◌else◌, ◌==◌, nat_Eq, string_Eq,
  length, Outcome, ok, err, int_Eq,
}
use tenara.Bytes.{Bytes, is_blank, trim_space}
use tenara.Orchestrator.Deploy.{Time}
use tenara.Apps.{RevisionRow, Db, Error, Result, App, AppWithSpec, get_app_with_spec, or_empty}
use tenara.AppSpec.Spec.{Spec, parse}
use tenara.AppSpec.Spec
use tenara.Orchestrator.Plan.{Plan, generate}
use tenara.Orchestrator.Plan
use tenara.Apps.Create.{create_app, rename_app, soft_delete_app, update_spec, save_app_spec}
use tenara.Apps.Environments.{add_service, add_environment}
use tenara.Apps.Plans.{save_awaiting_plan, approve_plan, NewIds}
use tenara.Apps.Releases.{rollback_latest}
use tenara.Apps.Careful.{
  Careful, create_app-Careful, rename_app-Careful, soft_delete_app-Careful, update_spec-Careful,
  save_app_spec-Careful, add_service-Careful, add_environment-Careful, save_plan_Careful,
  approve_Careful, rollback_Careful,
}
use tenara.Apps.Handlers.{
  app_body, service_body, namespace_body, spec_body, Response, json, problem, status_only,
  is_success, Served, respond, for_org, validation_failed, name_of, create_for, rename_for,
  put_parsed, put_spec_for, handle_create, handle_rename, handle_delete, handle_put_spec,
  handle_add_service, handle_add_environment, add_service_for, add_environment_for, ServiceInput,
  is_bad_service,
}
use tenara.Apps.Planning.{
  AnalyzeError, unsupported_stack, failed, Analyze, save_parsed, save_envelope, analyzed,
  analyze_for, handle_analyze, with_plan_id, save_marshalled, save_generated, plan_parsed,
  plan_spec, handle_get_plan, plan_input,
}
use tenara.Apps.Deploying.{
  DeployInput, Deployed, approved, deploy_input, handle_deploy, rolled_back, handle_rollback,
}

-- the requests that write apps, services, environments, plans and deployments
pub data Call : Type 0 where
  create_call : Option Bytes → String → Call
  rename_call : String → Option Bytes → Call
  delete_call : String → Call
  service_call : String → Option ServiceInput → String → Call
  environment_call : String → Option String → String → Call
  put_spec_call : String → Option Bytes → Call
  analyze_call : String → Option Bytes → Call
  plan_call : String → NewIds → Call
  deploy_call : String → Option DeployInput → Call
  rollback_call : String → Call

-- what the handlers take beside the request
pub record World : Type 0 where
  pub uuid : String → Option String
  pub jsonb : Bytes → Option Bytes
  pub decode : Bytes → Option Spec
  pub app_spec_of : Bytes → Option Bytes
  pub analyze : Option Analyze
  pub marshal : Plan → Option Bytes
  pub expires_of : Bytes → Option Time
  pub id_lt : String → String → Bool
  pub base_domain : String
  pub wired : Bool

unfoldable pub serve : World → Db → Option (String × String) → Time → Call → Served
unfolding handle_create handle_rename handle_delete handle_add_service handle_add_environment
    handle_put_spec handle_analyze handle_get_plan handle_deploy handle_rollback
serve w db ident now (create_call name id) = handle_create db ident name id now
serve w db ident now (rename_call app name) = handle_rename w.uuid db ident app name
serve w db ident now (delete_call app) = handle_delete w.uuid db ident app now
serve w db ident now (service_call app input id) = handle_add_service w.uuid db ident app input id
serve w db ident now (environment_call app name id) =
    handle_add_environment w.uuid db ident app name id
serve w db ident now (put_spec_call app body) =
    handle_put_spec w.uuid w.jsonb w.decode db ident app body
serve w db ident now (analyze_call app path) =
    handle_analyze w.uuid w.jsonb w.decode w.app_spec_of w.analyze db ident app path
serve w db ident now (plan_call app ids) =
    handle_get_plan w.uuid w.decode w.marshal w.base_domain db ident app now ids
serve w db ident now (deploy_call app input) =
    let d = handle_deploy w.uuid w.expires_of w.wired db ident app now input in (d.0, d.1)
serve w db ident now (rollback_call app) = handle_rollback w.uuid w.id_lt db ident app now

-- A refusal changes nothing: whenever a handler that writes apps, services, environments, plans or
-- deployments answers with a status of 300 or above, the tables are as they were before the request.
pub refusal_changes_nothing :
    (w : World) (db : Db) (ident : Option (String × String)) (now : Time) (c : Call)
    → is_success (serve w db ident now c).1 ≡ false
    → (serve w db ident now c).0 ≡ db
unfolding serve handle_create handle_rename handle_delete handle_add_service handle_add_environment
    handle_put_spec handle_analyze handle_get_plan handle_deploy handle_rollback
refusal_changes_nothing w db ident now (create_call name id) =
    create_Refused db ident (name_of name) id now
refusal_changes_nothing w db ident now (rename_call app name) =
    for_org-Refused db ident (λ org. rename_for w.uuid db org app (name_of name))
      λ org. rename_Refused w.uuid w.jsonb db org app (name_of name)
refusal_changes_nothing w db ident now (delete_call app) =
    for_org-Refused db ident
      (λ org. respond (λ u. status_only 204) (soft_delete_app w.uuid db org app now))
      λ org.
        respond-Refused db (λ u. status_only 204) (soft_delete_app w.uuid db org app now)
          (λ u. refl) (soft_delete_app-Careful w.uuid db org app now)
refusal_changes_nothing w db ident now (service_call app input id) =
    for_org-Refused db ident (λ org. add_service_for w.uuid db org app id input)
      λ org. service_Refused w.uuid w.jsonb db org app id input
refusal_changes_nothing w db ident now (environment_call app name id) =
    for_org-Refused db ident (λ org. add_environment_for w.uuid db org app id name)
      λ org. environment_Refused w.uuid w.jsonb db org app id name
refusal_changes_nothing w db ident now (put_spec_call app body) =
    for_org-Refused db ident (λ org. put_spec_for w.uuid w.jsonb w.decode db org app body)
      λ org. put_for_Refused w.uuid w.jsonb db org app w.decode body
refusal_changes_nothing w db ident now (analyze_call app path) =
    for_org-Refused db ident
      (λ org.
        analyze_for w.uuid w.jsonb w.decode w.app_spec_of db org app (or_empty path) w.analyze)
      λ org.
        analyze_Refused w.uuid w.jsonb db org app w.decode w.app_spec_of (or_empty path) w.analyze
refusal_changes_nothing w db ident now (plan_call app ids) =
    for_org-Refused db ident
      (λ org.
        plan_spec w.uuid w.decode w.marshal db org app w.base_domain now ids
          (get_app_with_spec w.uuid db org app))
      λ org.
        plan_Refused w.uuid w.jsonb db org app w.decode w.marshal w.base_domain now ids
          (get_app_with_spec w.uuid db org app)
refusal_changes_nothing w db none now (deploy_call app input) = λ h. refl
refusal_changes_nothing w db (some (user, org)) now (deploy_call app input) =
    deploy_Refused w.uuid w.jsonb db org app w.expires_of w.wired now input
refusal_changes_nothing w db ident now (rollback_call app) =
    for_org-Refused db ident (λ org. rolled_back (rollback_latest w.uuid w.id_lt db org app now))
      λ org.
        rolled_Refused w.uuid w.jsonb db org app (rollback_latest w.uuid w.id_lt db org app now)
          (rollback_Careful w.uuid w.id_lt db org app now)
