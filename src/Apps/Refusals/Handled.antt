-- ===== src/Apps/Refusals/Handled.antt =====
-- What each handler of control-plane/internal/apps answers: a success, or the tables as they were.
use tenara.Prelude.{
  String, ◌≡◌, refl, Bool, true, false, Option, none, some, if◌then◌else◌, ◌==◌, nat_Eq, string_Eq,
  length, Outcome, ok, err, int_Eq,
}
use tenara.Bytes.{Bytes, is_blank, trim_space}
use tenara.Orchestrator.Deploy.{Time}
use tenara.Apps.{RevisionRow, Db, Error, Result, App, AppWithSpec}
use tenara.AppSpec.Spec.{Spec, parse}
use tenara.AppSpec.Spec
use tenara.Orchestrator.Plan.{Plan, generate}
use tenara.Orchestrator.Plan
use tenara.Apps.Create.{create_app, rename_app, update_spec, save_app_spec}
use tenara.Apps.Environments.{add_service, add_environment}
use tenara.Apps.Plans.{save_awaiting_plan, approve_plan, NewIds}
use tenara.Apps.Careful.{
  Careful, create_app-Careful, rename_app-Careful, update_spec-Careful, save_app_spec-Careful,
  add_service-Careful, add_environment-Careful, save_plan_Careful, approve_Careful,
}
use tenara.Apps.Handlers.{
  app_body, service_body, namespace_body, spec_body, Response, json, problem, status_only,
  is_success, Served, respond, for_org, validation_failed, create_for, rename_for, put_parsed,
  put_spec_for, add_service_for, add_environment_for, ServiceInput, is_bad_service,
}
use tenara.Apps.Planning.{
  AnalyzeError, unsupported_stack, failed, Analyze, save_parsed, save_envelope, analyzed,
  analyze_for, with_plan_id, save_marshalled, save_generated, plan_parsed, plan_spec, plan_input,
}
use tenara.Apps.Deploying.{DeployInput, Deployed, approved, deploy_input, rolled_back}

abbrev pub Refused : Db → Served → Type 0
Refused db s = is_success s.1 ≡ false → s.0 ≡ db

if_Refused :
    (db : Db) (b : Bool) (x y : Served)
    → Refused db x
    → Refused db y
    → Refused db (if b then x else y)
if_Refused db true x y h k = h
if_Refused db false x y h k = k

pub respond-Refused :
    {A : Type 0} (db : Db) (f : A → Response) (r : Result A)
    → ((a : A) → is_success (f a) ≡ true)
    → Careful db r
    → Refused db (respond f r)
respond-Refused db f (db0, err e) good c = λ h. c refl
respond-Refused db f (db0, ok a) good c = λ h. let k = good a in cc

pub for_org-Refused :
    (db : Db) (ident : Option (String × String)) (f : String → Served)
    → ((org : String) → Refused db (f org))
    → Refused db (for_org db ident f)
for_org-Refused db none f k = λ h. refl
for_org-Refused db (some (user, org)) f k = k org

pub create_Refused :
    (db : Db) (ident : Option (String × String)) (name : Bytes) (id : String) (now : Time)
    → Refused db (create_for db ident name id now)
create_Refused db none name id now = λ h. refl
create_Refused db (some (user, org)) name id now =
    if_Refused db (is_blank name) (db, validation_failed)
      (respond (λ a. json 201 (app_body a)) (create_app db org (trim_space name) user id now))
      (λ h. refl)
      (respond-Refused db (λ a. json 201 (app_body a))
        (create_app db org (trim_space name) user id now) (λ a. refl)
        (create_app-Careful db org (trim_space name) user id now))

module _ (uuid : String → Option String) (jsonb : Bytes → Option Bytes) (db : Db)
    (org app : String) where
  pub rename_Refused : (name : Bytes) → Refused db (rename_for uuid db org app name)
  rename_Refused name =
      if_Refused db (is_blank name) (db, validation_failed)
        (respond (λ a. json 200 (app_body a)) (rename_app uuid db org app (trim_space name)))
        (λ h. refl)
        (respond-Refused db (λ a. json 200 (app_body a))
          (rename_app uuid db org app (trim_space name)) (λ a. refl)
          (rename_app-Careful uuid db org app (trim_space name)))

  pub service_Refused :
      (id : String) (input : Option ServiceInput)
      → Refused db (add_service_for uuid db org app id input)
  service_Refused id none = λ h. refl
  service_Refused id (some i) =
      if_Refused db (is_bad_service i) (db, validation_failed)
        (respond (λ s. json 201 (service_body s))
          (add_service uuid db org app i.name i.type i.runtime i.port id))
        (λ h. refl)
        (respond-Refused db (λ s. json 201 (service_body s))
          (add_service uuid db org app i.name i.type i.runtime i.port id) (λ s. refl)
          (add_service-Careful uuid db org app i.name i.type i.runtime i.port id))

  pub environment_Refused :
      (id : String) (name : Option String)
      → Refused db (add_environment_for uuid db org app id name)
  environment_Refused id none = λ h. refl
  environment_Refused id (some name) =
      respond-Refused db (λ ns. json 201 (namespace_body ns))
        (add_environment uuid db org app name id) (λ ns. refl)
        (add_environment-Careful uuid db org app name id)

  put_Refused :
      (raw : Bytes) (o : Option Spec.Error) → Refused db (put_parsed uuid jsonb db org app raw o)
  put_Refused raw (some e) = λ h. refl
  put_Refused raw none =
      respond-Refused db (λ u. status_only 204) (update_spec uuid jsonb db org app raw) (λ u. refl)
        (update_spec-Careful uuid jsonb db org app raw)

  pub put_for_Refused :
      (decode : Bytes → Option Spec) (o : Option Bytes)
      → Refused db (put_spec_for uuid jsonb decode db org app o)
  put_for_Refused decode none = λ h. refl
  put_for_Refused decode (some raw) = put_Refused raw (parse decode raw).1

  save_Refused :
      (raw : Bytes) (o : Option Spec.Error) → Refused db (save_parsed uuid jsonb db org app raw o)
  save_Refused raw (some e) = λ h. refl
  save_Refused raw none =
      respond-Refused db (λ u. json 200 (spec_body raw)) (save_app_spec uuid jsonb db org app raw)
        (λ u. refl) (save_app_spec-Careful uuid jsonb db org app raw)

  envelope_Refused :
      (decode : Bytes → Option Spec) (o : Option Bytes)
      → Refused db (save_envelope uuid jsonb decode db org app o)
  envelope_Refused decode none = λ h. refl
  envelope_Refused decode (some raw) =
      if_Refused db (length raw == 0) (db, problem 422 "INVALID_SPEC")
        (save_parsed uuid jsonb db org app raw (parse decode raw).1) (λ h. refl)
        (save_Refused raw (parse decode raw).1)

  analyzed-Refused :
      (decode : Bytes → Option Spec) (app_spec_of : Bytes → Option Bytes)
      (m : Outcome AnalyzeError Bytes)
      → Refused db (analyzed uuid jsonb decode app_spec_of db org app m)
  analyzed-Refused decode app_spec_of (err unsupported_stack) = λ h. refl
  analyzed-Refused decode app_spec_of (err (failed e)) = λ h. refl
  analyzed-Refused decode app_spec_of (ok raw) = envelope_Refused decode (app_spec_of raw)

  pub analyze_Refused :
      (decode : Bytes → Option Spec) (app_spec_of : Bytes → Option Bytes) (path : Bytes)
      (o : Option Analyze)
      → Refused db (analyze_for uuid jsonb decode app_spec_of db org app path o)
  analyze_Refused decode app_spec_of path none = λ h. refl
  analyze_Refused decode app_spec_of path (some analyze) =
      if_Refused db (is_blank path) (db, problem 400 "BAD_REQUEST")
        (analyzed uuid jsonb decode app_spec_of db org app (analyze path)) (λ h. refl)
        (analyzed-Refused decode app_spec_of (analyze path))

  named_success : (p : Plan) (x : String × String) → is_success (with_plan_id p x) ≡ true
  named_success p (d, i) = refl

  marshalled_Refused :
      (p : Plan) (ids : NewIds) (o : Option Bytes)
      → Refused db (save_marshalled uuid db org app p ids o)
  marshalled_Refused p ids none = λ h. refl
  marshalled_Refused p ids (some s) =
      respond-Refused db (with_plan_id p) (save_awaiting_plan uuid db org app "production" s ids)
        (named_success p) (save_plan_Careful uuid db org app "production" s ids)

  generated_Refused :
      (marshal : Plan → Option Bytes) (ids : NewIds) (m : Outcome Plan.Error Plan)
      → Refused db (save_generated uuid marshal db org app ids m)
  generated_Refused marshal ids (err e) = λ h. refl
  generated_Refused marshal ids (ok p) = marshalled_Refused p ids (marshal p)

  parsed_Refused :
      (marshal : Plan → Option Bytes) (base : String) (a : App) (now : Time) (ids : NewIds)
      (m : Spec × Option Spec.Error)
      → Refused db (plan_parsed uuid marshal db org app base a now ids m)
  parsed_Refused marshal base a now ids (spec, some e) = λ h. refl
  parsed_Refused marshal base a now ids (spec, none) =
      generated_Refused marshal ids (generate (plan_input app a.slug base spec now))

  pub plan_Refused :
      (decode : Bytes → Option Spec) (marshal : Plan → Option Bytes) (base : String) (now : Time)
      (ids : NewIds) (m : Outcome Error AppWithSpec)
      → Refused db (plan_spec uuid decode marshal db org app base now ids m)
  plan_Refused decode marshal base now ids (err e) = λ h. refl
  plan_Refused decode marshal base now ids (ok a) =
      if_Refused db (length a.spec_raw == 0) (db, problem 409 "SPEC_REQUIRED")
        (plan_parsed uuid marshal db org app base a.app now ids (parse decode a.spec_raw))
        (λ h. refl) (parsed_Refused marshal base a.app now ids (parse decode a.spec_raw))

  approved-Refused :
      (wired : Bool) (i : DeployInput) (now : Time) (r : Result String)
      → Careful db r
      → Refused db
          ((approved uuid wired org app i now r).0, (approved uuid wired org app i now r).1)
  approved-Refused wired i now (db0, err e) c = λ h. c refl
  approved-Refused wired i now (db0, ok id) c = λ h. cc

  pub deploy_Refused :
      (expires_of : Bytes → Option Time) (wired : Bool) (now : Time) (input : Option DeployInput)
      → Refused db (
        (deploy_input uuid expires_of wired db org app now input).0,
        (deploy_input uuid expires_of wired db org app now input).1,
      )
  deploy_Refused expires_of wired now none = λ h. refl
  deploy_Refused expires_of wired now (some i) =
      let k =
        approved-Refused wired i now (approve_plan uuid expires_of db org app i.plan_id now)
          (approve_Careful uuid expires_of db org app i.plan_id now) in
      by_test (i.plan_id == "")
        (approved uuid wired org app i now (approve_plan uuid expires_of db org app i.plan_id now))
        k
    where
      by_test :
          (b : Bool) (d : Deployed)
          → Refused db (d.0, d.1)
          → Refused db (
            (if b then (db, validation_failed, none) else d).0,
            (if b then (db, validation_failed, none) else d).1,
          )
      by_test true d k = λ h. refl
      by_test false d k = k

  pub rolled_Refused :
      (r : Result (RevisionRow × RevisionRow)) → Careful db r → Refused db (rolled_back r)
  rolled_Refused (db0, err e) c = λ h. c refl
  rolled_Refused (db0, ok (row, target)) c = λ h. cc
