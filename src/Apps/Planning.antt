-- ===== src/Apps/Planning.antt =====
-- control-plane/internal/apps/handlers.go: the handlers from the analysis of a repository to the
-- plan that awaits its approval.
use tenara.Prelude.{
  ◌*◌, ◌^◌, String, Option, none, some, if◌then◌else◌, ◌==◌, nat_Eq, string_Eq, length, Outcome, ok,
  err, int_Eq,
}
use tenara.Bytes.{Bytes, is_blank}
use tenara.Orchestrator.Deploy.{Time}
use tenara.Apps.{Db, Error, App, AppWithSpec, get_app_with_spec, or_empty}
use tenara.Bytes.{text_of}
use tenara.AppSpec.Spec.{Spec, parse}
use tenara.AppSpec.Spec
use tenara.Orchestrator.Plan.{Plan, Input, generate}
use tenara.Orchestrator.Plan
use tenara.Apps.Create.{save_app_spec}
use tenara.Apps.Plans.{save_awaiting_plan, NewIds}
use tenara.Apps.Handlers.{
  spec_body, plan_body, Response, json, problem, Served, map_write_err, respond, for_org,
  validation_failed,
}

-- the analysis of a repository: the document of the result
pub data AnalyzeError : Type 0 where
  unsupported_stack : AnalyzeError
  failed : Error → AnalyzeError

abbrev pub Analyze : Type 0
Analyze = Bytes → Outcome AnalyzeError Bytes

abbrev pub save_parsed :
    (String → Option String)
    → (Bytes → Option Bytes)
    → Db
    → String
    → String
    → Bytes
    → Option Spec.Error
    → Served
save_parsed uuid jsonb db org app_id spec (some e) = (db, problem 422 "INVALID_SPEC")
save_parsed uuid jsonb db org app_id spec none =
    respond (λ u. json 200 (spec_body spec)) (save_app_spec uuid jsonb db org app_id spec)

-- a document without an app_spec, or with an empty one, is refused
abbrev pub save_envelope :
    (String → Option String)
    → (Bytes → Option Bytes)
    → (Bytes → Option Spec)
    → Db
    → String
    → String
    → Option Bytes
    → Served
save_envelope uuid jsonb decode db org app_id none = (db, problem 422 "INVALID_SPEC")
save_envelope uuid jsonb decode db org app_id (some spec) =
    if length spec == 0
    then (db, problem 422 "INVALID_SPEC")
    else save_parsed uuid jsonb db org app_id spec (parse decode spec).1

abbrev pub analyzed :
    (String → Option String)
    → (Bytes → Option Bytes)
    → (Bytes → Option Spec)
    → (Bytes → Option Bytes)
    → Db
    → String
    → String
    → Outcome AnalyzeError Bytes
    → Served
analyzed uuid jsonb decode app_spec_of db org app_id (err unsupported_stack) =
    (db, problem 400 "UNSUPPORTED_STACK")
analyzed uuid jsonb decode app_spec_of db org app_id (err (failed e)) = (db, map_write_err e)
analyzed uuid jsonb decode app_spec_of db org app_id (ok raw) =
    save_envelope uuid jsonb decode db org app_id (app_spec_of raw)

-- the path of the repository; blank, if the body cannot be decoded
abbrev pub analyze_for :
    (String → Option String)
    → (Bytes → Option Bytes)
    → (Bytes → Option Spec)
    → (Bytes → Option Bytes)
    → Db
    → String
    → String
    → Bytes
    → Option Analyze
    → Served
analyze_for uuid jsonb decode app_spec_of db org app_id path none =
    (db, problem 501 "NOT_IMPLEMENTED")
analyze_for uuid jsonb decode app_spec_of db org app_id path (some analyze) =
    if is_blank path
    then (db, problem 400 "BAD_REQUEST")
    else analyzed uuid jsonb decode app_spec_of db org app_id (analyze path)

-- over the decoder of AppSpec documents and the one that reads the app_spec of an analysis
unfoldable pub handle_analyze :
    (String → Option String)
    → (Bytes → Option Bytes)
    → (Bytes → Option Spec)
    → (Bytes → Option Bytes)
    → Option Analyze
    → Db
    → Option (String × String)
    → String
    → Option Bytes
    → Served
unfolding is_blank parse save_app_spec map_write_err
handle_analyze uuid jsonb decode app_spec_of analyze db ident app_id path =
    for_org db ident
      λ org. analyze_for uuid jsonb decode app_spec_of db org app_id (or_empty path) analyze

-- 24 * time.Hour
abbrev pub plan_ttl : Time
plan_ttl = 24 * 3600 * 10 ^ 9

abbrev pub plan_input : String → Bytes → String → Spec → Time → Input
plan_input app_id slug base_domain spec now = record {
  spec = spec;
  now = now;
  app_id = app_id;
  slug = text_of slug;
  env = "production";
  base_domain = base_domain;
  ttl = plan_ttl;
}

abbrev pub with_plan_id : Plan → String × String → Response
with_plan_id p (deployment_id, plan_id) = json 200 (plan_body (record p { plan_id = plan_id }))

abbrev pub save_marshalled :
    (String → Option String) → Db → String → String → Plan → NewIds → Option Bytes → Served
save_marshalled uuid db org app_id p ids none = (db, problem 500 "INTERNAL")
save_marshalled uuid db org app_id p ids (some snapshot) =
    respond (with_plan_id p) (save_awaiting_plan uuid db org app_id "production" snapshot ids)

abbrev pub save_generated :
    (String → Option String)
    → (Plan → Option Bytes)
    → Db
    → String
    → String
    → NewIds
    → Outcome Plan.Error Plan
    → Served
save_generated uuid marshal db org app_id ids (err e) = (db, validation_failed)
save_generated uuid marshal db org app_id ids (ok p) =
    save_marshalled uuid db org app_id p ids (marshal p)

abbrev pub plan_parsed :
    (String → Option String)
    → (Plan → Option Bytes)
    → Db
    → String
    → String
    → String
    → App
    → Time
    → NewIds
    → Spec × Option Spec.Error
    → Served
plan_parsed uuid marshal db org app_id base_domain a now ids (spec, some e) =
    (db, problem 422 "INVALID_SPEC")
plan_parsed uuid marshal db org app_id base_domain a now ids (spec, none) =
    save_generated uuid marshal db org app_id ids
      (generate (plan_input app_id a.slug base_domain spec now))

abbrev pub plan_spec :
    (String → Option String)
    → (Bytes → Option Spec)
    → (Plan → Option Bytes)
    → Db
    → String
    → String
    → String
    → Time
    → NewIds
    → Outcome Error AppWithSpec
    → Served
plan_spec uuid decode marshal db org app_id base_domain now ids (err e) = (db, map_write_err e)
plan_spec uuid decode marshal db org app_id base_domain now ids (ok a) =
    if length a.spec_raw == 0
    then (db, problem 409 "SPEC_REQUIRED")
    else plan_parsed uuid marshal db org app_id base_domain a.app now ids (parse decode a.spec_raw)

-- over the encoder of plans
unfoldable pub handle_get_plan :
    (String → Option String)
    → (Bytes → Option Spec)
    → (Plan → Option Bytes)
    → String
    → Db
    → Option (String × String)
    → String
    → Time
    → NewIds
    → Served
unfolding get_app_with_spec parse generate save_awaiting_plan map_write_err text_of
handle_get_plan uuid decode marshal base_domain db ident app_id now ids = for_org db ident λ org.
    plan_spec uuid decode marshal db org app_id base_domain now ids
      (get_app_with_spec uuid db org app_id)
