-- ===== src/Apps/Handlers.antt =====
-- control-plane/internal/apps/handlers.go: the answers of the handlers, and the handlers of apps,
-- services, environments and specs. The identity is the one that the gate put into the request, and an
-- input is the decoded body: nothing, if it cannot be decoded.
use tenara.Prelude.{
  ℕ, String, Bool, not, ◌&&◌, ◌||◌, Option, none, some, List, [], ltb, if◌then◌else◌, ◌==◌, nat_Eq,
  string_Eq, ok, err, ℤ, pos, lt_ℤ, int_Eq,
}
use tenara.Bytes.{Bytes, is_blank, trim_space}
use tenara.Orchestrator.Deploy.{State, Time}
use tenara.Apps.{
  ServiceRow, RevisionRow, DomainRow, DatabaseRow, BindingRow, Db, Error, Result, App, not_found,
  plan_expired, not_enough_revisions, storage_error, quota_exceeded, conflict, invalid_digest,
  unsupported_kind, get_app, list_apps,
}
use tenara.AppSpec.Spec.{Spec, parse}
use tenara.AppSpec.Spec
use tenara.Orchestrator.Plan.{Plan}
use tenara.Secrets.{Item}
use tenara.Apps.Create.{create_app, rename_app, soft_delete_app, update_spec}
use tenara.Apps.Environments.{add_service, add_environment}

pub data Body : Type 0 where
  apps_body : List App → Body
  app_body : App → Body
  service_body : ServiceRow → Body
  namespace_body : String → Body
  revisions_body : List RevisionRow → Body
  rollback_body : ℕ → ℕ → Body
  spec_body : Bytes → Body
  plan_body : Plan → Body
  deployment_body : String → State → Body
  domains_body : List DomainRow → Body
  domain_body : DomainRow → Body
  database_body : DatabaseRow → BindingRow → Body
  diagnostics_body : String → Bytes → ℕ → Body
  secrets_body : List Item → Body
  value_body : Bytes → Body

-- `writeJSON`, `writeProblem` with the status and the error code, and a bare status
pub data Response : Type 0 where
  json : ℕ → Body → Response
  problem : ℕ → String → Response
  status_only : ℕ → Response

-- what a handler leaves, and its answer
abbrev pub Served : Type 0
Served = Db × Response

abbrev pub status_of : Response → ℕ
status_of (json s b) = s
status_of (problem s c) = s
status_of (status_only s) = s

abbrev pub is_success : Response → Bool
is_success r = ltb (status_of r) 300

unfoldable pub map_write_err : Error → Response
map_write_err not_found = problem 404 "NOT_FOUND"
map_write_err (quota_exceeded tier n) = problem 402 "QUOTA_EXCEEDED"
map_write_err (conflict c) = problem 409 "CONFLICT"
map_write_err (unsupported_kind k) = problem 400 "BAD_REQUEST"
map_write_err plan_expired = problem 500 "INTERNAL"
map_write_err not_enough_revisions = problem 500 "INTERNAL"
map_write_err storage_error = problem 500 "INTERNAL"
map_write_err (invalid_digest d) = problem 500 "INTERNAL"

-- the answer to what the store did
abbrev pub respond : {A : Type 0} → (A → Response) → Result A → Served
respond answer (db, err e) = (db, map_write_err e)
respond answer (db, ok a) = (db, answer a)

abbrev pub unauthorized : Response
unauthorized = problem 401 "UNAUTHORIZED"

-- `orgOrUnauthorized`: the user and the organization
abbrev pub for_org : Db → Option (String × String) → (String → Served) → Served
for_org db none serve = (db, unauthorized)
for_org db (some (user, org)) serve = serve org

abbrev pub validation_failed : Response
validation_failed = problem 422 "VALIDATION_FAILED"

unfoldable pub handle_list : Db → Option (String × String) → Served
unfolding list_apps
handle_list db ident = for_org db ident λ org. (db, json 200 (apps_body (list_apps db org)))

-- the decoded name; blank, if the body cannot be decoded
abbrev pub name_of : Option Bytes → Bytes
name_of none = []
name_of (some name) = name

abbrev pub create_for : Db → Option (String × String) → Bytes → String → Time → Served
create_for db none name id now = (db, unauthorized)
create_for db (some (user, org)) name id now =
    if is_blank name
    then (db, validation_failed)
    else respond (λ a. json 201 (app_body a)) (create_app db org (trim_space name) user id now)

unfoldable pub handle_create : Db → Option (String × String) → Option Bytes → String → Time → Served
unfolding create_app is_blank trim_space map_write_err
handle_create db ident name id now = create_for db ident (name_of name) id now

unfoldable pub handle_get :
    (String → Option String) → Db → Option (String × String) → String → Served
unfolding get_app map_write_err
handle_get uuid db ident app_id =
    for_org db ident λ org. respond (λ a. json 200 (app_body a)) (db, get_app uuid db org app_id)

abbrev pub rename_for : (String → Option String) → Db → String → String → Bytes → Served
rename_for uuid db org app_id name =
    if is_blank name
    then (db, validation_failed)
    else respond (λ a. json 200 (app_body a)) (rename_app uuid db org app_id (trim_space name))

unfoldable pub handle_rename :
    (String → Option String) → Db → Option (String × String) → String → Option Bytes → Served
unfolding rename_app is_blank trim_space map_write_err
handle_rename uuid db ident app_id name =
    for_org db ident λ org. rename_for uuid db org app_id (name_of name)

unfoldable pub handle_delete :
    (String → Option String) → Db → Option (String × String) → String → Time → Served
unfolding soft_delete_app map_write_err
handle_delete uuid db ident app_id now =
    for_org db ident λ org. respond (λ u. status_only 204) (soft_delete_app uuid db org app_id now)

pub record ServiceInput : Type 0 where
  pub name : Bytes
  pub type : String
  pub runtime : String
  pub port : ℤ

-- the condition under which the input is refused
unfoldable pub is_bad_service : ServiceInput → Bool
unfolding is_blank
is_bad_service i =
    is_blank i.name
    || (not (i.type == "frontend") && not (i.type == "backend"))
    || (not (i.runtime == "node") && not (i.runtime == "python") && not (i.runtime == "go"))
    || lt_ℤ i.port (pos 0)
    || lt_ℤ (pos 65535) i.port

abbrev pub add_service_for :
    (String → Option String) → Db → String → String → String → Option ServiceInput → Served
add_service_for uuid db org app_id id none = (db, validation_failed)
add_service_for uuid db org app_id id (some i) =
    if is_bad_service i
    then (db, validation_failed)
    else respond (λ s. json 201 (service_body s))
        (add_service uuid db org app_id i.name i.type i.runtime i.port id)

unfoldable pub handle_add_service :
    (String → Option String)
    → Db
    → Option (String × String)
    → String
    → Option ServiceInput
    → String
    → Served
unfolding add_service is_bad_service map_write_err
handle_add_service uuid db ident app_id input id =
    for_org db ident λ org. add_service_for uuid db org app_id id input

abbrev pub add_environment_for :
    (String → Option String) → Db → String → String → String → Option String → Served
add_environment_for uuid db org app_id id none = (db, validation_failed)
add_environment_for uuid db org app_id id (some name) =
    respond (λ ns. json 201 (namespace_body ns)) (add_environment uuid db org app_id name id)

unfoldable pub handle_add_environment :
    (String → Option String)
    → Db
    → Option (String × String)
    → String
    → Option String
    → String
    → Served
unfolding add_environment map_write_err
handle_add_environment uuid db ident app_id name id =
    for_org db ident λ org. add_environment_for uuid db org app_id id name

abbrev pub put_parsed :
    (String → Option String)
    → (Bytes → Option Bytes)
    → Db
    → String
    → String
    → Bytes
    → Option Spec.Error
    → Served
put_parsed uuid jsonb db org app_id raw (some e) = (db, problem 422 "INVALID_SPEC")
put_parsed uuid jsonb db org app_id raw none =
    respond (λ u. status_only 204) (update_spec uuid jsonb db org app_id raw)

abbrev pub put_spec_for :
    (String → Option String)
    → (Bytes → Option Bytes)
    → (Bytes → Option Spec)
    → Db
    → String
    → String
    → Option Bytes
    → Served
put_spec_for uuid jsonb decode db org app_id none = (db, problem 400 "VALIDATION_FAILED")
put_spec_for uuid jsonb decode db org app_id (some raw) =
    put_parsed uuid jsonb db org app_id raw (parse decode raw).1

-- over the decoder of AppSpec documents; no body, if it cannot be read
unfoldable pub handle_put_spec :
    (String → Option String)
    → (Bytes → Option Bytes)
    → (Bytes → Option Spec)
    → Db
    → Option (String × String)
    → String
    → Option Bytes
    → Served
unfolding parse update_spec map_write_err
handle_put_spec uuid jsonb decode db ident app_id body =
    for_org db ident λ org. put_spec_for uuid jsonb decode db org app_id body
