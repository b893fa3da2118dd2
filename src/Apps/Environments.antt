-- ===== src/Apps/Environments.antt =====
-- control-plane/internal/apps/store.go: the services and environments of an app, and the audit log.
use tenara.Prelude.{
  String, Bool, false, not, ◌&&◌, ◌||◌, Option, none, some, [], ◌∷◌, leb, if◌then◌else◌, ◌==◌,
  nat_Eq, string_Eq, length, any, all, ok, err, ℤ, int_Eq,
}
use tenara.Prelude.{find}
use tenara.Bytes.{Bytes, codes, same}
use tenara.Apps.{
  ServiceRow, Environment, AuditRow, Db, Result, storage_error, conflict, service_exists,
  bad_environment, environment_exists, get_app, for_app,
}
use Prim.Native.String
use tenara.Apps.Slug.{is_alphanumeric, is_slug_char}
use tenara.Orchestrator.Plan.{before_dash}

-- the constraints on the columns of services
abbrev is_service_type : String → Bool
is_service_type t = t == "frontend" || t == "backend"

abbrev is_service_runtime : String → Bool
is_service_runtime r = r == "node" || r == "python" || r == "go"

abbrev has_service : String → Bytes → ServiceRow → Bool
has_service app_id name s = s.app_id == app_id && same s.name name

abbrev insert_service : Db → ServiceRow → Result ServiceRow
insert_service db s =
    if any (has_service s.app_id s.name) db.services
    then (db, err (conflict service_exists))
    else if not (is_service_type s.type && is_service_runtime s.runtime)
    then (db, err storage_error)
    else (record db { services = s ∷ db.services }, ok s)

abbrev new_service : String → Bytes → String → String → ℤ → String → ServiceRow
new_service app_id name type runtime port id = record {
  id = id;
  app_id = app_id;
  name = name;
  type = type;
  runtime = runtime;
  port = port;
}

unfoldable pub add_service :
    (String → Option String)
    → Db
    → String
    → String
    → Bytes
    → String
    → String
    → ℤ
    → String
    → Result ServiceRow
unfolding get_app
add_service uuid db org app_id name type runtime port id =
    for_app db (get_app uuid db org app_id)
      λ a. insert_service db (new_service a.id name type runtime port id)

-- envNameRE: `^[a-z0-9][a-z0-9-]{0,28}$`
abbrev matches_name : Bytes → Bool
matches_name [] = false
matches_name (c ∷ s) = is_alphanumeric c && all is_slug_char s && leb (length s) 28

unfoldable pub env_name_matches : String → Bool
env_name_matches name = matches_name (codes name)

-- of the id as the client wrote it
unfoldable pub namespace_of : String → String → String
unfolding before_dash
namespace_of app_id env =
    String.◌++◌ "app-" (String.◌++◌ (before_dash app_id) (String.◌++◌ "-" env))

abbrev pub has_env : String → String → Environment → Bool
has_env app_id env e = e.app_id == app_id && e.name == env

abbrev has_namespace : String → Environment → Bool
has_namespace ns e = e.namespace_name == ns

-- both unique keys are in conflict with the same answer
abbrev insert_environment : Db → Environment → Result String
insert_environment db e =
    if any (has_env e.app_id e.name) db.environments
      || any (has_namespace e.namespace_name) db.environments
    then (db, err (conflict environment_exists))
    else (record db { environments = e ∷ db.environments }, ok e.namespace_name)

abbrev new_environment : String → String → String → String → Environment
new_environment app_id env ns id = record {
  id = id;
  app_id = app_id;
  name = env;
  namespace_name = ns;
}

unfoldable pub add_environment :
    (String → Option String) → Db → String → String → String → String → Result String
unfolding get_app env_name_matches namespace_of
add_environment uuid db org app_id env id =
    if not (env_name_matches env)
    then (db, err (conflict bad_environment))
    else for_app db (get_app uuid db org app_id)
        λ a. insert_environment db (new_environment a.id env (namespace_of app_id env) id)

-- ON CONFLICT (app_id, name) DO UPDATE keeps the row that is there
abbrev upsert_environment : Db → Environment → Option Environment → Result String
upsert_environment db e (some old) = (db, ok old.id)
upsert_environment db e none =
    if any (has_namespace e.namespace_name) db.environments
    then (db, err storage_error)
    else (record db { environments = e ∷ db.environments }, ok e.id)

unfoldable pub ensure_environment :
    (String → Option String) → Db → String → String → String → String → Result String
unfolding get_app env_name_matches namespace_of find
ensure_environment uuid db org app_id env id = for_app db (get_app uuid db org app_id) λ a.
    if not (env_name_matches env)
    then (db, err (conflict bad_environment))
    else upsert_environment db (new_environment a.id env (namespace_of app_id env) id)
        (find (has_env a.id env) db.environments)

unfoldable pub insert_audit_row : Db → AuditRow → Db
insert_audit_row db e = record db { audit_logs = e ∷ db.audit_logs }
