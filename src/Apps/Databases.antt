-- ===== src/Apps/Databases.antt =====
-- control-plane/internal/apps/databases.go: an app asks for a database, and its binding becomes ready.
pub mod Merged
use tenara.Prelude.{
  ℕ, zero, suc, ◌+◌, ◌-◌, ◌*◌, ◌/◌, ◌%◌, ◌^◌, ◌≤◌, ◌<◌, String, ◌≡◌, refl, sym, ap, ◌∙◌, subst, ◌≢◌,
  ◌↔◌, ◌⊎◌, inl, inr, Bool, true, false, not, ◌&&◌, ◌||◌, Option, none, some, List, [], ◌∷◌, ◌++◌,
  map, arith, ltb, leb, nat_eq, if◌then◌else◌, ltb→lt, ltb→ge, leb→le, leb→gt, nat_eq_iff, Eq, ◌==◌,
  nat_Eq, string_Eq, text_iff, text_refl, text_ne, Bool-cases, Option-cases, text-cases, is_some,
  length, any, all, length-append, Member, here, there, All, All-Member, Map, get, remove, put,
  keys, get-remove, get-put, map_laws, all-get, get_or, get-put_self, get-put_ne, Outcome, ok, err,
  ◌>>=◌, ◌>>◌, require, refuse, >>=-eq-ok, is_ok, is_ok-then, ok-injective, all-Member, all-append,
  is_nonempty, is_nonempty-append, tests, ℤ, pos, negsuc, lt_ℤ, int_Eq, int_iff, All-of_all,
  all-of_All, any_Member, any-false,
}
use tenara.Prelude.{
  find, select, count_where, update_where, find-holds, select-update_where_other,
  count_where-update_where_le, find-update_where,
}
use tenara.Bytes.{Bytes, codes, same, is_blank, is_space, trim_space}
use tenara.Orchestrator.Deploy.{State, Time, planned}
use tenara.Apps.{
  Organization, Application, ServiceRow, Environment, Deployment, RevisionRow, SavedRevision,
  AuditRow, DomainRow, SavedDomain, DatabaseRow, BindingRow, SavedDatabase, SavedBinding, Db,
  Conflict, Error, Result, App, AppWithSpec, not_found, plan_expired, not_enough_revisions,
  storage_error, quota_exceeded, conflict, invalid_digest, unsupported_kind, blank_name, name_used,
  creation_race, service_exists, bad_environment, environment_exists, corrupt_snapshot,
  plan_already, hostname_bound, not_verified, no_challenge, view, is_none, lives_in, is_app,
  found_app, get_app_at, get_app, get_app_with_spec, list_apps, newest_first, insert_newest,
  org_tier, tier_or_free, free_tier_max_apps, pro_tier_max_apps, max_apps_of, or_empty, for_app,
}
use Prim.Native.String
use tenara.Orchestrator.Plan.{before_dash}

abbrev pub kind_mongo : String
kind_mongo = "mongodb"

abbrev pub kind_redis : String
kind_redis = "redis"

abbrev pub kind_storage : String
kind_storage = "storage"

unfoldable pub normalize_kind : String → Outcome Error String
normalize_kind kind =
    if kind == "" || kind == "mongo"
    then ok kind_mongo
    else if kind == kind_mongo || kind == kind_redis || kind == kind_storage
    then ok kind
    else err (unsupported_kind kind)

abbrev pub isolation_or_shared : String → String
isolation_or_shared isolation =
    if not (isolation == "shared") && not (isolation == "dedicated") then "shared" else isolation

-- the unique key of databases
abbrev pub is_kind : String → String → SavedDatabase → Bool
is_kind app_id type d = d.row.app_id == app_id && d.row.type == type

abbrev pub has_id : String → SavedDatabase → Bool
has_id id d = d.row.id == id

abbrev pub with_isolation : String → SavedDatabase → SavedDatabase
with_isolation isolation d = record d { row = record d.row { isolation = isolation } }

abbrev pub of_database : String → SavedBinding → Bool
of_database id b = b.database_id == id

abbrev pub found_binding : Option SavedBinding → Outcome Error BindingRow
found_binding none = err not_found
found_binding (some b) = ok b.row

unfoldable pub binding_for : Db → String → Outcome Error BindingRow
unfolding find
binding_for db id = found_binding (find (of_database id) db.database_bindings)

-- the ids of the new rows
pub record NewIds : Type 0 where
  pub database : String
  pub binding : String

abbrev pub new_database : String → String → String → String → SavedDatabase
new_database app_id type isolation id = record {
  row = record { id = id; app_id = app_id; type = type; isolation = isolation; state = "pending" };
  db_name = none;
}

abbrev pub new_binding : String → NewIds → SavedBinding
new_binding app_id ids = record {
  row = record { id = ids.binding; credential_ref = ""; state = "pending" };
  database_id = ids.database;
  app_id = app_id;
}

-- the binding that is answered with a new database names no row
abbrev pub pending_binding : BindingRow
pending_binding = record { id = ""; credential_ref = ""; state = "pending" }

-- the row that a repeated request answers: only the columns that the lookup selected, and the isolation
abbrev pub repeated_row : SavedDatabase → String → DatabaseRow
repeated_row d isolation = record {
  id = d.row.id;
  app_id = "";
  type = "";
  isolation = isolation;
  state = d.row.state;
}

abbrev pub with_binding :
    Db → DatabaseRow → Outcome Error BindingRow → Result (DatabaseRow × BindingRow)
with_binding db d (err e) = (db, err e)
with_binding db d (ok b) = (db, ok (d, b))

abbrev pub merge_request :
    Db
    → String
    → String
    → String
    → NewIds
    → Option SavedDatabase
    → Result (DatabaseRow × BindingRow)
merge_request db app_id type isolation ids none =
    let d = new_database app_id type isolation ids.database in
    (
      record db {
        databases = d ∷ db.databases;
        database_bindings = new_binding app_id ids ∷ db.database_bindings;
      },
      ok (d.row, pending_binding),
    )
merge_request db app_id type isolation ids (some d) =
    let db' = record db {
      databases = update_where (has_id d.row.id) (with_isolation isolation) db.databases;
    } in
    with_binding db' (repeated_row d isolation) (binding_for db' d.row.id)

abbrev pub request_kind :
    Db → String → Outcome Error String → String → NewIds → Result (DatabaseRow × BindingRow)
request_kind db app_id (err e) isolation ids = (db, err e)
request_kind db app_id (ok type) isolation ids =
    merge_request db app_id type (isolation_or_shared isolation) ids
      (find (is_kind app_id type) db.databases)

unfoldable pub request_database :
    (String → Option String)
    → Db
    → String
    → String
    → String
    → String
    → NewIds
    → Result (DatabaseRow × BindingRow)
unfolding get_app normalize_kind find update_where binding_for
request_database uuid db org app_id kind isolation ids =
    for_app db (get_app uuid db org app_id)
      λ a. request_kind db a.id (normalize_kind kind) isolation ids

abbrev is_pending_binding : String → SavedBinding → Bool
is_pending_binding app_id b = b.app_id == app_id && b.row.state == "pending"

abbrev ready_binding : SavedBinding → SavedBinding
ready_binding b = record b { row = record b.row { state = "ready" } }

abbrev is_pending : String → SavedDatabase → Bool
is_pending app_id d = d.row.app_id == app_id && d.row.state == "pending"

abbrev ready_database : String → SavedDatabase → SavedDatabase
ready_database name d = record { row = record d.row { state = "ready" }; db_name = some name }

unfoldable pub mark_binding_ready :
    (String → Option String) → Db → String → String → Result (Unit {0})
unfolding get_app update_where before_dash
mark_binding_ready uuid db org app_id = for_app db (get_app uuid db org app_id) λ a. (
  record db {
    database_bindings = update_where (is_pending_binding a.id) ready_binding db.database_bindings;
    databases =
        update_where (is_pending a.id) (ready_database (String.◌++◌ "app_" (before_dash app_id)))
          db.databases;
  },
  ok tt,
)
