-- ===== src/Apps/History.antt =====
-- The statements of the store as the steps of a history, and which tables they leave alone.
pub mod Seen
pub mod Quota
use tenara.Prelude.{
  ℕ, zero, suc, ◌+◌, ◌-◌, ◌*◌, ◌/◌, ◌%◌, ◌^◌, ◌≤◌, ◌<◌, String, ◌≡◌, refl, sym, ap, ◌∙◌, subst, ◌≢◌,
  ◌↔◌, ◌⊎◌, inl, inr, Bool, true, false, not, ◌&&◌, ◌||◌, Option, none, some, List, [], ◌∷◌, ◌++◌,
  map, arith, ltb, leb, nat_eq, if◌then◌else◌, ltb→lt, ltb→ge, leb→le, leb→gt, nat_eq_iff, Eq, ◌==◌,
  nat_Eq, string_Eq, text_iff, text_refl, text_ne, Bool-cases, Option-cases, text-cases, is_some,
  length, any, all, length-append, Member, here, there, All, All-Member, Map, get, remove, put,
  keys, get-remove, get-put, map_laws, all-get, get_or, get-put_self, get-put_ne, Outcome, ok, err,
  ◌>>=◌, ◌>>◌, require, refuse, >>=-eq-ok, is_ok, is_ok-then, ok-injective, all-Member, all-append,
  is_nonempty, is_nonempty-append, tests, ℤ, pos, negsuc, lt_ℤ, int_Eq, int_iff, All-of_all,
  all-of_All, any_Member, any-false,
}
use tenara.Prelude.{
  then-ok, else-ok, find, select, count_where, update_where, find-holds, select-update_where_other,
  count_where-update_where_le, find-update_where,
}
use tenara.Bytes.{Bytes, codes, same, is_blank, is_space, trim_space}
use tenara.Orchestrator.Deploy.{State, Time, planned}
use tenara.Apps.{
  Organization, Application, ServiceRow, Environment, Deployment, RevisionRow, SavedRevision,
  AuditRow, DomainRow, SavedDomain, DatabaseRow, BindingRow, SavedDatabase, SavedBinding, Db,
  Conflict, Error, Result, App, AppWithSpec, not_found, plan_expired, not_enough_revisions,
  storage_error, quota_exceeded, conflict, invalid_digest, unsupported_kind, blank_name, name_used,
  creation_race, service_exists, bad_environment, environment_exists, corrupt_snapshot,
  plan_already, hostname_bound, not_verified, no_challenge, view, is_none, lives_in, is_app,
  found_app, get_app_at, get_app, get_app_with_spec, list_apps, newest_first, insert_newest,
  org_tier, tier_or_free, free_tier_max_apps, pro_tier_max_apps, max_apps_of, or_empty, for_app,
}
use tenara.Apps.Slug.{slugify}
use tenara.Apps.Create.{
  live_count, new_app, insert_app, create_for_tier, create_app, rename_found, rename_at, rename_app,
  renamed, update_app_at, soft_delete_app, deleted_app, update_spec, save_app_spec, store_spec,
  with_spec, is_taken, has_name,
}
use tenara.Apps.Environments.{add_service, add_environment, ensure_environment}
use tenara.Apps.Plans.{
  save_awaiting_plan, approve_plan, NewIds, insert_plan, check_at, check_found, check_unexpired,
  check_plan, record_approval, approve_checked, joins,
}
use tenara.Apps.Releases.{
  rollback_latest, RevisionInput, save_revision, insert_revision, roll_back_at, roll_back_first,
  roll_back_to, restored, input_of, rollback_target, deployments_of,
}
use tenara.Apps.Databases.{
  request_database, mark_binding_ready, request_kind, merge_request, normalize_kind,
}
use tenara.Apps.Databases
use tenara.Apps.Domains.{
  Resolver, insert_domain, insert_domain_row, mark_domain_verified, allocate_default_domain,
  add_custom_domain, verify_custom_domain, verify_found, get_domain, default_row, custom_row,
}
use tenara.Apps.Environments.{insert_audit_row}
use tenara.Apps.Creation.{organization_of}

pub data Op : Type 0 where
  create_op : Bytes → String → String → Op
  rename_op : String → Bytes → Op
  delete_op : String → Op
  spec_op : String → Bytes → Op
  analysis_op : String → Bytes → Op
  service_op : String → Bytes → String → String → ℤ → String → Op
  environment_op : String → String → String → Op
  plan_op : String → String → Bytes → NewIds → Op
  approve_op : String → String → Op
  revision_op : String → String → RevisionInput → Op
  rollback_op : String → Op
  database_op : String → String → String → Databases.NewIds → Op
  ready_op : String → Op
  default_domain_op : String → Bytes → Bytes → String → Op
  custom_domain_op : String → Bytes → Option String → String → Op
  verify_op : String → String → Resolver → Op
  audit_op : AuditRow → Op

-- a statement, with the organization of its caller and its time
pub record Request : Type 0 where
  pub org : String
  pub now : Time
  pub op : Op

-- over the parsing of UUIDs, the expiry of a snapshot and the order of the ids
pub record World : Type 0 where
  pub uuid : String → Option String
  pub jsonb : Bytes → Option Bytes
  pub expires_of : Bytes → Option Time
  pub id_lt : String → String → Bool

abbrev pub perform : World → Db → String → Time → Op → Db
perform w db org now (create_op name by id) = (create_app db org name by id now).0
perform w db org now (rename_op app name) = (rename_app w.uuid db org app name).0
perform w db org now (delete_op app) = (soft_delete_app w.uuid db org app now).0
perform w db org now (spec_op app raw) = (update_spec w.uuid w.jsonb db org app raw).0
perform w db org now (analysis_op app raw) = (save_app_spec w.uuid w.jsonb db org app raw).0
perform w db org now (service_op app name type runtime port id) =
    (add_service w.uuid db org app name type runtime port id).0
perform w db org now (environment_op app env id) = (add_environment w.uuid db org app env id).0
perform w db org now (plan_op app env snapshot ids) =
    (save_awaiting_plan w.uuid db org app env snapshot ids).0
perform w db org now (approve_op app plan) =
    (approve_plan w.uuid w.expires_of db org app plan now).0
perform w db org now (revision_op app dep in_) = (save_revision w.uuid db org app dep in_ now).0
perform w db org now (rollback_op app) = (rollback_latest w.uuid w.id_lt db org app now).0
perform w db org now (database_op app kind isolation ids) =
    (request_database w.uuid db org app kind isolation ids).0
perform w db org now (ready_op app) = (mark_binding_ready w.uuid db org app).0
perform w db org now (default_domain_op app slug base id) =
    (allocate_default_domain db app slug base id now).0
perform w db org now (custom_domain_op app host token id) =
    (add_custom_domain db app host token id now).0
perform w db org now (verify_op app domain resolver) =
    (verify_custom_domain w.uuid resolver db app domain).0
perform w db org now (audit_op row) = insert_audit_row db row

unfoldable pub step : World → Db → Request → Db
unfolding create_app rename_app soft_delete_app update_spec add_service add_environment
    save_awaiting_plan approve_plan save_revision rollback_latest request_database
    mark_binding_ready save_app_spec allocate_default_domain add_custom_domain verify_custom_domain
    insert_audit_row
step w db r = perform w db r.org r.now r.op

unfoldable pub run : World → Db → List Request → Db
unfolding step
run w db [] = db
run w db (r ∷ rs) = run w (step w db r) rs

-- the tables of apps and organizations are as they were
abbrev pub Kept : Db → Db → Type 0
Kept db db' = (db'.applications ≡ db.applications) × (db'.organizations ≡ db.organizations)

pub add_service-Kept :
    (uuid : String → Option String) (db : Db) (org app : String) (name : Bytes)
    (type runtime : String) (port : ℤ) (id : String)
    → Kept db (add_service uuid db org app name type runtime port id).0
unfolding add_service
add_service-Kept uuid db org app name type runtime port id = ground arith

pub ensure_Kept :
    (uuid : String → Option String) (db : Db) (org app env id : String)
    → Kept db (ensure_environment uuid db org app env id).0
unfolding ensure_environment
ensure_Kept uuid db org app env id = ground arith

pub add_environment-Kept :
    (uuid : String → Option String) (db : Db) (org app env id : String)
    → Kept db (add_environment uuid db org app env id).0
unfolding add_environment
add_environment-Kept uuid db org app env id = ground arith

pub save_plan_Kept :
    (uuid : String → Option String) (db : Db) (org app env : String) (s : Bytes) (ids : NewIds)
    → Kept db (save_awaiting_plan uuid db org app env s ids).0
unfolding save_awaiting_plan
save_plan_Kept uuid db org app env s ids =
    ground (arith, ensure_Kept uuid db org app env ids.environment)

pub approve_Kept :
    (uuid : String → Option String) (expires_of : Bytes → Option Time) (db : Db)
    (org app plan : String) (now : Time)
    → Kept db (approve_plan uuid expires_of db org app plan now).0
unfolding approve_plan
approve_Kept uuid expires_of db org app plan now = ground arith

pub save_revision-Kept :
    (uuid : String → Option String) (db : Db) (org app dep : String) (in_ : RevisionInput)
    (now : Time)
    → Kept db (save_revision uuid db org app dep in_ now).0
unfolding save_revision
save_revision-Kept uuid db org app dep in_ now = ground arith

restored-Kept :
    (db : Db) (t : RevisionRow) (r : Result RevisionRow) → Kept db r.0 → Kept db (restored t r).0
restored-Kept db t (db', err e) h = h
restored-Kept db t (db', ok row) h = h

roll_to_Kept :
    (uuid : String → Option String) (db : Db) (org app dep : String) (now : Time)
    (m : Outcome Error RevisionRow)
    → Kept db (roll_back_to uuid db org app dep now m).0
roll_to_Kept uuid db org app dep now (err e) = (refl, refl)
roll_to_Kept uuid db org app dep now (ok t) =
    restored-Kept db t (save_revision uuid db org app dep (input_of t) now)
      (save_revision-Kept uuid db org app dep (input_of t) now)

roll_first_Kept :
    (uuid : String → Option String) (db : Db) (org app : String) (now : Time) (ds : List Deployment)
    → Kept db (roll_back_first uuid db org app now ds).0
roll_first_Kept uuid db org app now [] = (refl, refl)
roll_first_Kept uuid db org app now (d ∷ ds) =
    roll_to_Kept uuid db org app d.id now (rollback_target uuid db org app d.id)

roll_at_Kept :
    (uuid : String → Option String) (lt : String → String → Bool) (db : Db) (org app : String)
    (now : Time) (o : Option String)
    → Kept db (roll_back_at uuid lt db org app now o).0
roll_at_Kept uuid lt db org app now none = (refl, refl)
roll_at_Kept uuid lt db org app now (some id) =
    let k = roll_first_Kept uuid db org app now (deployments_of lt id db.deployments) in
    ground arith

pub rollback_Kept :
    (uuid : String → Option String) (lt : String → String → Bool) (db : Db) (org app : String)
    (now : Time)
    → Kept db (rollback_latest uuid lt db org app now).0
unfolding rollback_latest
rollback_Kept uuid lt db org app now = roll_at_Kept uuid lt db org app now (uuid app)

pub database_Kept :
    (uuid : String → Option String) (db : Db) (org app kind isolation : String)
    (ids : Databases.NewIds)
    → Kept db (request_database uuid db org app kind isolation ids).0
unfolding request_database
database_Kept uuid db org app kind isolation ids = ground arith

pub ready_Kept :
    (uuid : String → Option String) (db : Db) (org app : String)
    → Kept db (mark_binding_ready uuid db org app).0
unfolding mark_binding_ready
ready_Kept uuid db org app = ground arith

insert_domain-Kept : (db : Db) (d : DomainRow) (now : Time) → Kept db (insert_domain db d now).0
unfolding insert_domain insert_domain_row
insert_domain-Kept db d now = ground arith

pub default_domain_Kept :
    (db : Db) (app : String) (slug base : Bytes) (id : String) (now : Time)
    → Kept db (allocate_default_domain db app slug base id now).0
unfolding allocate_default_domain
default_domain_Kept db app slug base id now =
    insert_domain-Kept db (default_row app slug base id) now

pub custom_domain_Kept :
    (db : Db) (app : String) (host : Bytes) (token : Option String) (id : String) (now : Time)
    → Kept db (add_custom_domain db app host token id now).0
unfolding add_custom_domain
custom_domain_Kept db app host none id now = (refl, refl)
custom_domain_Kept db app host (some token) id now =
    insert_domain-Kept db (custom_row app host token id) now

pub verify_Kept :
    (uuid : String → Option String) (resolver : Resolver) (db : Db) (app domain : String)
    → Kept db (verify_custom_domain uuid resolver db app domain).0
unfolding verify_custom_domain mark_domain_verified
verify_Kept uuid resolver db app domain = by_row (get_domain uuid db app domain)
  where
    by_row : (m : Outcome Error DomainRow) → Kept db (verify_found uuid resolver db app m).0
    by_row (err e) = (refl, refl)
    by_row (ok d) = ground arith

pub audit_Kept : (db : Db) (row : AuditRow) → Kept db (insert_audit_row db row)
unfolding insert_audit_row
audit_Kept db row = (refl, refl)
