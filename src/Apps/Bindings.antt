-- ===== src/Apps/Bindings.antt =====
-- control-plane/internal/apps/handlers.go and secrets_handlers.go: the handlers of domains, databases and
-- secrets.
pub mod Revealed
use tenara.Prelude.{
  ℕ, zero, suc, ◌+◌, ◌-◌, ◌*◌, ◌/◌, ◌%◌, ◌^◌, ◌≤◌, ◌<◌, String, ◌≡◌, refl, sym, ap, ◌∙◌, subst, ◌≢◌,
  ◌↔◌, ◌⊎◌, inl, inr, Bool, true, false, not, ◌&&◌, ◌||◌, Option, none, some, List, [], ◌∷◌, ◌++◌,
  map, arith, ltb, leb, nat_eq, if◌then◌else◌, ltb→lt, ltb→ge, leb→le, leb→gt, nat_eq_iff, Eq, ◌==◌,
  nat_Eq, string_Eq, text_iff, text_refl, text_ne, Bool-cases, Option-cases, text-cases, is_some,
  length, any, all, length-append, Member, here, there, All, All-Member, Map, get, remove, put,
  keys, get-remove, get-put, map_laws, all-get, get_or, get-put_self, get-put_ne, Outcome, ok, err,
  ◌>>=◌, ◌>>◌, require, refuse, >>=-eq-ok, is_ok, is_ok-then, ok-injective, all-Member, all-append,
  is_nonempty, is_nonempty-append, tests, ℤ, pos, negsuc, lt_ℤ, int_Eq, int_iff, All-of_all,
  all-of_All, any_Member, any-false,
}
use tenara.Prelude.{
  find, select, count_where, update_where, find-holds, select-update_where_other,
  count_where-update_where_le, find-update_where,
}
use tenara.Bytes.{Bytes, codes, same, is_blank, is_space, trim_space, to_lower}
use tenara.Orchestrator.Deploy.{State, Time, planned}
use tenara.Apps.{
  Organization, Application, ServiceRow, Environment, Deployment, RevisionRow, SavedRevision,
  AuditRow, DomainRow, SavedDomain, DatabaseRow, BindingRow, SavedDatabase, SavedBinding, Db,
  Conflict, Error, Result, App, AppWithSpec, not_found, plan_expired, not_enough_revisions,
  storage_error, quota_exceeded, conflict, invalid_digest, unsupported_kind, blank_name, name_used,
  creation_race, service_exists, bad_environment, environment_exists, corrupt_snapshot,
  plan_already, hostname_bound, not_verified, no_challenge, view, is_none, lives_in, is_app,
  found_app, get_app_at, get_app, get_app_with_spec, list_apps, newest_first, insert_newest,
  org_tier, tier_or_free, free_tier_max_apps, pro_tier_max_apps, max_apps_of, or_empty, for_app,
}
use tenara.Kms.{Aead}
use tenara.Secrets.{Store, Item, set_secret, list_secrets, reveal}
use tenara.Secrets
use tenara.Apps.Environments.{insert_audit_row}
use tenara.Apps.Domains.{
  list_domains, allocate_default_domain, add_custom_domain, verify_custom_domain, Resolver,
}
use tenara.Apps.Databases.{request_database}
use tenara.Apps.Databases
use tenara.Apps.Handlers.{
  Body, domains_body, domain_body, database_body, secrets_body, value_body, Response, json, problem,
  status_only, Served, map_write_err, respond, for_org, validation_failed, unauthorized,
}

unfoldable pub handle_list_domains :
    (String → Option String) → Db → Option (String × String) → String → Served
unfolding get_app list_domains map_write_err
handle_list_domains uuid db ident app_id = for_org db ident λ org.
    respond (λ a. json 200 (domains_body (list_domains db a.id))) (db, get_app uuid db org app_id)

abbrev domain_answer : DomainRow → Response
domain_answer d = json 201 (domain_body d)

-- an empty host name asks for the default domain
abbrev add_domain_for : Db → App → String → Option String → String → Time → Option Bytes → Served
add_domain_for db a base_domain token id now none = (db, validation_failed)
add_domain_for db a base_domain token id now (some hostname) =
    let host = to_lower (trim_space hostname) in
    if length host == 0
    then respond domain_answer (allocate_default_domain db a.id a.slug (codes base_domain) id now)
    else respond domain_answer (add_custom_domain db a.id host token id now)

abbrev add_domain :
    Db → String → Option String → String → Time → Option Bytes → Outcome Error App → Served
add_domain db base_domain token id now hostname (err e) = (db, map_write_err e)
add_domain db base_domain token id now hostname (ok a) =
    add_domain_for db a base_domain token id now hostname

unfoldable pub handle_add_domain :
    (String → Option String)
    → String
    → Db
    → Option (String × String)
    → String
    → Option Bytes
    → Option String
    → String
    → Time
    → Served
unfolding get_app to_lower trim_space allocate_default_domain add_custom_domain map_write_err
handle_add_domain uuid base_domain db ident app_id hostname token id now =
    for_org db ident
      λ org. add_domain db base_domain token id now hostname (get_app uuid db org app_id)

abbrev verify_for :
    (String → Option String) → Resolver → Db → String → String → Outcome Error App → Served
verify_for uuid resolver db app_id domain_id (err e) = (db, map_write_err e)
verify_for uuid resolver db app_id domain_id (ok a) =
    respond (λ d. json 200 (domain_body d)) (verify_custom_domain uuid resolver db app_id domain_id)

unfoldable pub handle_verify_domain :
    (String → Option String) → Resolver → Db → Option (String × String) → String → String → Served
unfolding get_app verify_custom_domain map_write_err
handle_verify_domain uuid resolver db ident app_id domain_id =
    for_org db ident
      λ org. verify_for uuid resolver db app_id domain_id (get_app uuid db org app_id)

pub record DatabaseInput : Type 0 where
  pub kind : String
  pub isolation : String

-- Go's zero value, for a body that cannot be decoded
abbrev or_default : Option DatabaseInput → DatabaseInput
or_default none = record { kind = ""; isolation = "" }
or_default (some i) = i

abbrev database_answer : DatabaseRow × BindingRow → Response
database_answer (d, b) = json 201 (database_body d b)

unfoldable pub handle_request_database :
    (String → Option String)
    → Db
    → Option (String × String)
    → String
    → Option DatabaseInput
    → Databases.NewIds
    → Served
unfolding request_database map_write_err
handle_request_database uuid db ident app_id input ids = for_org db ident λ org.
    respond database_answer
      (request_database uuid db org app_id (or_default input).kind (or_default input).isolation ids)

-- the name and the value of a variable
pub record EnvInput : Type 0 where
  pub name : Bytes
  pub value : Bytes

-- the secrets that a handler leaves, and its answer
abbrev pub ServedSecrets : Type 0
ServedSecrets = Store × Response

abbrev pub stored : Store × Outcome Secrets.Error (Unit {0}) → ServedSecrets
stored (st, err e) = (st, problem 500 "INTERNAL")
stored (st, ok u) = (st, status_only 204)

abbrev pub put_env_for :
    Aead
    → Option Bytes
    → (Bytes → String)
    → Store
    → String
    → String
    → Option EnvInput
    → ServedSecrets
put_env_for k drawn text st app_id id none = (st, validation_failed)
put_env_for k drawn text st app_id id (some i) =
    if is_blank i.name || length i.value == 0
    then (st, validation_failed)
    else stored (set_secret k drawn st app_id (text (trim_space i.name)) i.value id)

abbrev pub put_env_app :
    Aead
    → Option Bytes
    → (Bytes → String)
    → Store
    → String
    → Option EnvInput
    → Outcome Error App
    → ServedSecrets
put_env_app k drawn text st id input (err e) = (st, map_write_err e)
put_env_app k drawn text st id input (ok a) = put_env_for k drawn text st a.id id input

abbrev put_env_org :
    (String → Option String)
    → Aead
    → Option Bytes
    → (Bytes → String)
    → Db
    → Store
    → String
    → Option EnvInput
    → String
    → Option (String × String)
    → ServedSecrets
put_env_org uuid k drawn text db st app_id input id none = (st, unauthorized)
put_env_org uuid k drawn text db st app_id input id (some (user, org)) =
    put_env_app k drawn text st id input (get_app uuid db org app_id)

-- `text` gives the text of its code points
unfoldable pub handle_put_env :
    (String → Option String)
    → Aead
    → Option Bytes
    → (Bytes → String)
    → Db
    → Store
    → Option (String × String)
    → String
    → Option EnvInput
    → String
    → ServedSecrets
unfolding get_app is_blank trim_space set_secret map_write_err
handle_put_env uuid k drawn text db st ident app_id input id =
    put_env_org uuid k drawn text db st app_id input id ident

unfoldable pub handle_list_secrets :
    (String → Option String) → Db → Store → Option (String × String) → String → Served
unfolding get_app list_secrets map_write_err
handle_list_secrets uuid db st ident app_id = for_org db ident λ org.
    respond (λ a. json 200 (secrets_body (list_secrets st a.id))) (db, get_app uuid db org app_id)

-- the audit row of a reveal
abbrev reveal_row : String → String → AuditRow
reveal_row user org = record {
  actor_type = "user";
  actor_id = user;
  agent = "";
  workspace_id = org;
  action = "secret.reveal";
  source_ip = "";
  request_id = "";
  result = "revealed";
}

abbrev pub answer_reveal : Db → String → String → Outcome Secrets.Error Bytes → Served
answer_reveal db user org (err Secrets.not_found) = (db, problem 404 "NOT_FOUND")
answer_reveal db user org (err Secrets.encrypt_failed) = (db, problem 500 "INTERNAL")
answer_reveal db user org (err Secrets.decrypt_failed) = (db, problem 500 "INTERNAL")
answer_reveal db user org (ok plain) =
    (insert_audit_row db (reveal_row user org), json 200 (value_body plain))

-- the name; empty, if the body cannot be decoded
abbrev name_or_empty : Option String → String
name_or_empty none = ""
name_or_empty (some name) = name

abbrev pub reveal_app : Aead → Db → Store → String → String → String → Outcome Error App → Served
reveal_app k db st user org name (err e) = (db, map_write_err e)
reveal_app k db st user org name (ok a) =
    if name == ""
    then (db, validation_failed)
    else answer_reveal db user org (reveal k st a.id name)

abbrev pub reveal_for :
    (String → Option String)
    → Aead
    → Db
    → Store
    → String
    → String
    → Option (String × String)
    → Served
reveal_for uuid k db st app_id name none = (db, unauthorized)
reveal_for uuid k db st app_id name (some (user, org)) =
    reveal_app k db st user org name (get_app uuid db org app_id)

unfoldable pub handle_reveal_secret :
    (String → Option String)
    → Aead
    → Db
    → Store
    → Option (String × String)
    → String
    → Option String
    → Served
unfolding get_app reveal insert_audit_row map_write_err
handle_reveal_secret uuid k db st ident app_id name =
    reveal_for uuid k db st app_id (name_or_empty name) ident
