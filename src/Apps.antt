-- ===== src/Apps.antt =====
-- control-plane/internal/apps: the tables that its statements read and write, its errors, and the
-- lookups of an app. A statement that the database runs is one step; a statement that fails for
-- another reason than the constraints is not modelled. JSON columns keep the document written.
pub mod Slug
pub mod Create
pub mod Environments
pub mod Plans
pub mod Releases
pub mod Domains
pub mod Databases
pub mod Handlers
pub mod Planning
pub mod Deploying
pub mod Bindings
pub mod Creation
pub mod History
pub mod Approval
pub mod PlanToDeploy
pub mod Careful
pub mod Refusals
pub mod Tests
use tenara.Prelude.{
  ℕ, zero, suc, ◌+◌, ◌-◌, ◌*◌, ◌/◌, ◌%◌, ◌^◌, ◌≤◌, ◌<◌, String, ◌≡◌, refl, sym, ap, ◌∙◌, subst, ◌≢◌,
  ◌↔◌, ◌⊎◌, inl, inr, Bool, true, false, not, ◌&&◌, ◌||◌, Option, none, some, List, [], ◌∷◌, ◌++◌,
  map, arith, ltb, leb, nat_eq, if◌then◌else◌, ltb→lt, ltb→ge, leb→le, leb→gt, nat_eq_iff, Eq, ◌==◌,
  nat_Eq, string_Eq, text_iff, text_refl, text_ne, Bool-cases, Option-cases, text-cases, is_some,
  length, any, all, length-append, Member, here, there, All, All-Member, Map, get, remove, put,
  keys, get-remove, get-put, map_laws, all-get, get_or, get-put_self, get-put_ne, Outcome, ok, err,
  ◌>>=◌, ◌>>◌, require, refuse, >>=-eq-ok, is_ok, is_ok-then, ok-injective, all-Member, all-append,
  is_nonempty, is_nonempty-append, tests, ℤ, pos, negsuc, lt_ℤ, int_Eq, int_iff, All-of_all,
  all-of_All, any_Member, any-false,
}
use tenara.Prelude.{find, select, count_where, update_where}
use tenara.Bytes.{Bytes, codes, same}
use tenara.Orchestrator.Deploy.{State, Time}

pub record Organization : Type 0 where
  pub id : String
  pub tier : String

pub record Application : Type 0 where
  pub id : String
  pub org_id : String
  pub name : Bytes
  pub slug : Bytes
  pub created_by : Option String
  pub deleted_at : Option Time
  pub created_at : Time
  pub current_spec : Option Bytes

pub record ServiceRow : Type 0 where
  pub id : String
  pub app_id : String
  pub name : Bytes
  pub type : String
  pub runtime : String
  pub port : ℤ

pub record Environment : Type 0 where
  pub id : String
  pub app_id : String
  pub name : String
  pub namespace_name : String

pub record Deployment : Type 0 where
  pub id : String
  pub app_id : String
  pub environment_id : String
  pub state : State
  pub plan_id : Option String
  pub plan_snapshot : Option Bytes

pub record RevisionRow : Type 0 where
  pub revision : ℕ
  pub git_sha : String
  pub build_id : String
  pub image_digest : Bytes
  pub config_version : ℤ
  pub secret_revision : ℤ
  pub appspec_version : String
  pub created_at : Time

-- a row of deployment_revisions, with the columns that `cols` selects
pub record SavedRevision : Type 0 where
  pub deployment_id : String
  pub row : RevisionRow

pub record AuditRow : Type 0 where
  pub actor_type : String
  pub actor_id : String
  pub agent : String
  pub workspace_id : String
  pub action : String
  pub source_ip : String
  pub request_id : String
  pub result : String

pub record DomainRow : Type 0 where
  pub id : String
  pub app_id : String
  pub hostname : Bytes
  pub verified : Bool
  pub txt_challenge : String
  pub cname_target : String
  pub is_default : Bool

-- a row of domains, with the column that orders them
pub record SavedDomain : Type 0 where
  pub row : DomainRow
  pub created_at : Time

pub record DatabaseRow : Type 0 where
  pub id : String
  pub app_id : String
  pub type : String
  pub isolation : String
  pub state : String

pub record BindingRow : Type 0 where
  pub id : String
  pub credential_ref : String
  pub state : String

-- a row of databases, with its db_name, and a row of database_bindings, with its keys
pub record SavedDatabase : Type 0 where
  pub row : DatabaseRow
  pub db_name : Option String

pub record SavedBinding : Type 0 where
  pub row : BindingRow
  pub database_id : String
  pub app_id : String

pub record Db : Type 0 where
  pub organizations : List Organization
  pub applications : List Application
  pub services : List ServiceRow
  pub environments : List Environment
  pub deployments : List Deployment
  pub revisions : List SavedRevision
  pub domains : List SavedDomain
  pub databases : List SavedDatabase
  pub database_bindings : List SavedBinding
  pub audit_logs : List AuditRow

-- why a statement is in conflict: the detail of an `ErrConflict`
pub data Conflict : Type 0 where
  blank_name name_used creation_race service_exists bad_environment environment_exists : Conflict
  corrupt_snapshot : Conflict
  plan_already : State → Conflict
  hostname_bound not_verified no_challenge : Conflict

-- `storage_error` for an error of the database that no branch of the source names
pub data Error : Type 0 where
  not_found plan_expired not_enough_revisions storage_error : Error
  quota_exceeded : String → ℕ → Error
  conflict : Conflict → Error
  invalid_digest : Bytes → Error
  unsupported_kind : String → Error

-- what a statement leaves, and the answer
abbrev pub Result : Type 0 → Type 0
Result A = Db × Outcome Error A

pub record App : Type 0 where
  pub id : String
  pub name : Bytes
  pub slug : Bytes
  pub created_at : Time

-- the columns that the statements return
abbrev pub view : Application → App
view r = record { id = r.id; name = r.name; slug = r.slug; created_at = r.created_at }

abbrev pub is_none : Option Time → Bool
is_none none = true
is_none (some t) = false

-- org_id = org AND deleted_at IS NULL
abbrev pub lives_in : String → Application → Bool
lives_in org r = r.org_id == org && is_none r.deleted_at

-- id = id AND org_id = org AND deleted_at IS NULL
abbrev pub is_app : String → String → Application → Bool
is_app id org r = r.id == id && lives_in org r

abbrev pub found_app : Option Application → Outcome Error App
found_app none = err not_found
found_app (some r) = ok (view r)

-- The lookups by an id that the client sends go over `uuid`, which gives the canonical text of a
-- UUID, and nothing for a text that is none (`validUUID`).
abbrev pub get_app_at : Db → String → Option String → Outcome Error App
get_app_at db org none = err not_found
get_app_at db org (some id) = found_app (find (is_app id org) db.applications)

unfoldable pub get_app : (String → Option String) → Db → String → String → Outcome Error App
unfolding find
get_app uuid db org app_id = get_app_at db org (uuid app_id)

-- the statements run for the app that the lookup found
abbrev pub for_app : {A : Type 0} → Db → Outcome Error App → (App → Result A) → Result A
for_app db (err e) run = (db, err e)
for_app db (ok a) run = run a

pub record AppWithSpec : Type 0 where
  pub app : App
  pub spec_raw : Bytes

abbrev pub or_empty : Option Bytes → Bytes
or_empty none = []
or_empty (some s) = s

abbrev pub found_with_spec : Option Application → Outcome Error AppWithSpec
found_with_spec none = err not_found
found_with_spec (some r) = ok (record { app = view r; spec_raw = or_empty r.current_spec })

abbrev pub with_spec_at : Db → String → Option String → Outcome Error AppWithSpec
with_spec_at db org none = err not_found
with_spec_at db org (some id) = found_with_spec (find (is_app id org) db.applications)

unfoldable pub get_app_with_spec :
    (String → Option String) → Db → String → String → Outcome Error AppWithSpec
unfolding find
get_app_with_spec uuid db org app_id = with_spec_at db org (uuid app_id)

-- newest first
unfoldable pub insert_newest : Application → List Application → List Application
insert_newest r [] = r ∷ []
insert_newest r (s ∷ rs) =
    let rest = insert_newest r rs in if leb s.created_at r.created_at then r ∷ s ∷ rs else s ∷ rest

unfoldable pub newest_first : List Application → List Application
unfolding insert_newest
newest_first [] = []
newest_first (r ∷ rs) = insert_newest r (newest_first rs)

-- ORDER BY created_at DESC; rows of the same time in any order
unfoldable pub list_apps : Db → String → List App
unfolding select newest_first
list_apps db org = map view (newest_first (select (lives_in org) db.applications))

abbrev found_tier : Option Organization → String
found_tier none = "free"
found_tier (some o) = o.tier

unfoldable pub org_tier : Db → String → String
unfolding find
org_tier db org = found_tier (find (λ o. o.id == org) db.organizations)

abbrev pub tier_or_free : String → String
tier_or_free tier = if tier == "" then "free" else tier

abbrev pub free_tier_max_apps : ℕ
free_tier_max_apps = 3

abbrev pub pro_tier_max_apps : ℕ
pro_tier_max_apps = 50

abbrev pub max_apps_of : String → ℕ
max_apps_of tier = if tier == "pro" then pro_tier_max_apps else free_tier_max_apps
