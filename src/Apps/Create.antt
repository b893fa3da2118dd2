-- ===== src/Apps/Create.antt =====
-- control-plane/internal/apps/store.go: an app is created, renamed and deleted. The ids and the time
-- that the database generates are arguments.
use tenara.Prelude.{
  ℕ, String, Bool, not, ◌&&◌, ◌||◌, Option, none, some, ◌∷◌, ltb, leb, if◌then◌else◌, ◌==◌, nat_Eq,
  string_Eq, length, any, ok, err, int_Eq,
}
use tenara.Prelude.{find, count_where, update_where}
use tenara.Bytes.{Bytes, same, is_blank}
use tenara.Orchestrator.Deploy.{Time}
use tenara.Apps.{storage_error}
use tenara.Apps.{
  Organization, Application, Db, Error, Result, App, not_found, quota_exceeded, conflict,
  blank_name, name_used, creation_race, view, is_none, lives_in, is_app, tier_or_free, max_apps_of,
}
use tenara.Apps.Slug.{slugify}

-- the key of UNIQUE (org_id, name), which covers the deleted rows too
abbrev pub has_name : String → Bytes → Application → Bool
has_name org name r = r.org_id == org && same r.name name

abbrev pub live_count : Db → String → ℕ
live_count db org = count_where (lives_in org) db.applications

-- the tier that the classification reads: empty, if the organization is not there
abbrev read_tier : Option Organization → String
read_tier none = ""
read_tier (some o) = o.tier

-- `classifyCreateRejection`
unfoldable pub classify_create_rejection : Db → String → Bytes → Error
unfolding find count_where
classify_create_rejection db org name =
    let tier = read_tier (find (λ o. o.id == org) db.organizations) in
    if any (λ r. has_name org name r && is_none r.deleted_at) db.applications
    then conflict name_used
    else if leb (max_apps_of tier) (live_count db org)
    then quota_exceeded (tier_or_free tier) (max_apps_of tier)
    else conflict creation_race

-- NULLIF(text, '')
abbrev pub null_if_empty : String → Option String
null_if_empty s = if s == "" then none else some s

abbrev pub new_app : String → Bytes → String → String → Time → Application
new_app org name created_by id now = record {
  id = id;
  org_id = org;
  name = name;
  slug = slugify name;
  created_by = null_if_empty created_by;
  deleted_at = none;
  created_at = now;
  current_spec = none;
}

-- the INSERT .. SELECT .. ON CONFLICT DO NOTHING, and the answer
unfoldable pub insert_app : Db → Application → ℕ → Result App
unfolding classify_create_rejection count_where
insert_app db r max_apps =
    if ltb (live_count db r.org_id) max_apps && not (any (has_name r.org_id r.name) db.applications)
    then (record db { applications = r ∷ db.applications }, ok (view r))
    else (db, err (classify_create_rejection db r.org_id r.name))

abbrev pub create_for_tier : Db → Application → Option Organization → Result App
create_for_tier db r none = (db, err not_found)
create_for_tier db r (some o) = insert_app db r (max_apps_of o.tier)

unfoldable pub create_app : Db → String → Bytes → String → String → Time → Result App
unfolding insert_app slugify is_blank find
create_app db org name created_by id now =
    if length (slugify name) == 0 || is_blank name
    then (db, err (conflict blank_name))
    else create_for_tier db (new_app org name created_by id now)
        (find (λ o. o.id == org) db.organizations)

abbrev pub renamed : Bytes → Application → Application
renamed name r = record r { name = name; slug = slugify name }

-- another row has the name
abbrev pub is_taken : Db → String → String → Bytes → Bool
is_taken db org id name = any (λ r. has_name org name r && not (r.id == id)) db.applications

abbrev pub rename_found : Db → String → String → Bytes → Option Application → Result App
rename_found db org id name none = (db, err not_found)
rename_found db org id name (some r) =
    if is_taken db org id name then (db, err (conflict name_used)) else (
      record db { applications = update_where (is_app id org) (renamed name) db.applications },
      ok (view (renamed name r)),
    )

abbrev pub rename_at : Db → String → Bytes → Option String → Result App
rename_at db org name none = (db, err not_found)
rename_at db org name (some id) = rename_found db org id name (find (is_app id org) db.applications)

unfoldable pub rename_app : (String → Option String) → Db → String → String → Bytes → Result App
unfolding find update_where slugify
rename_app uuid db org app_id name = rename_at db org name (uuid app_id)

abbrev pub deleted_app : Time → Application → Application
deleted_app now r = record r { deleted_at = some now }

-- an UPDATE of the caller's app, which affects no row if the app is not there
abbrev pub update_app_at :
    Db → String → (Application → Application) → Option String → Result (Unit {0})
update_app_at db org f none = (db, err not_found)
update_app_at db org f (some id) =
    if any (is_app id org) db.applications
    then (record db { applications = update_where (is_app id org) f db.applications }, ok tt)
    else (db, err not_found)

unfoldable pub soft_delete_app :
    (String → Option String) → Db → String → String → Time → Result (Unit {0})
unfolding update_where
soft_delete_app uuid db org app_id now = update_app_at db org (deleted_app now) (uuid app_id)

abbrev pub with_spec : Bytes → Application → Application
with_spec raw r = record r { current_spec = some raw }

-- an UPDATE of the document, over the cast to jsonb: the text that the column gives back, and nothing
-- for a text that is no JSON, which fails whether the app is there or not
abbrev pub store_spec : Db → String → Option String → Option Bytes → Result (Unit {0})
store_spec db org none document = (db, err not_found)
store_spec db org (some id) none = (db, err storage_error)
store_spec db org (some id) (some document) = update_app_at db org (with_spec document) (some id)

unfoldable pub update_spec :
    (String → Option String)
    → (Bytes → Option Bytes)
    → Db
    → String
    → String
    → Bytes
    → Result (Unit {0})
unfolding update_where
update_spec uuid jsonb db org app_id raw = store_spec db org (uuid app_id) (jsonb raw)

unfoldable pub save_app_spec :
    (String → Option String)
    → (Bytes → Option Bytes)
    → Db
    → String
    → String
    → Bytes
    → Result (Unit {0})
unfolding update_where
save_app_spec uuid jsonb db org app_id raw = store_spec db org (uuid app_id) (jsonb raw)
