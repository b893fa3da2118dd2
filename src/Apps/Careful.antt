-- ===== src/Apps/Careful.antt =====
-- What the handlers of control-plane/internal/apps refuse changes nothing.
use tenara.Prelude.{
  String, ◌≡◌, refl, Bool, true, false, ◌||◌, Option, none, some, List, [], ◌∷◌, arith,
  if◌then◌else◌, ◌==◌, nat_Eq, string_Eq, length, any, Outcome, ok, err, is_ok, ℤ, int_Eq,
}
use tenara.Bytes.{Bytes, is_blank}
use tenara.Orchestrator.Deploy.{Time}
use tenara.Apps.{
  Organization, Application, Deployment, RevisionRow, Db, Error, Result, not_enough_revisions,
  conflict, blank_name, is_app,
}
use tenara.Apps.Slug.{slugify}
use tenara.Apps.Create.{
  new_app, insert_app, create_for_tier, create_app, rename_app, soft_delete_app, update_spec,
  save_app_spec,
}
use tenara.Apps.Environments.{add_service, add_environment, ensure_environment}
use tenara.Apps.Plans.{insert_plan, save_awaiting_plan, approve_plan, NewIds}
use tenara.Apps.Releases.{
  RevisionInput, save_revision, rollback_target, deployments_of, input_of, restored, roll_back_to,
  roll_back_first, roll_back_at, rollback_latest,
}
use tenara.Apps.Creation.{organization_of}

-- a statement that fails changes nothing
abbrev pub Careful : {A : Type 0} → Db → Result A → Type 0
Careful db r = is_ok r.1 ≡ false → r.0 ≡ db

if_Careful :
    {A : Type 0} (db : Db) (b : Bool) (x y : Result A)
    → Careful db x
    → Careful db y
    → Careful db (if b then x else y)
if_Careful db true x y h k = h
if_Careful db false x y h k = k

for_tier_Careful :
    (db : Db) (r : Application) (o : Option Organization) → Careful db (create_for_tier db r o)
unfolding insert_app
for_tier_Careful db r none = λ h. refl
for_tier_Careful db r (some o) = λ h. ground arith

pub create_app-Careful :
    (db : Db) (org : String) (name : Bytes) (by id : String) (now : Time)
    → Careful db (create_app db org name by id now)
unfolding create_app
create_app-Careful db org name by id now =
    if_Careful db (length (slugify name) == 0 || is_blank name) (db, err (conflict blank_name))
      (create_for_tier db (new_app org name by id now) (organization_of db org)) (λ h. refl)
      (for_tier_Careful db (new_app org name by id now) (organization_of db org))

pub rename_app-Careful :
    (uuid : String → Option String) (db : Db) (org app : String) (name : Bytes)
    → Careful db (rename_app uuid db org app name)
unfolding rename_app
rename_app-Careful uuid db org app name = λ h. ground arith

pub soft_delete_app-Careful :
    (uuid : String → Option String) (db : Db) (org app : String) (now : Time)
    → Careful db (soft_delete_app uuid db org app now)
unfolding soft_delete_app
soft_delete_app-Careful uuid db org app now = λ h. ground arith

pub update_spec-Careful :
    (uuid : String → Option String) (jsonb : Bytes → Option Bytes) (db : Db) (org app : String)
    (raw : Bytes)
    → Careful db (update_spec uuid jsonb db org app raw)
unfolding update_spec
update_spec-Careful uuid jsonb db org app raw = λ h. ground arith

pub save_app_spec-Careful :
    (uuid : String → Option String) (jsonb : Bytes → Option Bytes) (db : Db) (org app : String)
    (raw : Bytes)
    → Careful db (save_app_spec uuid jsonb db org app raw)
unfolding save_app_spec
save_app_spec-Careful uuid jsonb db org app raw = λ h. ground arith

pub add_service-Careful :
    (uuid : String → Option String) (db : Db) (org app : String) (name : Bytes)
    (type runtime : String) (port : ℤ) (id : String)
    → Careful db (add_service uuid db org app name type runtime port id)
unfolding add_service
add_service-Careful uuid db org app name type runtime port id = λ h. ground arith

pub add_environment-Careful :
    (uuid : String → Option String) (db : Db) (org app env id : String)
    → Careful db (add_environment uuid db org app env id)
unfolding add_environment
add_environment-Careful uuid db org app env id = λ h. ground arith

ensure_Careful :
    (uuid : String → Option String) (db : Db) (org app env id : String)
    → Careful db (ensure_environment uuid db org app env id)
unfolding ensure_environment
ensure_Careful uuid db org app env id = λ h. ground arith

insert_plan-Careful :
    (db : Db) (app : String) (s : Bytes) (ids : NewIds) (r : Result String)
    → Careful db r
    → Careful db (insert_plan app s ids r)
insert_plan-Careful db app s ids (db0, err e) k = k
insert_plan-Careful db app s ids (db0, ok env) k = λ h. cc

pub save_plan_Careful :
    (uuid : String → Option String) (db : Db) (org app env : String) (s : Bytes) (ids : NewIds)
    → Careful db (save_awaiting_plan uuid db org app env s ids)
unfolding save_awaiting_plan
save_plan_Careful uuid db org app env s ids =
    insert_plan-Careful db _ s ids (ensure_environment uuid db org app env ids.environment)
      (ensure_Careful uuid db org app env ids.environment)

pub approve_Careful :
    (uuid : String → Option String) (expires_of : Bytes → Option Time) (db : Db)
    (org app plan : String) (now : Time)
    → Careful db (approve_plan uuid expires_of db org app plan now)
unfolding approve_plan
approve_Careful uuid expires_of db org app plan now = λ h. ground arith

save_revision-Careful :
    (uuid : String → Option String) (db : Db) (org app dep : String) (in_ : RevisionInput)
    (now : Time)
    → Careful db (save_revision uuid db org app dep in_ now)
unfolding save_revision
save_revision-Careful uuid db org app dep in_ now = λ h. ground arith

restored-Careful :
    (db : Db) (t : RevisionRow) (r : Result RevisionRow) → Careful db r → Careful db (restored t r)
restored-Careful db t (db', err e) k = k
restored-Careful db t (db', ok row) k = λ h. cc

roll_to_Careful :
    (uuid : String → Option String) (db : Db) (org app dep : String) (now : Time)
    (m : Outcome Error RevisionRow)
    → Careful db (roll_back_to uuid db org app dep now m)
roll_to_Careful uuid db org app dep now (err e) = λ h. refl
roll_to_Careful uuid db org app dep now (ok t) =
    restored-Careful db t (save_revision uuid db org app dep (input_of t) now)
      (save_revision-Careful uuid db org app dep (input_of t) now)

roll_first_Careful :
    (uuid : String → Option String) (db : Db) (org app : String) (now : Time) (ds : List Deployment)
    → Careful db (roll_back_first uuid db org app now ds)
roll_first_Careful uuid db org app now [] = λ h. refl
roll_first_Careful uuid db org app now (d ∷ ds) =
    roll_to_Careful uuid db org app d.id now (rollback_target uuid db org app d.id)

roll_at_Careful :
    (uuid : String → Option String) (lt : String → String → Bool) (db : Db) (org app : String)
    (now : Time) (o : Option String)
    → Careful db (roll_back_at uuid lt db org app now o)
roll_at_Careful uuid lt db org app now none = λ h. refl
roll_at_Careful uuid lt db org app now (some id) =
    if_Careful db (any (is_app id org) db.applications)
      (roll_back_first uuid db org app now (deployments_of lt id db.deployments))
      (db, err not_enough_revisions)
      (roll_first_Careful uuid db org app now (deployments_of lt id db.deployments)) (λ h. refl)

pub rollback_Careful :
    (uuid : String → Option String) (lt : String → String → Bool) (db : Db) (org app : String)
    (now : Time)
    → Careful db (rollback_latest uuid lt db org app now)
unfolding rollback_latest
rollback_Careful uuid lt db org app now = roll_at_Careful uuid lt db org app now (uuid app)
