-- ===== src/Apps/Approval/Saved.antt =====
-- SaveAwaitingPlan and ApprovePlan together: a plan that was just saved is approved.
use tenara.Prelude.{
  ◌≤◌, String, ◌≡◌, refl, ap, ◌∙◌, subst, inl, inr, true, false, ◌&&◌, Option, none, some, List, [],
  ◌∷◌, arith, ltb, ◌==◌, nat_Eq, string_Eq, text_refl, Bool-cases, any, Outcome, ok, err, int_Eq,
}
use tenara.Prelude.{find}
use tenara.Bytes.{Bytes}
use tenara.Orchestrator.Deploy.{Time}
use tenara.Apps.{Application, Db, Error, Result, App, is_app, found_app, get_app, for_app}
use tenara.Apps.Environments.{ensure_environment}
use tenara.Apps.Plans.{check_found, check_at, check_plan, approve_checked}
use tenara.Apps.Plans.{awaiting, NewIds, canonical, insert_plan, save_awaiting_plan, approve_plan}
use tenara.Apps.History.{ensure_Kept}
use tenara.Apps.Approval.{plan_found}

any_found :
    (id org : String) (rs : List Application) (r : Application)
    → find (is_app id org) rs ≡ some r
    → any (λ a. a.id == id && a.org_id == org) rs ≡ true
unfolding find
any_found id org [] r h = cc
any_found id org (s ∷ rs) r h = elim (Bool-cases (is_app id org s)) [
  | inl e ↦ ground arith
  | inr e ↦ let k = any_found id org rs r (ground arith) in ground arith
]

-- the app that a lookup found is joined
app_joined :
    (uuid : String → Option String) (db : Db) (org app_id app : String) (a : App)
    → uuid app_id ≡ some app
    → get_app uuid db org app_id ≡ ok a
    → any (λ r. r.id == app && r.org_id == org) db.applications ≡ true
unfolding get_app
app_joined uuid db org app_id app a u h =
    by_row (find (is_app app org) db.applications) refl (rw u at h)
  where
    by_row :
        (o : Option Application)
        → find (is_app app org) db.applications ≡ o
        → found_app o ≡ ok a
        → any (λ r. r.id == app && r.org_id == org) db.applications ≡ true
    by_row none e h = cc
    by_row (some r) e h = any_found app org db.applications r e

by_app :
    {A : Type 0} (db : Db) (m : Outcome Error App) (f : App → Result A) {db' : Db} {e : A}
    → for_app db m f ≡ (db', ok e)
    → (a : App) × (m ≡ ok a)
by_app db (err x) f h = cc
by_app db (ok a) f h = (a, refl)

-- an environment is there only for an app that is
ensured_app :
    (uuid : String → Option String) (db : Db) (org app_id env id : String) {db' : Db} {e : String}
    → ensure_environment uuid db org app_id env id ≡ (db', ok e)
    → (a : App) × (get_app uuid db org app_id ≡ ok a)
unfolding ensure_environment
ensured_app uuid db org app_id env id h = by_app db (get_app uuid db org app_id) _ h

-- a new plan is the one that its id finds
new_found :
    (db : Db) (org app env : String) (snapshot : Bytes) (ids : NewIds)
    → any (λ r. r.id == app && r.org_id == org) db.applications ≡ true
    → plan_found
        (record db {
          deployments = awaiting app env snapshot ids.deployment ids.plan ∷ db.deployments;
        })
        org
        app
        ids.plan
      ≡ some (awaiting app env snapshot ids.deployment ids.plan)
unfolding find
new_found db org app env snapshot ids j = rw (text_refl ids.plan, text_refl app, j) refl

new_approved :
    (expires_of : Bytes → Option Time) (app env : String) (snapshot : Bytes) (ids : NewIds)
    (t now : Time)
    → expires_of snapshot ≡ some t
    → now ≤ t
    → check_found expires_of now (some (awaiting app env snapshot ids.deployment ids.plan))
      ≡ ok ids.deployment
new_approved expires_of app env snapshot ids t now u l = rw (u, in_time t now l) refl
  where
    in_time : (t now : Time) → now ≤ t → ltb t now ≡ false
    in_time t now l = ground arith

saved_found :
    (expires_of : Bytes → Option Time) (org app : String) (snapshot : Bytes) (ids : NewIds)
    (t now : Time) (r : Result String) {db' : Db} {x : String × String}
    → any (λ r. r.id == app && r.org_id == org) r.0.applications ≡ true
    → expires_of snapshot ≡ some t
    → now ≤ t
    → insert_plan app snapshot ids r ≡ (db', ok x)
    → (x ≡ (ids.deployment, ids.plan))
      × (check_found expires_of now (plan_found db' org app ids.plan) ≡ ok ids.deployment)
saved_found expires_of org app snapshot ids t now (db0, err e) j u l h = cc
saved_found expires_of org app snapshot ids t now (db0, ok env) {db'} {x} j u l h =
    let new : Db = record db0 {
      deployments = awaiting app env snapshot ids.deployment ids.plan ∷ db0.deployments;
    } in
    let e : new ≡ db' = cc in
    let y : x ≡ (ids.deployment, ids.plan) = cc in
    (
      y,
      subst (λ d. check_found expires_of now (plan_found d org app ids.plan) ≡ ok ids.deployment) e
          (ap (check_found expires_of now) (new_found db0 org app env snapshot ids j)
            ∙ new_approved expires_of app env snapshot ids t now u l),
    )

-- an insert that succeeded had its environment
inserted_env :
    (app : String) (snapshot : Bytes) (ids : NewIds) (r : Result String) {db' : Db}
    {x : String × String}
    → insert_plan app snapshot ids r ≡ (db', ok x)
    → (env : String) × (r ≡ (r.0, ok env))
inserted_env app snapshot ids (db0, err e) h = cc
inserted_env app snapshot ids (db0, ok env) h = (env, refl)

-- A plan that was saved is approved: SaveAwaitingPlan answers the ids of the new deployment and of its plan,
-- and until the snapshot expires ApprovePlan of that plan, for the same app and organization, gives
-- the deployment.
pub approve_plan-save_awaiting_plan :
    (uuid : String → Option String) (expires_of : Bytes → Option Time) (db : Db)
    (org app_id app env : String) (snapshot : Bytes) (ids : NewIds) (t now : Time) {db' : Db}
    {x : String × String}
    → uuid app_id ≡ some app
    → uuid ids.plan ≡ some ids.plan
    → expires_of snapshot ≡ some t
    → now ≤ t
    → save_awaiting_plan uuid db org app_id env snapshot ids ≡ (db', ok x)
    → (x ≡ (ids.deployment, ids.plan))
      × ((approve_plan uuid expires_of db' org app_id ids.plan now).1 ≡ ok ids.deployment)
unfolding save_awaiting_plan approve_plan check_plan
approve_plan-save_awaiting_plan uuid expires_of db org app_id app env snapshot ids t now {db'} {x} a
      p u l h =
    let r = ensure_environment uuid db org app_id env ids.environment in
    let h' : insert_plan app snapshot ids r ≡ (db', ok x) =
      subst (λ o. insert_plan (canonical app_id o) snapshot ids r ≡ (db', ok x)) a h in
    let (e, q) = inserted_env app snapshot ids r h' in
    let (v, g) = ensured_app uuid db org app_id env ids.environment q in
    let j =
      ap (any (λ r. r.id == app && r.org_id == org))
        (ensure_Kept uuid db org app_id env ids.environment).0
      ∙ app_joined uuid db org app_id app v a g in
    let (y, k) = saved_found expires_of org app snapshot ids t now r j u l h' in
    (y, approved db' (check_at expires_of db' org now (uuid ids.plan) (uuid app_id)) (rw (a, p) k))
  where
    approved :
        (db : Db) (m : Outcome Error String)
        → m ≡ ok ids.deployment
        → (approve_checked db m).1 ≡ ok ids.deployment
    approved db (err e) h = cc
    approved db (ok id) h = h
