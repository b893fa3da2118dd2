-- ===== src/Apps/Approval.antt =====
-- A saved plan can be approved until it expires, and once.
pub mod Saved
use tenara.Prelude.{
  ◌≤◌, String, ◌≡◌, refl, sym, ap, ◌∙◌, subst, inl, inr, Bool, true, false, not, ◌&&◌, Option, none,
  some, List, [], ◌∷◌, arith, ltb, ◌==◌, nat_Eq, string_Eq, text_refl, text_iff, if◌then◌else◌,
  ok-injective, Bool-cases, any, Outcome, ok, err, is_ok, int_Eq,
}
use tenara.Prelude.{find, update_where, find-update_where}
use tenara.Bytes.{Bytes}
use tenara.Orchestrator.Deploy.{Time, planned}
use tenara.Apps.{
  Application, Deployment, Db, Error, Result, App, is_app, found_app, get_app, for_app,
  plan_expired, conflict, plan_already,
}
use tenara.Apps.Environments.{ensure_environment}
use tenara.Apps.Plans.{
  awaiting_approval, awaiting, NewIds, canonical, insert_plan, save_awaiting_plan, joins,
  snapshot_expires, has_id, to_planned, check_unexpired, check_found, check_at, check_plan,
  record_approval, approve_checked, approve_plan,
}
use tenara.Apps.History.{ensure_Kept}

-- the deployment that an approval finds
abbrev pub plan_found : Db → String → String → String → Option Deployment
plan_found db org app plan = find (joins db org app plan) db.deployments

-- it awaits its approval, and has a snapshot that expires no earlier than now
abbrev not_expired : Time → Option Time → Bool
not_expired now none = false
not_expired now (some t) = not (ltb t now)

abbrev pub is_approvable : (Bytes → Option Time) → Time → Option Deployment → Bool
is_approvable expires_of now none = false
is_approvable expires_of now (some d) =
    not_expired now (snapshot_expires expires_of d.plan_snapshot) && d.state == awaiting_approval

unexpired_ok :
    (d : Deployment) (now : Time) (t : Option Time)
    → is_ok (check_unexpired d now t) ≡ (not_expired now t && d.state == awaiting_approval)
unexpired_ok d now none = refl
unexpired_ok d now (some t) = ground arith

found_ok :
    (expires_of : Bytes → Option Time) (now : Time) (o : Option Deployment)
    → is_ok (check_found expires_of now o) ≡ is_approvable expires_of now o
found_ok expires_of now none = refl
found_ok expires_of now (some d) = unexpired_ok d now (snapshot_expires expires_of d.plan_snapshot)

checked_ok : (db : Db) (m : Outcome Error String) → is_ok (approve_checked db m).1 ≡ is_ok m
checked_ok db (err e) = refl
checked_ok db (ok id) = refl

-- A plan is approved exactly if the organization has a deployment with it, of the app, that still awaits
-- its approval and whose snapshot can be read and has not expired; the ids are UUIDs here.
pub approve_ok_iff :
    (uuid : String → Option String) (expires_of : Bytes → Option Time) (db : Db)
    (org app_id plan_id app plan : String) (now : Time)
    → uuid app_id ≡ some app
    → uuid plan_id ≡ some plan
    → is_ok (approve_plan uuid expires_of db org app_id plan_id now).1
      ≡ is_approvable expires_of now (plan_found db org app plan)
unfolding approve_plan check_plan
approve_ok_iff uuid expires_of db org app_id plan_id app plan now a p =
    rw (a, p)
      (checked_ok db (check_found expires_of now (plan_found db org app plan))
        ∙ found_ok expires_of now (plan_found db org app plan))

-- the plan's deployment is found, and is PLANNED
abbrev pub is_planned : Option Deployment → Bool
is_planned none = false
is_planned (some d) = d.state == planned

planned_refused :
    (expires_of : Bytes → Option Time) (now : Time) (o : Option Deployment)
    → is_planned o ≡ true
    → is_ok (check_found expires_of now o) ≡ false
planned_refused expires_of now none h = refl
planned_refused expires_of now (some d) h =
    unexpired_ok d now (snapshot_expires expires_of d.plan_snapshot)
    ∙ off (not_expired now (snapshot_expires expires_of d.plan_snapshot))
        (d.state == awaiting_approval)
        (ap (λ s. s == awaiting_approval) ((text_iff d.state planned).0 h))
  where
    off : (b c : Bool) → c ≡ false → (b && c) ≡ false
    off true c h = h
    off false c h = refl

-- what a write does to the row that a plan finds
recorded_found :
    (db : Db) (org app plan id : String)
    → plan_found (record_approval db id) org app plan ≡ elim (plan_found db org app plan) [
      | none ↦ none
      | some d ↦ some (if has_id id d then to_planned d else d)
    ]
unfolding record_approval
recorded_found db org app plan id =
    find-update_where (has_id id) (joins db org app plan) to_planned db.deployments (λ x. refl)

-- the row as a write leaves it
abbrev written : String → Option Deployment → Option Deployment
written id o = elim o [ none ↦ none | some d ↦ some (if has_id id d then to_planned d else d) ]

abbrev pub has_row : String → Option Deployment → Bool
has_row id none = false
has_row id (some d) = d.id == id

written_keeps_planned :
    (id : String) (o : Option Deployment) → is_planned o ≡ true → is_planned (written id o) ≡ true
written_keeps_planned id none h = h
written_keeps_planned id (some d) h = by_id (has_id id d)
  where
    by_id : (b : Bool) → is_planned (some (if b then to_planned d else d)) ≡ true
    by_id true = text_refl planned
    by_id false = h

written_keeps_row :
    (id other : String) (o : Option Deployment)
    → has_row id o ≡ true
    → has_row id (written other o) ≡ true
written_keeps_row id other none h = h
written_keeps_row id other (some d) h = by_id (has_id other d)
  where
    by_id : (b : Bool) → has_row id (some (if b then to_planned d else d)) ≡ true
    by_id true = h
    by_id false = h

written-planned :
    (id : String) (o : Option Deployment) → has_row id o ≡ true → is_planned (written id o) ≡ true
written-planned id none h = cc
written-planned id (some d) h = rw h (text_refl planned)

-- the writes of approvals, in their order
unfoldable pub record_all : Db → List String → Db
unfolding record_approval
record_all db [] = db
record_all db (id ∷ ids) = record_all (record_approval db id) ids

all_keep_row :
    (db : Db) (org app plan id : String) (ids : List String)
    → has_row id (plan_found db org app plan) ≡ true
    → has_row id (plan_found (record_all db ids) org app plan) ≡ true
unfolding record_all
all_keep_row db org app plan id [] h = h
all_keep_row db org app plan id (x ∷ xs) h =
    all_keep_row (record_approval db x) org app plan id xs (
      ap (has_row id) (recorded_found db org app plan x)
      ∙ written_keeps_row id x (plan_found db org app plan) h)

all_keep_planned :
    (db : Db) (org app plan : String) (ids : List String)
    → is_planned (plan_found db org app plan) ≡ true
    → is_planned (plan_found (record_all db ids) org app plan) ≡ true
unfolding record_all
all_keep_planned db org app plan [] h = h
all_keep_planned db org app plan (x ∷ xs) h =
    all_keep_planned (record_approval db x) org app plan xs (
      ap is_planned (recorded_found db org app plan x)
      ∙ written_keeps_planned x (plan_found db org app plan) h)

-- the row that a check passed
checked_row :
    (expires_of : Bytes → Option Time) (now : Time) (o : Option Deployment) (id : String)
    → check_found expires_of now o ≡ ok id
    → has_row id o ≡ true
checked_row expires_of now none id h = cc
checked_row expires_of now (some d) id h = by_time (snapshot_expires expires_of d.plan_snapshot) h
  where
    by_tests :
        (b c : Bool) (x y : Error)
        → (if b then err x else if c then err y else ok d.id) ≡ ok id
        → has_row id (some d) ≡ true
    by_tests true c x y h = cc
    by_tests false true x y h = cc
    by_tests false false x y h = (text_iff d.id id).1 (ok-injective h)

    by_time : (t : Option Time) → check_unexpired d now t ≡ ok id → has_row id (some d) ≡ true
    by_time none h = cc
    by_time (some t) h =
        by_tests (ltb t now) (not (d.state == awaiting_approval)) plan_expired
          (conflict (plan_already d.state)) h

approve_writes :
    (db : Db) (org app plan id : String) (m : Outcome Error String)
    → (m ≡ ok id → has_row id (plan_found db org app plan) ≡ true)
    → (approve_checked db m).1 ≡ ok id
    → (has_row id (plan_found (approve_checked db m).0 org app plan) ≡ true)
      × (is_planned (plan_found (approve_checked db m).0 org app plan) ≡ true)
approve_writes db org app plan id (err e) k h = cc
approve_writes db org app plan id (ok x) k h =
    let e : x ≡ id = ok-injective h in
    subst
      (λ y.
        (has_row id (plan_found (record_approval db y) org app plan) ≡ true)
        × (is_planned (plan_found (record_approval db y) org app plan) ≡ true))
      (sym e)
      (
        ap (has_row id) (recorded_found db org app plan id)
            ∙ written_keeps_row id id (plan_found db org app plan) (k h),
        ap is_planned (recorded_found db org app plan id)
            ∙ written-planned id (plan_found db org app plan) (k h),
      )

-- An approval that succeeds leaves the deployment of the plan, which it answers, in PLANNED.
pub approve_plan-planned :
    (uuid : String → Option String) (expires_of : Bytes → Option Time) (db : Db)
    (org app_id plan_id app plan id : String) (now : Time)
    → uuid app_id ≡ some app
    → uuid plan_id ≡ some plan
    → (approve_plan uuid expires_of db org app_id plan_id now).1 ≡ ok id
    → (has_row id
          (plan_found (approve_plan uuid expires_of db org app_id plan_id now).0 org app plan)
        ≡ true)
      × (is_planned
            (plan_found (approve_plan uuid expires_of db org app_id plan_id now).0 org app plan)
          ≡ true)
unfolding approve_plan check_plan
approve_plan-planned uuid expires_of db org app_id plan_id app plan id now a p h =
    let m = check_at expires_of db org now (uuid plan_id) (uuid app_id) in
    approve_writes db org app plan id m
      (λ k. checked_row expires_of now (plan_found db org app plan) id (
        subst (λ q. check_at expires_of db org now q (some app) ≡ ok id) p
          (subst (λ q. check_at expires_of db org now (uuid plan_id) q ≡ ok id) a k)))
      h

once_at :
    (expires_of : Bytes → Option Time) (db : Db) (org : String) (now later : Time)
    (p a : Option String) (id : String) (before after : List String)
    → check_at expires_of db org now p a ≡ ok id
    → is_ok (
        check_at expires_of
          (record_all (record_approval (record_all db before) id) after)
          org
          later
          p
          a)
      ≡ false
once_at expires_of db org now later none a id before after h = refl
once_at expires_of db org now later (some p) none id before after h = refl
once_at expires_of db org now later (some p) (some a) id before after h =
    let row = checked_row expires_of now (plan_found db org a p) id h in
    let kept = all_keep_row db org a p id before row in
    let new =
      ap is_planned (recorded_found (record_all db before) org a p id)
      ∙ written-planned id (plan_found (record_all db before) org a p) kept in
    planned_refused expires_of later
      (plan_found (record_all (record_approval (record_all db before) id) after) org a p)
      (all_keep_planned (record_approval (record_all db before) id) org a p after new)

-- After an approval has written, no approval of the plan begins: if the SELECT and the checks of
-- ApprovePlan pass, then once its UPDATE is there every ApprovePlan of the same plan that runs
-- after it fails, at every time, whatever UPDATEs of other approvals come before and after. The
-- theorem says nothing of an approval whose SELECT comes before that UPDATE.
pub approve_once :
    (uuid : String → Option String) (expires_of : Bytes → Option Time) (db : Db)
    (org app_id plan_id id : String) (now later : Time) (before after : List String)
    → check_plan uuid expires_of db org app_id plan_id now ≡ ok id
    → is_ok
        (approve_plan uuid expires_of
          (record_all (record_approval (record_all db before) id) after)
          org
          app_id
          plan_id
          later).1
      ≡ false
unfolding approve_plan check_plan
approve_once uuid expires_of db org app_id plan_id id now later before after h =
    let db' = record_all (record_approval (record_all db before) id) after in
    checked_ok db' (check_at expires_of db' org later (uuid plan_id) (uuid app_id))
    ∙ once_at expires_of db org now later (uuid plan_id) (uuid app_id) id before after h
