-- ===== src/Apps/PlanToDeploy.antt =====
-- The plan that GET /v1/apps/{appId}/plan answers is deployed by POST /v1/apps/{appId}/deployments.
use tenara.Prelude.{
  ℕ, ◌+◌, ◌≤◌, String, ◌≡◌, refl, sym, ap, ◌∙◌, subst, Bool, true, false, Option, none, some, List,
  if◌then◌else◌, ◌==◌, nat_Eq, string_Eq, length, keys, Outcome, ok, err, ◌>>=◌, ◌>>◌, refuse,
  ok-injective, int_Eq,
}
use tenara.Bytes.{Bytes, same}
use tenara.Orchestrator.Deploy.{Time, planned}
use tenara.Apps.{
  Db, Error, Result, App, AppWithSpec, not_found, plan_expired, not_enough_revisions, storage_error,
  quota_exceeded, conflict, invalid_digest, unsupported_kind, get_app_with_spec,
}
use tenara.AppSpec.Spec.{Spec, parse}
use tenara.AppSpec.Spec
use tenara.Orchestrator.Plan.{
  Plan, PlanService, Input, generate, list_services, plan_with, is_incomplete,
}
use tenara.Orchestrator.Plan
use tenara.Prelude.{sort, keys}
use tenara.Apps.Plans.{save_awaiting_plan, approve_plan, NewIds}
use tenara.Apps.Approval.Saved.{approve_plan-save_awaiting_plan}
use tenara.Apps.Handlers.{
  Body, plan_body, deployment_body, Response, json, problem, map_write_err, respond,
  validation_failed,
}
use tenara.Apps.Planning.{
  plan_ttl, plan_input, with_plan_id, save_marshalled, save_generated, plan_parsed, plan_spec,
  handle_get_plan,
}
use tenara.Apps.Approval.{plan_found, has_row, is_planned, approve_plan-planned}
use tenara.Apps.Deploying.{Deployed}
use tenara.Apps.Deploying.{DeployInput, approved, handle_deploy}

not_json : (e : Error) {s : ℕ} {b : Body} → map_write_err e ≡ json s b → ⊥
unfolding map_write_err
not_json not_found h = cc
not_json (quota_exceeded t n) h = cc
not_json (conflict c) h = cc
not_json (unsupported_kind k) h = cc
not_json plan_expired h = cc
not_json not_enough_revisions h = cc
not_json storage_error h = cc
not_json (invalid_digest d) h = cc

no_plan : {s : ℕ} {c : String} {t : ℕ} {b : Body} → problem s c ≡ json t b → ⊥
no_plan h = cc

-- an answer with a body comes from a statement that succeeded
pub responded :
    {A : Type 0} (f : A → Response) (r : Result A) {db' : Db} {s : ℕ} {b : Body}
    → respond f r ≡ (db', json s b)
    → (a : A) × (r ≡ (db', ok a)) × (f a ≡ json s b)
responded f (db, err e) {db'} {s} {b} h = absurd (not_json e (ap (λ r. r.1) h))
responded f (db, ok a) {db'} {s} {b} h = (a, ap (λ r. (r.0, ok a)) h, ap (λ r. r.1) h)

generate_expires : (i : Input) {p : Plan} → generate i ≡ ok p → p.expires_at ≡ i.now + i.ttl
unfolding generate
generate_expires i h =
    by_require (is_incomplete i) (list_services i.spec.services (sort (keys i.spec.services))) h
  where
    by_list :
        (m : Outcome Plan.Error (List PlanService)) {p : Plan}
        → (m >>= λ services. ok (plan_with i services)) ≡ ok p
        → p.expires_at ≡ i.now + i.ttl
    by_list (err e) h = cc
    by_list (ok ss) h = sym (ap (λ p. p.expires_at) (ok-injective h))

    by_require :
        (b : Bool) (m : Outcome Plan.Error (List PlanService)) {p : Plan}
        → (refuse b Plan.incomplete >> (m >>= λ services. ok (plan_with i services))) ≡ ok p
        → p.expires_at ≡ i.now + i.ttl
    by_require true m h = cc
    by_require false m h = by_list m h

-- what a plan that is answered has behind it
abbrev Planned :
    (String → Option String)
    → (Plan → Option Bytes)
    → Db
    → String
    → String
    → Time
    → NewIds
    → Db
    → Plan
    → Type 0
Planned uuid marshal db org app_id now ids db' p =
    (p0 : Plan) × (s : Bytes) × (x : String × String) × (marshal p0 ≡ some s)
    × (p0.expires_at ≡ now + plan_ttl)
    × (save_awaiting_plan uuid db org app_id "production" s ids ≡ (db', ok x))
    × (p.plan_id ≡ x.1)

marshalled :
    (uuid : String → Option String) (marshal : Plan → Option Bytes) (db : Db) (org app_id : String)
    (now : Time) (ids : NewIds) (p0 : Plan) (o : Option Bytes) {db' : Db} {p : Plan}
    → marshal p0 ≡ o
    → p0.expires_at ≡ now + plan_ttl
    → save_marshalled uuid db org app_id p0 ids o ≡ (db', json 200 (plan_body p))
    → Planned uuid marshal db org app_id now ids db' p
marshalled uuid marshal db org app_id now ids p0 none m e h = absurd (no_plan (ap (λ r. r.1) h))
marshalled uuid marshal db org app_id now ids p0 (some s) m e h =
    let (x, r, f) =
      responded (with_plan_id p0) (save_awaiting_plan uuid db org app_id "production" s ids) h in
    (p0, s, x, m, e, r, named x f)
  where
    named :
        (x : String × String) {p : Plan}
        → with_plan_id p0 x ≡ json 200 (plan_body p)
        → p.plan_id ≡ x.1
    named (d, i) h = cc

generated :
    (uuid : String → Option String) (marshal : Plan → Option Bytes) (db : Db) (org app_id : String)
    (now : Time) (ids : NewIds) (m : Outcome Plan.Error Plan) {db' : Db} {p : Plan}
    → ((p0 : Plan) → m ≡ ok p0 → p0.expires_at ≡ now + plan_ttl)
    → save_generated uuid marshal db org app_id ids m ≡ (db', json 200 (plan_body p))
    → Planned uuid marshal db org app_id now ids db' p
generated uuid marshal db org app_id now ids (err x) e h = absurd (no_plan (ap (λ r. r.1) h))
generated uuid marshal db org app_id now ids (ok p0) e h =
    marshalled uuid marshal db org app_id now ids p0 (marshal p0) refl (e p0 refl) h

parsed :
    (uuid : String → Option String) (marshal : Plan → Option Bytes) (db : Db)
    (org app_id base_domain : String) (a : App) (now : Time) (ids : NewIds)
    (m : Spec × Option Spec.Error) {db' : Db} {p : Plan}
    → plan_parsed uuid marshal db org app_id base_domain a now ids m ≡ (db', json 200 (plan_body p))
    → Planned uuid marshal db org app_id now ids db' p
parsed uuid marshal db org app_id base_domain a now ids (spec, some e) h =
    absurd (no_plan (ap (λ r. r.1) h))
parsed uuid marshal db org app_id base_domain a now ids (spec, none) h =
    generated uuid marshal db org app_id now ids
      (generate (plan_input app_id a.slug base_domain spec now))
      (λ p0 e. generate_expires (plan_input app_id a.slug base_domain spec now) e) h

spec_found :
    (uuid : String → Option String) (decode : Bytes → Option Spec) (marshal : Plan → Option Bytes)
    (db : Db) (org app_id base_domain : String) (now : Time) (ids : NewIds)
    (m : Outcome Error AppWithSpec) {db' : Db} {p : Plan}
    → plan_spec uuid decode marshal db org app_id base_domain now ids m
      ≡ (db', json 200 (plan_body p))
    → Planned uuid marshal db org app_id now ids db' p
spec_found uuid decode marshal db org app_id base_domain now ids (err e) h =
    absurd (not_json e (ap (λ r. r.1) h))
spec_found uuid decode marshal db org app_id base_domain now ids (ok a) h =
    by_test (length a.spec_raw == 0) h
  where
    by_test :
        (b : Bool) {db' : Db} {p : Plan}
        → (if b
            then (db, problem 409 "SPEC_REQUIRED")
            else plan_parsed uuid marshal db org app_id base_domain a.app now ids
                (parse decode a.spec_raw))
          ≡ (db', json 200 (plan_body p))
        → Planned uuid marshal db org app_id now ids db' p
    by_test true h = absurd (no_plan (ap (λ r. r.1) h))
    by_test false h =
        parsed uuid marshal db org app_id base_domain a.app now ids (parse decode a.spec_raw) h

-- the answer to an approval
approved_answer :
    (uuid : String → Option String) (wired : Bool) (org app_id : String) (i : DeployInput)
    (now : Time) (r : Result String) (id : String)
    → r.1 ≡ ok id
    → (approved uuid wired org app_id i now r).1 ≡ json 202 (deployment_body id planned)
approved_answer uuid wired org app_id i now (db, err e) id h = cc
approved_answer uuid wired org app_id i now (db, ok x) id h =
    ap (λ y. json 202 (deployment_body y planned)) (ok-injective h)

approved_state :
    (uuid : String → Option String) (wired : Bool) (org app_id : String) (i : DeployInput)
    (now : Time) (r : Result String)
    → (approved uuid wired org app_id i now r).0 ≡ r.0
approved_state uuid wired org app_id i now (db, err e) = refl
approved_state uuid wired org app_id i now (db, ok x) = refl

-- what a deployment of a plan answers and leaves: the deployment that the plan has in the tables is
-- the one answered, and PLANNED
abbrev pub IsDeployed : String → String → String → String → Deployed → Type 0
IsDeployed org app plan id d =
    (d.1 ≡ json 202 (deployment_body id planned))
    × (has_row id (plan_found d.0 org app plan) ≡ true)
    × (is_planned (plan_found d.0 org app plan) ≡ true)

-- What is planned is deployed: if the plan handler answers a plan, then the deploy handler on the tables
-- that it leaves, at any time before 24 hours have passed, answers 202 to the plan's id, for the
-- same organization and app and any user, image and repository; and in the tables after it, the
-- deployment of the plan is the new one that is answered, and its state is PLANNED. The encoder of
-- plans and the decoder of their expiry agree, and the new plan id is a UUID.
pub planned_deploys :
    (uuid : String → Option String) (decode : Bytes → Option Spec) (marshal : Plan → Option Bytes)
    (expires_of : Bytes → Option Time) (base_domain : String) (wired : Bool) (db : Db)
    (user other org app_id app : String) (now later : Time) (ids : NewIds) (i : DeployInput)
    {db' : Db} {p : Plan}
    → ((q : Plan) (s : Bytes) → marshal q ≡ some s → expires_of s ≡ some q.expires_at)
    → uuid app_id ≡ some app
    → uuid ids.plan ≡ some ids.plan
    → (ids.plan == "") ≡ false
    → handle_get_plan uuid decode marshal base_domain db (some (user, org)) app_id now ids
      ≡ (db', json 200 (plan_body p))
    → i.plan_id ≡ p.plan_id
    → later ≤ now + plan_ttl
    → IsDeployed org app ids.plan ids.deployment
        (handle_deploy uuid expires_of wired db' (some (other, org)) app_id later (some i))
unfolding handle_get_plan handle_deploy
planned_deploys uuid decode marshal expires_of base_domain wired db user other org app_id app now
      later ids i {db'} {p} agree a v nonempty h same l =
    let (p0, s, x, m, e, r, q) =
      spec_found uuid decode marshal db org app_id base_domain now ids
        (get_app_with_spec uuid db org app_id) h in
    let (y, k) =
      approve_plan-save_awaiting_plan uuid expires_of db org app_id app "production" s ids
        p0.expires_at later a v (agree p0 s m) (rw e l) r in
    let plan : i.plan_id ≡ ids.plan = same ∙ q ∙ ap (λ z. z.1) y in
    subst
      (λ d. IsDeployed org app ids.plan ids.deployment (
        if d == ""
        then (db', validation_failed, none)
        else approved uuid wired org app_id i later
            (approve_plan uuid expires_of db' org app_id d later)))
      (sym plan)
      (by_test (ids.plan == "") nonempty
        (approve_plan uuid expires_of db' org app_id ids.plan later) k
        (approve_plan-planned uuid expires_of db' org app_id ids.plan app ids.plan ids.deployment
          later a v k))
  where
    by_test :
        (b : Bool)
        → b ≡ false
        → (r : Result String) → r.1 ≡ ok ids.deployment
        → (has_row ids.deployment (plan_found r.0 org app ids.plan) ≡ true)
          × (is_planned (plan_found r.0 org app ids.plan) ≡ true)
        → IsDeployed org app ids.plan ids.deployment
            (if b then (db', validation_failed, none) else approved uuid wired org app_id i later r)
    by_test true e r k t = cc
    by_test false e r k t =
        let st = sym (approved_state uuid wired org app_id i later r) in
        (
          approved_answer uuid wired org app_id i later r ids.deployment k,
          subst (λ d. has_row ids.deployment (plan_found d org app ids.plan) ≡ true) st t.0,
          subst (λ d. is_planned (plan_found d org app ids.plan) ≡ true) st t.1,
        )
