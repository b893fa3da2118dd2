-- ===== src/Apps/History/Quota.antt =====
-- An organization has at most the apps that its tier allows.
use tenara.Prelude.{
  ℕ, ◌≤◌, String, ◌≡◌, refl, ap, ◌∙◌, subst, inl, inr, true, false, ◌||◌, Option, none, some, List,
  [], ◌∷◌, arith, ◌==◌, nat_Eq, string_Eq, text_iff, Bool-cases, length, any, int_Eq,
}
use tenara.Prelude.{find, count_where, count_where-update_where_le}
use tenara.Bytes.{Bytes, is_blank}
use tenara.Orchestrator.Deploy.{Time}
use tenara.Apps.{Organization, Application, Db, lives_in, is_app, max_apps_of}
use tenara.Apps.Create.{store_spec, save_app_spec}
use tenara.Apps.History.{
  default_domain_Kept, custom_domain_Kept, verify_Kept, audit_Kept, analysis_op, default_domain_op,
  custom_domain_op, verify_op, audit_op,
}
use tenara.Apps.Create.{
  live_count, new_app, insert_app, create_for_tier, create_app, rename_found, rename_at, rename_app,
  renamed, update_app_at, soft_delete_app, deleted_app, update_spec, with_spec, is_taken,
}
use tenara.Apps.Creation.{organization_of, has_slug}
use tenara.Apps.History.{
  Op, create_op, rename_op, delete_op, spec_op, service_op, environment_op, plan_op, approve_op,
  revision_op, rollback_op, database_op, ready_op, Request, World, step, run, Kept,
  add_service-Kept, add_environment-Kept, save_plan_Kept, approve_Kept, save_revision-Kept,
  rollback_Kept, database_Kept, ready_Kept,
}
use tenara.Apps.Slug.{slugify}
use tenara.Prelude.{not-false, not-true}

-- no update makes a row live
update_count :
    (db : Db) (org caller : String) (f : Application → Application)
    → ((r : Application) → lives_in org (f r) ≡ true → lives_in org r ≡ true)
    → (o : Option String) → live_count (update_app_at db caller f o).0 org ≤ live_count db org
update_count db org caller f keeps none = omega arith
update_count db org caller f keeps (some id) =
    elim (Bool-cases (any (is_app id caller) db.applications)) [
      | inl h ↦
          rw h
            (count_where-update_where_le (is_app id caller) (lives_in org) f db.applications keeps)
      | inr h ↦ rw h (omega arith)
    ]

rename_count :
    (db : Db) (org caller id : String) (name : Bytes) (o : Option Application)
    → live_count (rename_found db caller id name o).0 org ≤ live_count db org
rename_count db org caller id name none = omega arith
rename_count db org caller id name (some r) = elim (Bool-cases (is_taken db caller id name)) [
  | inl h ↦ rw h (omega arith)
  | inr h ↦ rw h (
      count_where-update_where_le (is_app id caller) (lives_in org) (renamed name) db.applications
        (λ x k. k))
]

rename_at_count :
    (db : Db) (org caller : String) (name : Bytes) (o : Option String)
    → live_count (rename_at db caller name o).0 org ≤ live_count db org
rename_at_count db org caller name none = omega arith
rename_at_count db org caller name (some id) =
    rename_count db org caller id name (find (is_app id caller) db.applications)

insert_own :
    (db : Db) (r : Application) (n : ℕ)
    → live_count db r.org_id ≤ n
    → live_count (insert_app db r n).0 r.org_id ≤ n
unfolding insert_app count_where
insert_own db r n h = ground arith

insert_other :
    (db : Db) (r : Application) (n : ℕ) (org : String)
    → (r.org_id == org) ≡ false
    → live_count (insert_app db r n).0 org ≡ live_count db org
unfolding insert_app count_where
insert_other db r n org d = ground arith

for_tier_own :
    (db : Db) (r : Application) (q : Option Organization) (o : Organization)
    → q ≡ some o
    → live_count db r.org_id ≤ max_apps_of o.tier
    → live_count (create_for_tier db r q).0 r.org_id ≤ max_apps_of o.tier
for_tier_own db r none o e h = cc
for_tier_own db r (some q) o e h =
    let same : q.tier ≡ o.tier = cc in rw same (insert_own db r (max_apps_of o.tier) h)

for_tier_other :
    (db : Db) (r : Application) (q : Option Organization) (org : String)
    → (r.org_id == org) ≡ false
    → live_count (create_for_tier db r q).0 org ≡ live_count db org
for_tier_other db r none org d = refl
for_tier_other db r (some o) org d = insert_other db r (max_apps_of o.tier) org d

create_own :
    (db : Db) (org : String) (name : Bytes) (by id : String) (now : Time) (o : Organization)
    → organization_of db org ≡ some o
    → live_count db org ≤ max_apps_of o.tier
    → live_count (create_app db org name by id now).0 org ≤ max_apps_of o.tier
unfolding create_app
create_own db org name by id now o e h = elim (Bool-cases (has_slug name)) [
  | inl g ↦
      rw (not-false (length (slugify name) == 0 || is_blank name) g)
        (for_tier_own db (new_app org name by id now) (organization_of db org) o e h)
  | inr g ↦ rw (not-true (length (slugify name) == 0 || is_blank name) g) h
]

create_other :
    (db : Db) (caller org : String) (name : Bytes) (by id : String) (now : Time)
    → (caller == org) ≡ false
    → live_count (create_app db caller name by id now).0 org ≡ live_count db org
unfolding create_app
create_other db caller org name by id now d = elim (Bool-cases (has_slug name)) [
  | inl g ↦
      rw (not-false (length (slugify name) == 0 || is_blank name) g)
        (for_tier_other db (new_app caller name by id now) (organization_of db caller) org d)
  | inr g ↦ rw (not-true (length (slugify name) == 0 || is_blank name) g) refl
]

create_within :
    (db : Db) (caller org : String) (name : Bytes) (by id : String) (now : Time) (o : Organization)
    → organization_of db org ≡ some o
    → live_count db org ≤ max_apps_of o.tier
    → live_count (create_app db caller name by id now).0 org ≤ max_apps_of o.tier
create_within db caller org name by id now o e h = elim (Bool-cases (caller == org)) [
  | inl s ↦
      let same : org ≡ caller = ground (arith, text_iff caller org) in
      subst (λ c. live_count (create_app db c name by id now).0 org ≤ max_apps_of o.tier) same
        (create_own db org name by id now o e h)
  | inr d ↦ rw (create_other db caller org name by id now d) h
]

-- the organization has no more apps than its tier allows
abbrev Within : Db → String → Organization → Type 0
Within db org o = (organization_of db org ≡ some o) × (live_count db org ≤ max_apps_of o.tier)

Kept-Within :
    (org : String) (o : Organization) (db db' : Db)
    → Kept db db'
    → Within db org o
    → Within db' org o
Kept-Within org o db db' k h =
    (ap (λ os. find (λ x. x.id == org) os) k.1 ∙ h.0, rw (ap (count_where (lives_in org)) k.0) h.1)

for_tier_organizations :
    (db : Db) (r : Application) (q : Option Organization)
    → (create_for_tier db r q).0.organizations ≡ db.organizations
unfolding insert_app
for_tier_organizations db r none = refl
for_tier_organizations db r (some o) = ground arith

create_organizations :
    (db : Db) (caller : String) (name : Bytes) (by id : String) (now : Time)
    → (create_app db caller name by id now).0.organizations ≡ db.organizations
unfolding create_app
create_organizations db caller name by id now = elim (Bool-cases (has_slug name)) [
  | inl g ↦
      rw (not-false (length (slugify name) == 0 || is_blank name) g)
        (for_tier_organizations db (new_app caller name by id now) (organization_of db caller))
  | inr g ↦ rw (not-true (length (slugify name) == 0 || is_blank name) g) refl
]

update_organizations :
    (db : Db) (caller : String) (f : Application → Application) (o : Option String)
    → (update_app_at db caller f o).0.organizations ≡ db.organizations
update_organizations db caller f none = refl
update_organizations db caller f (some id) = ground arith

rename_organizations :
    (db : Db) (caller id : String) (name : Bytes) (o : Option Application)
    → (rename_found db caller id name o).0.organizations ≡ db.organizations
rename_organizations db caller id name none = refl
rename_organizations db caller id name (some r) = ground arith

rename_at_organizations :
    (db : Db) (caller : String) (name : Bytes) (o : Option String)
    → (rename_at db caller name o).0.organizations ≡ db.organizations
rename_at_organizations db caller name none = refl
rename_at_organizations db caller name (some id) =
    rename_organizations db caller id name (find (is_app id caller) db.applications)

lower_Within :
    (org : String) (o : Organization) (db db' : Db)
    → db'.organizations ≡ db.organizations
    → live_count db' org ≤ live_count db org
    → Within db org o
    → Within db' org o
lower_Within org o db db' k l h =
    (ap (λ os. find (λ x. x.id == org) os) k ∙ h.0, omega (arith, l, h.1))

deleted_lives :
    (org : String) (now : Time) (r : Application)
    → lives_in org (deleted_app now r) ≡ true
    → lives_in org r ≡ true
deleted_lives org now r h = ground arith

store_Within :
    (org : String) (o : Organization) (db : Db) (caller : String) (i : Option String)
    (document : Option Bytes)
    → Within db org o
    → Within (store_spec db caller i document).0 org o
store_Within org o db caller none document h = h
store_Within org o db caller (some id) none h = h
store_Within org o db caller (some id) (some raw) h =
    lower_Within org o db (update_app_at db caller (with_spec raw) (some id)).0
      (update_organizations db caller (with_spec raw) (some id))
      (update_count db org caller (with_spec raw) (λ x k. k) (some id)) h

step-Within :
    (w : World) (db : Db) (r : Request) (org : String) (o : Organization)
    → Within db org o
    → Within (step w db r) org o
unfolding step rename_app soft_delete_app update_spec save_app_spec
step-Within w db r org o h = by_op r.op
  where
    by_op : (p : Op) → Within (step w db (record r { op = p })) org o
    by_op (create_op name by id) = (
      ap (λ os. find (λ x. x.id == org) os) (create_organizations db r.org name by id r.now) ∙ h.0,
      create_within db r.org org name by id r.now o h.0 h.1,
    )
    by_op (rename_op app name) =
        lower_Within org o db (rename_at db r.org name (w.uuid app)).0
          (rename_at_organizations db r.org name (w.uuid app))
          (rename_at_count db org r.org name (w.uuid app)) h
    by_op (delete_op app) =
        lower_Within org o db (update_app_at db r.org (deleted_app r.now) (w.uuid app)).0
          (update_organizations db r.org (deleted_app r.now) (w.uuid app))
          (update_count db org r.org (deleted_app r.now) (deleted_lives org r.now) (w.uuid app)) h
    by_op (spec_op app raw) = store_Within org o db r.org (w.uuid app) (w.jsonb raw) h
    by_op (analysis_op app raw) = store_Within org o db r.org (w.uuid app) (w.jsonb raw) h
    by_op (service_op app name type runtime port id) =
        Kept-Within org o db
          (step w db (record r { op = service_op app name type runtime port id }))
          (add_service-Kept w.uuid db r.org app name type runtime port id) h
    by_op (environment_op app env id) =
        Kept-Within org o db (step w db (record r { op = environment_op app env id }))
          (add_environment-Kept w.uuid db r.org app env id) h
    by_op (plan_op app env s ids) =
        Kept-Within org o db (step w db (record r { op = plan_op app env s ids }))
          (save_plan_Kept w.uuid db r.org app env s ids) h
    by_op (approve_op app plan) =
        Kept-Within org o db (step w db (record r { op = approve_op app plan }))
          (approve_Kept w.uuid w.expires_of db r.org app plan r.now) h
    by_op (revision_op app dep in_) =
        Kept-Within org o db (step w db (record r { op = revision_op app dep in_ }))
          (save_revision-Kept w.uuid db r.org app dep in_ r.now) h
    by_op (rollback_op app) =
        Kept-Within org o db (step w db (record r { op = rollback_op app }))
          (rollback_Kept w.uuid w.id_lt db r.org app r.now) h
    by_op (database_op app kind isolation ids) =
        Kept-Within org o db (step w db (record r { op = database_op app kind isolation ids }))
          (database_Kept w.uuid db r.org app kind isolation ids) h
    by_op (ready_op app) =
        Kept-Within org o db (step w db (record r { op = ready_op app }))
          (ready_Kept w.uuid db r.org app) h
    by_op (default_domain_op app slug base id) =
        Kept-Within org o db (step w db (record r { op = default_domain_op app slug base id }))
          (default_domain_Kept db app slug base id r.now) h
    by_op (custom_domain_op app host token id) =
        Kept-Within org o db (step w db (record r { op = custom_domain_op app host token id }))
          (custom_domain_Kept db app host token id r.now) h
    by_op (verify_op app domain resolver) =
        Kept-Within org o db (step w db (record r { op = verify_op app domain resolver }))
          (verify_Kept w.uuid resolver db app domain) h
    by_op (audit_op row) =
        Kept-Within org o db (step w db (record r { op = audit_op row })) (audit_Kept db row) h

run-Within :
    (w : World) (db : Db) (rs : List Request) (org : String) (o : Organization)
    → Within db org o
    → Within (run w db rs) org o
unfolding run
run-Within w db [] org o h = h
run-Within w db (r ∷ rs) org o h = run-Within w (step w db r) rs org o (step-Within w db r org o h)

-- The quota holds in every history: an organization with at most the apps of its tier, three if it is
-- free and fifty if it is pro, never has more, whatever statements its users and others run one
-- after another. Deleted apps do not count.
pub run_within_quota :
    (w : World) (db : Db) (rs : List Request) (org : String) (o : Organization)
    → organization_of db org ≡ some o
    → live_count db org ≤ max_apps_of o.tier
    → live_count (run w db rs) org ≤ max_apps_of o.tier
run_within_quota w db rs org o e h = (run-Within w db rs org o (e, h)).1
