-- ===== src/Apps/History/Seen.antt =====
-- What an organization sees of its apps is its own: no statement of another organization changes it.
use tenara.Prelude.{
  ℕ, String, ◌≡◌, refl, sym, ap, ◌∙◌, inl, inr, Bool, true, false, not, ◌||◌, Option, none, some,
  List, [], ◌∷◌, map, arith, ◌==◌, nat_Eq, string_Eq, text_iff, Bool-cases, length, any, all,
  int_Eq,
}
use tenara.Prelude.{find, select, update_where, select-update_where_other}
use tenara.Bytes.{Bytes, is_blank}
use tenara.Orchestrator.Deploy.{Time}
use tenara.Apps.{
  Organization, Application, Db, view, lives_in, is_app, found_app, get_app_at, get_app,
  get_app_with_spec, list_apps, newest_first, max_apps_of,
}
use tenara.Apps.Create.{store_spec, save_app_spec}
use tenara.Apps.History.{
  default_domain_Kept, custom_domain_Kept, verify_Kept, audit_Kept, analysis_op, default_domain_op,
  custom_domain_op, verify_op, audit_op,
}
use tenara.Apps.Create.{
  new_app, insert_app, create_for_tier, create_app, rename_found, rename_at, rename_app, renamed,
  update_app_at, soft_delete_app, deleted_app, update_spec, with_spec, is_taken,
}
use tenara.Apps.Creation.{organization_of, has_slug}
use tenara.Apps.History.{
  Op, create_op, rename_op, delete_op, spec_op, service_op, environment_op, plan_op, approve_op,
  revision_op, rollback_op, database_op, ready_op, Request, World, step, run, Kept,
  add_service-Kept, add_environment-Kept, save_plan_Kept, approve_Kept, save_revision-Kept,
  rollback_Kept, database_Kept, ready_Kept,
}
use tenara.Apps.Slug.{slugify}
use tenara.Prelude.{not-false, not-true}
use tenara.Apps.{with_spec_at, found_with_spec}

-- the rows of one organization
abbrev pub in_org : String → Application → Bool
in_org org r = r.org_id == org

abbrev pub seen : String → Db → List Application
seen org db = select (in_org org) db.applications

-- an update of an app of `org` is of no row of another
update_apart :
    (org b id : String) (f : Application → Application)
    → (org == b) ≡ false
    → ((r : Application) → (f r).org_id ≡ r.org_id)
    → (rs : List Application)
    → select (in_org b) (update_where (is_app id org) f rs) ≡ select (in_org b) rs
update_apart org b id f d keeps rs =
    select-update_where_other (is_app id org) (in_org b) f rs
      λ r h. (apart r h, ap (λ o. o == b) (keeps r) ∙ apart r h)
  where
    apart : (r : Application) → is_app id org r ≡ true → (r.org_id == b) ≡ false
    apart r h = ground (arith, text_iff r.org_id org, text_iff r.org_id b, text_iff org b)

update_seen :
    (db : Db) (org b : String) (f : Application → Application)
    → (org == b) ≡ false
    → ((r : Application) → (f r).org_id ≡ r.org_id)
    → (o : Option String) → seen b (update_app_at db org f o).0 ≡ seen b db
update_seen db org b f d keeps none = refl
update_seen db org b f d keeps (some id) = elim (Bool-cases (any (is_app id org) db.applications)) [
  | inl h ↦ rw h (update_apart org b id f d keeps db.applications)
  | inr h ↦ rw h refl
]

insert_seen :
    (db : Db) (b : String) (r : Application) (n : ℕ)
    → (r.org_id == b) ≡ false
    → seen b (insert_app db r n).0 ≡ seen b db
unfolding insert_app select
insert_seen db b r n d = ground arith

for_tier_seen :
    (db : Db) (b : String) (r : Application) (o : Option Organization)
    → (r.org_id == b) ≡ false
    → seen b (create_for_tier db r o).0 ≡ seen b db
for_tier_seen db b r none d = refl
for_tier_seen db b r (some o) d = insert_seen db b r (max_apps_of o.tier) d

create_seen :
    (db : Db) (org b : String) (name : Bytes) (by id : String) (now : Time)
    → (org == b) ≡ false
    → seen b (create_app db org name by id now).0 ≡ seen b db
unfolding create_app
create_seen db org b name by id now d = elim (Bool-cases (has_slug name)) [
  | inl g ↦
      rw (not-false (length (slugify name) == 0 || is_blank name) g)
        (for_tier_seen db b (new_app org name by id now) (organization_of db org) d)
  | inr g ↦ rw (not-true (length (slugify name) == 0 || is_blank name) g) refl
]

rename_seen :
    (db : Db) (org b id : String) (name : Bytes) (o : Option Application)
    → (org == b) ≡ false
    → seen b (rename_found db org id name o).0 ≡ seen b db
rename_seen db org b id name none d = refl
rename_seen db org b id name (some r) d = elim (Bool-cases (is_taken db org id name)) [
  | inl h ↦ rw h refl
  | inr h ↦ rw h (update_apart org b id (renamed name) d (λ r. refl) db.applications)
]

rename_at_seen :
    (db : Db) (org b : String) (name : Bytes) (o : Option String)
    → (org == b) ≡ false
    → seen b (rename_at db org name o).0 ≡ seen b db
rename_at_seen db org b name none d = refl
rename_at_seen db org b name (some id) d =
    rename_seen db org b id name (find (is_app id org) db.applications) d

Kept-seen : (b : String) (db db' : Db) → Kept db db' → seen b db' ≡ seen b db
Kept-seen b db db' k = ap (select (in_org b)) k.0

store_seen :
    (db : Db) (org b : String)
    → (org == b) ≡ false
    → (o : Option String) (document : Option Bytes)
    → seen b (store_spec db org o document).0 ≡ seen b db
store_seen db org b d none document = refl
store_seen db org b d (some id) none = refl
store_seen db org b d (some id) (some raw) =
    update_seen db org b (with_spec raw) d (λ x. refl) (some id)

step_seen :
    (w : World) (db : Db) (r : Request) (b : String)
    → (r.org == b) ≡ false
    → seen b (step w db r) ≡ seen b db
unfolding step rename_app soft_delete_app update_spec save_app_spec
step_seen w db r b d = by_op r.op
  where
    by_op : (o : Op) → seen b (step w db (record r { op = o })) ≡ seen b db
    by_op (create_op name by id) = create_seen db r.org b name by id r.now d
    by_op (rename_op app name) = rename_at_seen db r.org b name (w.uuid app) d
    by_op (delete_op app) = update_seen db r.org b (deleted_app r.now) d (λ x. refl) (w.uuid app)
    by_op (spec_op app raw) = store_seen db r.org b d (w.uuid app) (w.jsonb raw)
    by_op (analysis_op app raw) = store_seen db r.org b d (w.uuid app) (w.jsonb raw)
    by_op (service_op app name type runtime port id) =
        Kept-seen b db (step w db (record r { op = service_op app name type runtime port id }))
          (add_service-Kept w.uuid db r.org app name type runtime port id)
    by_op (environment_op app env id) =
        Kept-seen b db (step w db (record r { op = environment_op app env id }))
          (add_environment-Kept w.uuid db r.org app env id)
    by_op (plan_op app env s ids) =
        Kept-seen b db (step w db (record r { op = plan_op app env s ids }))
          (save_plan_Kept w.uuid db r.org app env s ids)
    by_op (approve_op app plan) =
        Kept-seen b db (step w db (record r { op = approve_op app plan }))
          (approve_Kept w.uuid w.expires_of db r.org app plan r.now)
    by_op (revision_op app dep in_) =
        Kept-seen b db (step w db (record r { op = revision_op app dep in_ }))
          (save_revision-Kept w.uuid db r.org app dep in_ r.now)
    by_op (rollback_op app) =
        Kept-seen b db (step w db (record r { op = rollback_op app }))
          (rollback_Kept w.uuid w.id_lt db r.org app r.now)
    by_op (database_op app kind isolation ids) =
        Kept-seen b db (step w db (record r { op = database_op app kind isolation ids }))
          (database_Kept w.uuid db r.org app kind isolation ids)
    by_op (ready_op app) =
        Kept-seen b db (step w db (record r { op = ready_op app })) (ready_Kept w.uuid db r.org app)
    by_op (default_domain_op app slug base id) =
        Kept-seen b db (step w db (record r { op = default_domain_op app slug base id }))
          (default_domain_Kept db app slug base id r.now)
    by_op (custom_domain_op app host token id) =
        Kept-seen b db (step w db (record r { op = custom_domain_op app host token id }))
          (custom_domain_Kept db app host token id r.now)
    by_op (verify_op app domain resolver) =
        Kept-seen b db (step w db (record r { op = verify_op app domain resolver }))
          (verify_Kept w.uuid resolver db app domain)
    by_op (audit_op row) =
        Kept-seen b db (step w db (record r { op = audit_op row })) (audit_Kept db row)

run_seen :
    (w : World) (db : Db) (rs : List Request) (b : String)
    → all (λ r. not (r.org == b)) rs ≡ true
    → seen b (run w db rs) ≡ seen b db
unfolding run
run_seen w db [] b h = refl
run_seen w db (r ∷ rs) b h =
    run_seen w (step w db r) rs b (ground arith) ∙ step_seen w db r b (ground arith)

find_seen :
    (b id : String) (rs : List Application)
    → find (is_app id b) rs ≡ find (is_app id b) (select (in_org b) rs)
unfolding find select
find_seen b id [] = refl
find_seen b id (r ∷ rs) = ground (arith, find_seen b id rs)

lives_seen :
    (b : String) (rs : List Application)
    → select (lives_in b) rs ≡ select (lives_in b) (select (in_org b) rs)
unfolding select
lives_seen b [] = refl
lives_seen b (r ∷ rs) = ground (arith, lives_seen b rs)

-- No organization touches the apps of another: whatever statements other organizations run, in any order
-- and whether they succeed or not, an organization reads under every id the app that it read
-- before, with the same spec, and the same list of apps.
pub run_isolated :
    (w : World) (db : Db) (rs : List Request) (b app : String)
    → all (λ r. not (r.org == b)) rs ≡ true
    → (get_app w.uuid (run w db rs) b app ≡ get_app w.uuid db b app)
      × (get_app_with_spec w.uuid (run w db rs) b app ≡ get_app_with_spec w.uuid db b app)
      × (list_apps (run w db rs) b ≡ list_apps db b)
unfolding get_app get_app_with_spec list_apps
run_isolated w db rs b app h =
    let e = run_seen w db rs b h in
    let l : select (lives_in b) (run w db rs).applications ≡ select (lives_in b) db.applications =
      lives_seen b (run w db rs).applications
      ∙ ap (select (lives_in b)) e
      ∙ sym (lives_seen b db.applications) in
    (by_id (w.uuid app) e, by_id_spec (w.uuid app) e, ap (λ xs. map view (newest_first xs)) l)
  where
    found :
        (id : String)
        → seen b (run w db rs) ≡ seen b db
        → find (is_app id b) (run w db rs).applications ≡ find (is_app id b) db.applications
    found id e =
        find_seen b id (run w db rs).applications
        ∙ ap (find (is_app id b)) e
        ∙ sym (find_seen b id db.applications)

    by_id :
        (o : Option String)
        → seen b (run w db rs) ≡ seen b db
        → get_app_at (run w db rs) b o ≡ get_app_at db b o
    by_id none e = refl
    by_id (some id) e = ap found_app (found id e)

    by_id_spec :
        (o : Option String)
        → seen b (run w db rs) ≡ seen b db
        → with_spec_at (run w db rs) b o ≡ with_spec_at db b o
    by_id_spec none e = refl
    by_id_spec (some id) e = ap found_with_spec (found id e)
