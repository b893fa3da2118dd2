-- ===== src/Apps/Releases/Restored.antt =====
-- A rollback makes the second newest revision the newest, and a second rollback undoes it.
use tenara.Prelude.{
  ℕ, ◌<◌, String, ◌≡◌, refl, sym, ap, ◌∙◌, subst, inl, inr, Bool, true, false, Option, none, some,
  List, [], ◌∷◌, arith, if◌then◌else◌, ◌==◌, nat_Eq, string_Eq, text_iff, Bool-cases, any, all,
  Outcome, ok, err, int_Eq,
}
use tenara.Orchestrator.Deploy.{Time}
use tenara.Apps.{Deployment, RevisionRow, Db, Error, Result, not_enough_revisions, is_app}
use tenara.Apps.Releases.{
  save_revision, revisions_of, rollback_target, insert_deployment, deployments_of, input_of,
  restored, roll_back_to, roll_back_first, roll_back_at, rollback_latest,
}
use tenara.Apps.Releases.Numbers.{saved, target_of, save_revision_appends, all_below}

-- the id is in its canonical form
abbrev pub is_canonical : (String → Option String) → String → Bool
is_canonical uuid id = elim (uuid id) [ none ↦ false | some j ↦ j == id ]

canonical_id :
    (uuid : String → Option String) (id : String) → is_canonical uuid id ≡ true → uuid id ≡ some id
canonical_id uuid id h = by_parse (uuid id) h
  where
    by_parse : (o : Option String) → elim o [ none ↦ false | some j ↦ j == id ] ≡ true → o ≡ some id
    by_parse none h = cc
    by_parse (some j) h = ap some ((text_iff j id).0 h)

abbrev canonical_row : (String → Option String) → Deployment → Bool
canonical_row uuid d = is_canonical uuid d.id

abbrev pub ids_canonical : (String → Option String) → Db → Bool
ids_canonical uuid db = all (canonical_row uuid) db.deployments

insert_all :
    (p : Deployment → Bool) (lt : String → String → Bool) (d : Deployment) (ds : List Deployment)
    → p d ≡ true
    → all p ds ≡ true
    → all p (insert_deployment lt d ds) ≡ true
unfolding insert_deployment
insert_all p lt d [] h k = ground arith
insert_all p lt d (e ∷ ds) h k = ground (arith, insert_all p lt d ds)

deployments_all :
    (p : Deployment → Bool) (lt : String → String → Bool) (app : String) (ds : List Deployment)
    → all p ds ≡ true
    → all p (deployments_of lt app ds) ≡ true
unfolding deployments_of
deployments_all p lt app [] h = refl
deployments_all p lt app (d ∷ ds) h = elim (Bool-cases (d.app_id == app)) [
  | inl e ↦ rw e (
      insert_all p lt d (deployments_of lt app ds) (ground arith)
        (deployments_all p lt app ds (ground arith)))
  | inr e ↦ rw e (deployments_all p lt app ds (ground arith))
]

-- what a rollback that succeeded did to the revisions of the app's first deployment
pub record RolledBack (uuid : String → Option String) (lt : String → String → Bool) (app : String)
    (db db' : Db) (row target : RevisionRow) : Type 0 where
  pub dep : Deployment
  pub live : RevisionRow
  pub others : List Deployment
  pub older : List RevisionRow
  pub first : deployments_of lt app db.deployments ≡ dep ∷ others
  pub before : revisions_of dep.id db.revisions ≡ live ∷ target ∷ older
  pub after : revisions_of dep.id db'.revisions ≡ row ∷ live ∷ target ∷ older
  pub content : input_of row ≡ input_of target
  pub newest : live.revision < row.revision
  pub same_deployments : db'.deployments ≡ db.deployments

restored_ok :
    (t : RevisionRow) (r : Result RevisionRow) {db' : Db} {row target : RevisionRow}
    → restored t r ≡ (db', ok (row, target))
    → (r ≡ (db', ok row)) × (t ≡ target)
restored_ok t (db, err e) h = cc
restored_ok t (db, ok x) h = (cc, cc)

-- a list that is all below a number starts below it
head_below :
    (n : ℕ) (r : RevisionRow) (rs : List RevisionRow) → all_below n (r ∷ rs) ≡ true → r.revision < n
head_below n r rs h = ground arith

module _ (uuid : String → Option String) (lt : String → String → Bool) (org app : String) where
  rolled_to :
      (db : Db) (app_id : String) (d : Deployment) (ds : List Deployment) (now : Time)
      (m : Outcome Error RevisionRow) {db' : Db} {row target : RevisionRow}
      → deployments_of lt app db.deployments ≡ d ∷ ds
      → uuid d.id ≡ some d.id
      → rollback_target uuid db org app_id d.id ≡ m
      → roll_back_to uuid db org app_id d.id now m ≡ (db', ok (row, target))
      → RolledBack uuid lt app db db' row target
  rolled_to db app_id d ds now (err e) f u t h = cc
  rolled_to db app_id d ds now (ok t0) {db'} {row} {target} f u t h =
      let (k, e) = restored_ok t0 (save_revision uuid db org app_id d.id (input_of t0) now) h in
      let (live, older, b) = target_of uuid db org app_id d.id u t in
      let b' : revisions_of d.id db.revisions ≡ live ∷ target ∷ older =
        b ∙ ap (λ x. live ∷ x ∷ older) e in
      let s = saved uuid db org app_id d.id (input_of t0) now u k in
      let (a, n, v) = save_revision_appends uuid db org app_id d.id (input_of t0) now u k in
      record {
        dep = d;
        live = live;
        others = ds;
        older = older;
        first = f;
        before = b';
        after = a ∙ ap (λ rs. row ∷ rs) b';
        content = ap input_of s.numbered ∙ ap input_of e;
        newest =
            head_below row.revision live (target ∷ older)
              (subst (λ rs. all_below row.revision rs ≡ true) b' n);
        same_deployments = ap (λ x. x.deployments) s.stored;
      }

  rolled_first :
      (db : Db) (app_id : String) (now : Time) (ds : List Deployment) {db' : Db}
      {row target : RevisionRow}
      → deployments_of lt app db.deployments ≡ ds
      → all (canonical_row uuid) ds ≡ true
      → roll_back_first uuid db org app_id now ds ≡ (db', ok (row, target))
      → RolledBack uuid lt app db db' row target
  rolled_first db app_id now [] f c h = cc
  rolled_first db app_id now (d ∷ ds) f c h =
      rolled_to db app_id d ds now (rollback_target uuid db org app_id d.id) f
        (canonical_id uuid d.id (ground arith)) refl h

  rolled :
      (db : Db) (app_id : String) (now : Time) {db' : Db} {row target : RevisionRow}
      → uuid app_id ≡ some app
      → ids_canonical uuid db ≡ true
      → rollback_latest uuid lt db org app_id now ≡ (db', ok (row, target))
      → RolledBack uuid lt app db db' row target
  unfolding rollback_latest
  rolled db app_id now {db'} {row} {target} a c h =
      by_app (any (is_app app org) db.applications)
        (subst (λ o. roll_back_at uuid lt db org app_id now o ≡ (db', ok (row, target))) a h)
    where
      by_app :
          (b : Bool) {db' : Db} {row target : RevisionRow}
          → (if b
              then roll_back_first uuid db org app_id now (deployments_of lt app db.deployments)
              else (db, err not_enough_revisions))
            ≡ (db', ok (row, target))
          → RolledBack uuid lt app db db' row target
      by_app true h =
          rolled_first db app_id now (deployments_of lt app db.deployments) refl
            (deployments_all (canonical_row uuid) lt app db.deployments c) h
      by_app false h = cc

-- A rollback goes one release back and is undone by the next one: a rollback that succeeds puts a
-- revision with the content of the second newest before the revisions that were there, with a
-- greater number than the live one; and if another rollback of the app succeeds right after, its target is
-- the release that was live before the first, and its new revision has that release's content.
-- The ids of the deployments are in their canonical form, and `lt` orders them.
pub rollback_undone :
    (uuid : String → Option String) (lt : String → String → Bool) (db : Db)
    (org app_id app : String) (now later : Time) {db' db'' : Db}
    {row target row' target' : RevisionRow}
    → uuid app_id ≡ some app
    → ids_canonical uuid db ≡ true
    → rollback_latest uuid lt db org app_id now ≡ (db', ok (row, target))
    → rollback_latest uuid lt db' org app_id later ≡ (db'', ok (row', target'))
    → (dep : Deployment) × (live : RevisionRow) × (older : List RevisionRow) × (revisions_of dep.id
          db.revisions
        ≡ live ∷ target ∷ older)
      × (revisions_of dep.id db'.revisions ≡ row ∷ live ∷ target ∷ older)
      × (input_of row ≡ input_of target)
      × (live.revision < row.revision)
      × (target' ≡ live)
      × (input_of row' ≡ input_of live)
rollback_undone uuid lt db org app_id app now later {db'} {db''} {row} {target} {row'} {target'} a c
      h k =
    let r = rolled uuid lt org app db app_id now a c h in
    let c' : ids_canonical uuid db' ≡ true = ap (all (canonical_row uuid)) r.same_deployments ∙ c in
    let q = rolled uuid lt org app db' app_id later a c' k in
    let d : q.dep ∷ q.others ≡ r.dep ∷ r.others =
      sym q.first ∙ ap (deployments_of lt app) r.same_deployments ∙ r.first in
    let e : q.dep ≡ r.dep = cc in
    let f : q.live ∷ target' ∷ q.older ≡ row ∷ r.live ∷ target ∷ r.older =
      sym q.before ∙ ap (λ x. revisions_of x.id db'.revisions) e ∙ r.after in
    let g : target' ≡ r.live = cc in
    (r.dep, r.live, r.older, r.before, r.after, r.content, r.newest, g, q.content ∙ ap input_of g)
