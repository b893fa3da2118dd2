-- ===== src/Apps/Releases/Numbers.antt =====
-- The numbers of the revisions, and what a rollback restores.
use tenara.Prelude.{
  ℕ, ◌+◌, ◌<◌, String, ◌≡◌, refl, sym, ap, ◌∙◌, subst, inl, inr, Bool, true, false, not, ◌&&◌,
  Option, none, some, List, [], ◌∷◌, arith, ltb, if◌then◌else◌, ◌==◌, nat_Eq, string_Eq, text_refl,
  Bool-cases, any, all, Outcome, ok, err, ok-injective, int_Eq,
}
use tenara.Prelude.{then-ok, else-ok}
use tenara.Orchestrator.Deploy.{Time}
use tenara.Apps.{
  RevisionRow, SavedRevision, Db, Error, App, not_enough_revisions, storage_error, invalid_digest,
  get_app, for_app,
}
use tenara.Apps.Releases.{
  RevisionInput, digest_matches, of_deployment, max_revision, new_revision, insert_revision,
  save_revision, insert_revision_row, revisions_of, second, is_owned, target_at, rollback_target,
}

-- numbers fall along the list
abbrev pub below : ℕ → List RevisionRow → Bool
below n [] = true
below n (r ∷ rs) = ltb r.revision n

-- every revision of the list is below the number
abbrev pub all_below : ℕ → List RevisionRow → Bool
all_below n rs = all (λ r. ltb r.revision n) rs

insert_top :
    (r : RevisionRow) (rs : List RevisionRow)
    → all_below r.revision rs ≡ true
    → insert_revision_row r rs ≡ r ∷ rs
unfolding insert_revision_row
insert_top r [] h = refl
insert_top r (s ∷ rs) h = ground arith

insert_below :
    (r : RevisionRow) (n : ℕ) (rs : List RevisionRow)
    → all_below n (insert_revision_row r rs) ≡ (ltb r.revision n && all_below n rs)
unfolding insert_revision_row
insert_below r n [] = refl
insert_below r n (s ∷ rs) = ground (arith, insert_below r n rs)

pub max_below :
    (dep : String) (n : ℕ) (rs : List SavedRevision)
    → max_revision dep rs < n
    → all_below n (revisions_of dep rs) ≡ true
unfolding max_revision revisions_of
max_below dep n [] h = refl
max_below dep n (r ∷ rs) h = elim (Bool-cases (of_deployment dep r)) [
  | inl e ↦ rw (e, insert_below r.row n (revisions_of dep rs)) (ground (arith, max_below dep n rs))
  | inr e ↦ rw e (max_below dep n rs (ground arith))
]

-- a new revision of a deployment stands first
pub new_first :
    (dep : String) (in_ : RevisionInput) (now : Time) (rs : List SavedRevision)
    → revisions_of dep
        (record { deployment_id = dep; row = new_revision (max_revision dep rs + 1) in_ now } ∷ rs)
      ≡ new_revision (max_revision dep rs + 1) in_ now ∷ revisions_of dep rs
unfolding revisions_of
new_first dep in_ now rs = rw (text_refl dep) (
    insert_top (new_revision (max_revision dep rs + 1) in_ now) (revisions_of dep rs)
      (max_below dep (max_revision dep rs + 1) rs (omega arith)))

-- what a revision that was saved has behind it
pub record Saved (db : Db) (dep : String) (in_ : RevisionInput) (now : Time) (db' : Db)
    (row : RevisionRow) : Type 0 where
  pub valid : digest_matches in_.image_digest ≡ true
  pub numbered : row ≡ new_revision (max_revision dep db.revisions + 1) in_ now
  pub stored :
      db' ≡ record db { revisions = record { deployment_id = dep; row = row } ∷ db.revisions }

inserted :
    (db : Db) (dep : String) (in_ : RevisionInput) (now : Time) {db' : Db} {row : RevisionRow}
    → digest_matches in_.image_digest ≡ true
    → insert_revision db in_ now (some dep) ≡ (db', ok row)
    → Saved db dep in_ now db' row
inserted db dep in_ now d h =
    let r = new_revision (max_revision dep db.revisions + 1) in_ now in
    let (b, s, v) = then-ok (any (λ d. d.id == dep) db.deployments) db storage_error h in
    record {
      valid = d;
      numbered = sym v;
      stored =
          sym s
          ∙ ap
              (λ x. record db {
                revisions = record { deployment_id = dep; row = x } ∷ db.revisions;
              })
              v;
    }

pub saved :
    (uuid : String → Option String) (db : Db) (org app_id dep : String) (in_ : RevisionInput)
    (now : Time) {db' : Db} {row : RevisionRow}
    → uuid dep ≡ some dep
    → save_revision uuid db org app_id dep in_ now ≡ (db', ok row)
    → Saved db dep in_ now db' row
unfolding save_revision
saved uuid db org app_id dep in_ now u h = by_app (get_app uuid db org app_id) h
  where
    by_app :
        (m : Outcome Error App) {db' : Db} {row : RevisionRow}
        → for_app db m (λ a.
          if not (digest_matches in_.image_digest)
          then (db, err (invalid_digest in_.image_digest))
          else insert_revision db in_ now (uuid dep))
          ≡ (db', ok row)
        → Saved db dep in_ now db' row
    by_app (err e) h = cc
    by_app (ok a) {db'} {row} h =
        let (b, k) =
          else-ok (not (digest_matches in_.image_digest)) db (invalid_digest in_.image_digest) h in
        inserted db dep in_ now (ground arith)
          (subst (λ o. insert_revision db in_ now o ≡ (db', ok row)) u k)

pub appended :
    (db : Db) (dep : String) (in_ : RevisionInput) (now : Time) {db' : Db} {row : RevisionRow}
    → Saved db dep in_ now db' row
    → revisions_of dep db'.revisions ≡ row ∷ revisions_of dep db.revisions
appended db dep in_ now {db'} {row} s =
    let r = new_revision (max_revision dep db.revisions + 1) in_ now in
    ap (λ d. revisions_of dep d.revisions) s.stored
    ∙ ap (λ x. revisions_of dep (record { deployment_id = dep; row = x } ∷ db.revisions)) s.numbered
    ∙ new_first dep in_ now db.revisions
    ∙ ap (λ x. x ∷ revisions_of dep db.revisions) (sym s.numbered)

-- A revision that is saved is the newest of its deployment: it stands before the revisions that were
-- there, which keep their order, its number is above all of theirs, and its digest is one of SHA-256 in
-- lower-case hexadecimal. The deployment's id is in its canonical form.
pub save_revision_appends :
    (uuid : String → Option String) (db : Db) (org app_id dep : String) (in_ : RevisionInput)
    (now : Time) {db' : Db} {row : RevisionRow}
    → uuid dep ≡ some dep
    → save_revision uuid db org app_id dep in_ now ≡ (db', ok row)
    → (revisions_of dep db'.revisions ≡ row ∷ revisions_of dep db.revisions)
      × (all_below row.revision (revisions_of dep db.revisions) ≡ true)
      × (digest_matches row.image_digest ≡ true)
save_revision_appends uuid db org app_id dep in_ now u h =
    let s = saved uuid db org app_id dep in_ now u h in
    (
      appended db dep in_ now s,
      ap (λ r. all_below r.revision (revisions_of dep db.revisions)) s.numbered
          ∙ max_below dep (max_revision dep db.revisions + 1) db.revisions (omega arith),
      ap (λ r. digest_matches r.image_digest) s.numbered ∙ s.valid,
    )

-- the second of the revisions, with the newest before it
second_of :
    (rs : List RevisionRow) {t : RevisionRow}
    → second rs ≡ ok t
    → (live : RevisionRow) × (older : List RevisionRow) × (rs ≡ live ∷ t ∷ older)
second_of [] h = cc
second_of (r ∷ []) h = cc
second_of (r ∷ s ∷ rs) h = (r, rs, ap (λ x. r ∷ x ∷ rs) (ok-injective h))

pub target_of :
    (uuid : String → Option String) (db : Db) (org app_id dep : String) {t : RevisionRow}
    → uuid dep ≡ some dep
    → rollback_target uuid db org app_id dep ≡ ok t
    → (live : RevisionRow) × (older : List RevisionRow) × (revisions_of dep db.revisions
        ≡ live ∷ t ∷ older)
unfolding rollback_target
target_of uuid db org app_id dep {t} u h =
    by_app (uuid app_id) (subst (λ o. target_at db org o (uuid app_id) ≡ ok t) u h)
  where
    by_owner :
        (b : Bool) {t : RevisionRow}
        → (if b then second (revisions_of dep db.revisions) else err not_enough_revisions) ≡ ok t
        → (live : RevisionRow) × (older : List RevisionRow) × (revisions_of dep db.revisions
            ≡ live ∷ t ∷ older)
    by_owner true h = second_of (revisions_of dep db.revisions) h
    by_owner false h = cc

    by_app :
        (o : Option String) {t : RevisionRow}
        → target_at db org (some dep) o ≡ ok t
        → (live : RevisionRow) × (older : List RevisionRow) × (revisions_of dep db.revisions
            ≡ live ∷ t ∷ older)
    by_app none h = cc
    by_app (some app) h = by_owner (is_owned db org app dep) h
