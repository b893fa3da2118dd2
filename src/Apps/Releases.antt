-- ===== src/Apps/Releases.antt =====
-- control-plane/internal/apps/deployments.go, and the rollback of store.go: the revisions of a
-- deployment, and the rollback to the second newest.
pub mod Numbers
pub mod Restored
use tenara.Prelude.{
  ℕ, zero, suc, ◌+◌, ◌-◌, ◌*◌, ◌/◌, ◌%◌, ◌^◌, ◌≤◌, ◌<◌, String, ◌≡◌, refl, sym, ap, ◌∙◌, subst, ◌≢◌,
  ◌↔◌, ◌⊎◌, inl, inr, Bool, true, false, not, ◌&&◌, ◌||◌, Option, none, some, List, [], ◌∷◌, ◌++◌,
  map, arith, ltb, leb, nat_eq, if◌then◌else◌, ltb→lt, ltb→ge, leb→le, leb→gt, nat_eq_iff, Eq, ◌==◌,
  nat_Eq, string_Eq, text_iff, text_refl, text_ne, Bool-cases, Option-cases, text-cases, is_some,
  length, any, all, length-append, Member, here, there, All, All-Member, Map, get, remove, put,
  keys, get-remove, get-put, map_laws, all-get, get_or, get-put_self, get-put_ne, Outcome, ok, err,
  ◌>>=◌, ◌>>◌, require, refuse, >>=-eq-ok, is_ok, is_ok-then, ok-injective, all-Member, all-append,
  is_nonempty, is_nonempty-append, tests, ℤ, pos, negsuc, lt_ℤ, int_Eq, int_iff, All-of_all,
  all-of_All, any_Member, any-false,
}
use tenara.Prelude.{
  find, select, count_where, update_where, find-holds, select-update_where_other,
  count_where-update_where_le, find-update_where,
}
use tenara.Bytes.{Bytes, codes, same, is_blank, is_space, trim_space}
use tenara.Orchestrator.Deploy.{State, Time, planned}
use tenara.Apps.{
  Organization, Application, ServiceRow, Environment, Deployment, RevisionRow, SavedRevision,
  AuditRow, Db, Conflict, Error, Result, App, AppWithSpec, not_found, plan_expired,
  not_enough_revisions, storage_error, quota_exceeded, conflict, invalid_digest, unsupported_kind,
  blank_name, name_used, creation_race, service_exists, bad_environment, environment_exists,
  corrupt_snapshot, plan_already, hostname_bound, not_verified, no_challenge, view, is_none,
  lives_in, is_app, found_app, get_app_at, get_app, get_app_with_spec, list_apps, newest_first,
  insert_newest, org_tier, tier_or_free, free_tier_max_apps, pro_tier_max_apps, max_apps_of,
  or_empty, for_app,
}
use tenara.Bytes.{cut_prefix}

pub record RevisionInput : Type 0 where
  pub git_sha : String
  pub build_id : String
  pub image_digest : Bytes
  pub config_version : ℤ
  pub secret_revision : ℤ
  pub appspec_version : String

abbrev is_hex : ℕ → Bool
is_hex c = (leb b'0' c && leb c b'9') || (leb b'a' c && leb c b'f')

abbrev is_hex64 : Option Bytes → Bool
is_hex64 none = false
is_hex64 (some s) = length s == 64 && all is_hex s

-- digestRE: `^sha256:[0-9a-f]{64}$`
unfoldable pub digest_matches : Bytes → Bool
unfolding cut_prefix
digest_matches s = is_hex64 (cut_prefix (codes "sha256:") s)

abbrev pub of_deployment : String → SavedRevision → Bool
of_deployment id r = r.deployment_id == id

-- COALESCE(max(revision), 0), of the revisions of one deployment
unfoldable pub max_revision : String → List SavedRevision → ℕ
max_revision id [] = 0
max_revision id (r ∷ rs) =
    let rest = max_revision id rs in
    if of_deployment id r && ltb rest r.row.revision then r.row.revision else rest

abbrev pub new_revision : ℕ → RevisionInput → Time → RevisionRow
new_revision next in_ now = record {
  revision = next;
  git_sha = in_.git_sha;
  build_id = in_.build_id;
  image_digest = in_.image_digest;
  config_version = in_.config_version;
  secret_revision = in_.secret_revision;
  appspec_version = in_.appspec_version;
  created_at = now;
}

-- the two statements; the row's deployment has to be there
abbrev pub insert_revision : Db → RevisionInput → Time → Option String → Result RevisionRow
insert_revision db in_ now none = (db, err not_found)
insert_revision db in_ now (some dep) =
    let row = new_revision (max_revision dep db.revisions + 1) in_ now in
    if any (λ d. d.id == dep) db.deployments
    then (
      record db { revisions = record { deployment_id = dep; row = row } ∷ db.revisions },
      ok row,
    )
    else (db, err storage_error)

unfoldable pub save_revision :
    (String → Option String)
    → Db
    → String
    → String
    → String
    → RevisionInput
    → Time
    → Result RevisionRow
unfolding get_app digest_matches max_revision
save_revision uuid db org app_id deployment_id in_ now =
    for_app db (get_app uuid db org app_id) λ a.
      if not (digest_matches in_.image_digest)
      then (db, err (invalid_digest in_.image_digest))
      else insert_revision db in_ now (uuid deployment_id)

-- newest first
unfoldable pub insert_revision_row : RevisionRow → List RevisionRow → List RevisionRow
insert_revision_row r [] = r ∷ []
insert_revision_row r (s ∷ rs) =
    let rest = insert_revision_row r rs in
    if leb s.revision r.revision then r ∷ s ∷ rs else s ∷ rest

-- ORDER BY revision DESC, of the revisions of one deployment
unfoldable pub revisions_of : String → List SavedRevision → List RevisionRow
unfolding insert_revision_row
revisions_of id [] = []
revisions_of id (r ∷ rs) =
    let rest = revisions_of id rs in
    if of_deployment id r then insert_revision_row r.row rest else rest

-- LIMIT 1 OFFSET 1
abbrev pub second : List RevisionRow → Outcome Error RevisionRow
second [] = err not_enough_revisions
second (r ∷ []) = err not_enough_revisions
second (r ∷ s ∷ rs) = ok s

-- the deployment is of an app of the caller
abbrev pub is_owned : Db → String → String → String → Bool
is_owned db org app_id dep =
    any (λ d. d.id == dep && d.app_id == app_id) db.deployments
    && any (λ a. a.id == app_id && a.org_id == org) db.applications

abbrev pub target_at : Db → String → Option String → Option String → Outcome Error RevisionRow
target_at db org none app = err not_found
target_at db org (some dep) none = err storage_error
target_at db org (some dep) (some app_id) =
    if is_owned db org app_id dep
    then second (revisions_of dep db.revisions)
    else err not_enough_revisions

unfoldable pub rollback_target :
    (String → Option String) → Db → String → String → String → Outcome Error RevisionRow
unfolding revisions_of
rollback_target uuid db org app_id deployment_id =
    target_at db org (uuid deployment_id) (uuid app_id)

-- ORDER BY dp.id DESC, of the deployments of one app, over the order `lt` of the ids
unfoldable pub insert_deployment :
    (String → String → Bool) → Deployment → List Deployment → List Deployment
insert_deployment lt d [] = d ∷ []
insert_deployment lt d (e ∷ ds) =
    let rest = insert_deployment lt d ds in if lt d.id e.id then e ∷ rest else d ∷ e ∷ ds

unfoldable pub deployments_of :
    (String → String → Bool) → String → List Deployment → List Deployment
unfolding insert_deployment
deployments_of lt app_id [] = []
deployments_of lt app_id (d ∷ ds) =
    let rest = deployments_of lt app_id ds in
    if d.app_id == app_id then insert_deployment lt d rest else rest

unfoldable pub revisions_of_all : List Deployment → List SavedRevision → List RevisionRow
unfolding revisions_of
revisions_of_all [] rs = []
revisions_of_all (d ∷ ds) rs = revisions_of d.id rs ++ revisions_of_all ds rs

abbrev pub list_revisions_at :
    (String → String → Bool) → Db → String → Option String → Outcome Error (List RevisionRow)
list_revisions_at lt db org none = err not_found
list_revisions_at lt db org (some app_id) =
    if any (is_app app_id org) db.applications
    then ok (revisions_of_all (deployments_of lt app_id db.deployments) db.revisions)
    else ok []

unfoldable pub list_revisions :
    (String → Option String)
    → (String → String → Bool)
    → Db
    → String
    → String
    → Outcome Error (List RevisionRow)
unfolding deployments_of revisions_of_all
list_revisions uuid lt db org app_id = list_revisions_at lt db org (uuid app_id)

abbrev pub input_of : RevisionRow → RevisionInput
input_of t = record {
  git_sha = t.git_sha;
  build_id = t.build_id;
  image_digest = t.image_digest;
  config_version = t.config_version;
  secret_revision = t.secret_revision;
  appspec_version = t.appspec_version;
}

-- the new revision, and the target
abbrev pub restored : RevisionRow → Result RevisionRow → Result (RevisionRow × RevisionRow)
restored target (db, err e) = (db, err e)
restored target (db, ok row) = (db, ok (row, target))

abbrev pub roll_back_to :
    (String → Option String)
    → Db
    → String
    → String
    → String
    → Time
    → Outcome Error RevisionRow
    → Result (RevisionRow × RevisionRow)
roll_back_to uuid db org app_id dep now (err e) = (db, err e)
roll_back_to uuid db org app_id dep now (ok target) =
    restored target (save_revision uuid db org app_id dep (input_of target) now)

-- the newest deployment of the app, which is the first of the statement's order
abbrev pub roll_back_first :
    (String → Option String)
    → Db
    → String
    → String
    → Time
    → List Deployment
    → Result (RevisionRow × RevisionRow)
roll_back_first uuid db org app_id now [] = (db, err not_enough_revisions)
roll_back_first uuid db org app_id now (d ∷ ds) =
    roll_back_to uuid db org app_id d.id now (rollback_target uuid db org app_id d.id)

abbrev pub roll_back_at :
    (String → Option String)
    → (String → String → Bool)
    → Db
    → String
    → String
    → Time
    → Option String
    → Result (RevisionRow × RevisionRow)
roll_back_at uuid lt db org app_id now none = (db, err not_found)
roll_back_at uuid lt db org app_id now (some id) =
    if any (is_app id org) db.applications
    then roll_back_first uuid db org app_id now (deployments_of lt id db.deployments)
    else (db, err not_enough_revisions)

unfoldable pub rollback_latest :
    (String → Option String)
    → (String → String → Bool)
    → Db
    → String
    → String
    → Time
    → Result (RevisionRow × RevisionRow)
unfolding save_revision rollback_target deployments_of
rollback_latest uuid lt db org app_id now = roll_back_at uuid lt db org app_id now (uuid app_id)
