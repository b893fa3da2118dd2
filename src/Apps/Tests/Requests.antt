-- ===== src/Apps/Tests/Requests.antt =====
-- The theorems on refusals and rollbacks at concrete apps.
use tenara.Prelude.{
  ◌<◌, String, ◌≡◌, refl, Bool, true, false, none, some, List, [], ◌∷◌, nat_Eq, string_Eq, Outcome,
  ok, err, pos, int_Eq,
}
use tenara.Bytes.{Bytes, codes, same}
use tenara.Apps.{Deployment, RevisionRow, Db, Error, Result}
use tenara.Apps.Refusals.{refusal_changes_nothing}
use tenara.Apps.Refusals
use tenara.Apps.Releases.{RevisionInput, rollback_latest, revisions_of, input_of, save_revision}
use tenara.Apps.Releases.Restored.{rollback_undone}
use tenara.Apps.Tests.{any_id, shops, to_web, write_expiry, read_expiry, with_plan}

abbrev all_handlers : Refusals.World
all_handlers = record {
  uuid = any_id;
  jsonb = λ raw. some raw;
  decode = to_web;
  app_spec_of = λ raw. some raw;
  analyze = none;
  marshal = write_expiry;
  expires_of = read_expiry;
  id_lt = λ a b. false;
  base_domain = "example.com";
  wired = true;
}

-- the name is that of another app
refusal_changes_nothing_example :
    (Refusals.serve all_handlers shops
      (some ("u1", "o1"))
      8
      (Refusals.create_call (some (codes "Shop")) "a3")).0
    ≡ shops
unfolding Refusals.serve same
refusal_changes_nothing_example =
    refusal_changes_nothing all_handlers shops (some ("u1", "o1")) 8
      (Refusals.create_call (some (codes "Shop")) "a3") refl

abbrev digest : Bytes
digest = codes "sha256:0123456789abcdef0123456789abcdef0123456789abcdef0123456789abcdef"

abbrev release : String → RevisionInput
release sha = record {
  git_sha = sha;
  build_id = "";
  image_digest = digest;
  config_version = pos 1;
  secret_revision = pos 1;
  appspec_version = "v1";
}

-- two releases, and two rollbacks
abbrev released : Db
released =
    (save_revision any_id (save_revision any_id with_plan "o1" "a1-b2" "d1" (release "s1") 10).0
      "o1" "a1-b2" "d1" (release "s2") 11).0

abbrev no_order : String → String → Bool
no_order a b = false

abbrev back : Result (RevisionRow × RevisionRow)
back = rollback_latest any_id no_order released "o1" "a1-b2" 12

abbrev forth : Result (RevisionRow × RevisionRow)
forth = rollback_latest any_id no_order back.0 "o1" "a1-b2" 13

abbrev row_of : Outcome Error (RevisionRow × RevisionRow) → RevisionRow × RevisionRow
row_of (ok p) = p
row_of (err e) = (zero_row, zero_row)
  where
    zero_row : RevisionRow
    zero_row = record {
      revision = 0;
      git_sha = "";
      build_id = "";
      image_digest = [];
      config_version = pos 0;
      secret_revision = pos 0;
      appspec_version = "";
      created_at = 0;
    }

rollback_undone_example :
    (dep : Deployment) × (live : RevisionRow) × (older : List RevisionRow) × (revisions_of dep.id
        released.revisions
      ≡ live ∷ (row_of back.1).1 ∷ older)
    × (revisions_of dep.id back.0.revisions ≡ (row_of back.1).0 ∷ live ∷ (row_of back.1).1 ∷ older)
    × (input_of (row_of back.1).0 ≡ input_of (row_of back.1).1)
    × (live.revision < (row_of back.1).0.revision)
    × ((row_of forth.1).1 ≡ live)
    × (input_of (row_of forth.1).0 ≡ input_of live)
unfolding rollback_latest save_revision
rollback_undone_example =
    rollback_undone any_id no_order released "o1" "a1-b2" "a1-b2" 12 13 {db' = back.0}
      {db'' = forth.0} {row = (row_of back.1).0} {target = (row_of back.1).1}
      {row' = (row_of forth.1).0} {target' = (row_of forth.1).1} refl refl refl refl
