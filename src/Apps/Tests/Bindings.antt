-- ===== src/Apps/Tests/Bindings.antt =====
-- The theorems on domains, databases, deployments and secrets at concrete apps.
use tenara.Prelude.{any, all}
use tenara.Prelude.{
  ◌≡◌, refl, true, false, none, some, List, [], ◌∷◌, nat_Eq, string_Eq, is_ok, int_Eq,
}
use tenara.Bytes.{Bytes, codes, same, trim_space, text_of}
use tenara.Orchestrator.Deploy.{Time}
use tenara.Apps.{DatabaseRow, BindingRow, Db, Result}
use tenara.Apps.Handlers.{json}
use tenara.Apps.Domains.{require_verified_domain, Resolver}
use tenara.Apps.Domains.Challenge.{Call, default_call, custom_call, verify_call}
use tenara.Apps.Domains.Challenge
use tenara.Apps.Domains.Unproved.{Wait, waits, is_unproved, unproved_stays}
use tenara.Apps.Databases.{request_database, normalize_kind}
use tenara.Apps.Databases
use tenara.Apps.Databases.Merged.{Merged, request_database_merges}
use tenara.Apps.Bindings.{EnvInput, handle_put_env, handle_reveal_secret}
use tenara.Apps.Bindings.Revealed.{put_then_revealed}
use tenara.Apps.Handlers.{value_body}
use tenara.Kms.{Aead}
use tenara.Secrets.{Store}
use tenara.Apps.Tests.{any_id, shops}

abbrev host : Bytes
host = codes "shop.test"

-- a custom domain with its challenge
abbrev with_domain : Db
with_domain = record shops {
  domains =
      record {
        row = record {
          id = "dom1";
          app_id = "a1-b2";
          hostname = host;
          verified = false;
          txt_challenge = "tok";
          cname_target = "";
          is_default = false;
        };
        created_at = 6;
      }
      ∷ [];
}

-- a resolver that answers another token
abbrev other_token : Resolver
other_token name = some ("no" ∷ [])

abbrev domain_calls : List (Time × Call)
domain_calls =
    (8, verify_call "a1-b2" "dom1" other_token)
    ∷ (9, custom_call "a9" (codes "SHOP.test") (some "mine") "dom2")
    ∷ (9, default_call "a1-b2" (codes "shop") (codes "example.com") "dom3")
    ∷ (10, verify_call "a1-b2" "dom1" (λ name. none))
    ∷ []

abbrev dom1 : Wait
dom1 = record { id = "dom1"; host = host; token = "tok" }

unproved_stays_example :
    (any (is_unproved dom1) (Challenge.run any_id with_domain domain_calls).domains ≡ true)
    × (all (waits dom1) (Challenge.run any_id with_domain domain_calls).domains ≡ true)
    × (is_ok (
          require_verified_domain any_id
            (Challenge.run any_id with_domain domain_calls)
            "o1"
            "a1-b2"
            "dom1")
        ≡ false)
unfolding same
unproved_stays_example =
    unproved_stays dom1 any_id with_domain domain_calls "o1" "a1-b2" "dom1" refl refl refl refl

abbrev database_ids : Databases.NewIds
database_ids = record { database = "db1"; binding = "b1" }

abbrev more_ids : Databases.NewIds
more_ids = record { database = "db2"; binding = "b2" }

abbrev with_database : Result (DatabaseRow × BindingRow)
with_database = request_database any_id shops "o1" "a1-b2" "mongo" "" database_ids

request_database_merges_example :
    Merged with_database.0 "db1" "dedicated"
      (request_database any_id with_database.0 "o1" "a1-b2" "" "dedicated" more_ids)
unfolding request_database normalize_kind
request_database_merges_example =
    request_database_merges any_id shops "o1" "a1-b2" "mongo" "" "" "dedicated" "mongodb"
      database_ids more_ids {db' = with_database.0} refl refl refl

-- a cipher for the test alone: it leaves the text as it is
abbrev plain_cipher : Aead
plain_cipher = record { nonce_size = 1; seal = λ n p. p; open_sealed = λ n s. some s }

abbrev no_secrets : Store
no_secrets = record { secrets = []; secret_revisions = [] }

abbrev api_key : EnvInput
api_key = record { name = codes " API_KEY "; value = codes "s3cret" }

put_then_revealed_example :
    (handle_reveal_secret any_id plain_cipher shops
      (handle_put_env any_id plain_cipher
        (some (7 ∷ []))
        text_of
        shops
        no_secrets
        (some ("u1", "o1"))
        "a1-b2"
        (some api_key)
        "s1").0
      (some ("u2", "o1"))
      "a1-b2"
      (some (text_of (trim_space (codes " API_KEY "))))).1
    ≡ json 200 (value_body (codes "s3cret"))
unfolding handle_put_env trim_space text_of
put_then_revealed_example =
    put_then_revealed any_id plain_cipher (7 ∷ []) text_of shops no_secrets "u1" "u2" "o1" "a1-b2"
      "s1" api_key refl refl refl refl
