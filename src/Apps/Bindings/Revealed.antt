-- ===== src/Apps/Bindings/Revealed.antt =====
-- A secret that PUT /v1/apps/{appId}/env sets is revealed to its organization.
use tenara.Prelude.{
  String, ◌≡◌, refl, ap, ◌∙◌, Bool, true, false, ◌||◌, Option, some, if◌then◌else◌, ◌==◌, nat_Eq,
  string_Eq, length, Outcome, ok, err, ok-injective, int_Eq,
}
use tenara.Bytes.{Bytes, is_blank, trim_space}
use tenara.Apps.{
  Db, Error, App, not_found, plan_expired, not_enough_revisions, storage_error, quota_exceeded,
  conflict, invalid_digest, unsupported_kind, get_app,
}
use tenara.Kms.{Aead}
use tenara.Secrets.{Store, set_secret, reveal}
use tenara.Secrets
use tenara.Secrets.Versions.{reveal-set_secret}
use tenara.Apps.Handlers.{value_body, json, status_only, map_write_err, validation_failed}
use tenara.Apps.Bindings.{
  EnvInput, ServedSecrets, stored, put_env_app, handle_put_env, answer_reveal, reveal_app,
  handle_reveal_secret,
}

not_bare : (e : Error) → map_write_err e ≡ status_only 204 → ⊥
unfolding map_write_err
not_bare not_found h = cc
not_bare (quota_exceeded t n) h = cc
not_bare (conflict c) h = cc
not_bare (unsupported_kind k) h = cc
not_bare plan_expired h = cc
not_bare not_enough_revisions h = cc
not_bare storage_error h = cc
not_bare (invalid_digest d) h = cc

answered :
    (db : Db) (user org : String) (m : Outcome Secrets.Error Bytes) (v : Bytes)
    → m ≡ ok v
    → (answer_reveal db user org m).1 ≡ json 200 (value_body v)
answered db user org (err Secrets.not_found) v h = cc
answered db user org (err Secrets.encrypt_failed) v h = cc
answered db user org (err Secrets.decrypt_failed) v h = cc
answered db user org (ok w) v h = ap (λ x. json 200 (value_body x)) (ok-injective h)

revealed :
    (k : Aead) (drawn : Bytes) (text : Bytes → String) (db : Db) (st : Store)
    (other org id : String) (i : EnvInput) (m : Outcome Error App)
    → length drawn ≡ k.nonce_size
    → k.open_sealed drawn (k.seal drawn i.value) ≡ some i.value
    → (text (trim_space i.name) == "") ≡ false
    → (put_env_app k (some drawn) text st id (some i) m).1 ≡ status_only 204
    → (reveal_app k db
        (put_env_app k (some drawn) text st id (some i) m).0
        other
        org
        (text (trim_space i.name))
        m).1
      ≡ json 200 (value_body i.value)
revealed k drawn text db st other org id i (err e) size opens n h = absurd (not_bare e h)
revealed k drawn text db st other org id i (ok a) size opens n h =
    by_test (is_blank i.name || length i.value == 0) h
  where
    name : String
    name = text (trim_space i.name)

    served : ServedSecrets
    served = stored (set_secret k (some drawn) st a.id name i.value id)

    kept_store : (r : Store × Outcome Secrets.Error (Unit {0})) → (stored r).0 ≡ r.0
    kept_store (st, err e) = refl
    kept_store (st, ok u) = refl

    by_test :
        (b : Bool)
        → (if b then (st, validation_failed) else served).1 ≡ status_only 204
        → (reveal_app k db
            (if b then (st, validation_failed) else served).0
            other
            org
            name
            (ok a)).1
          ≡ json 200 (value_body i.value)
    by_test true h = cc
    by_test false h =
        let r = (reveal-set_secret k drawn st a.id name i.value id size opens).1 in
        rw n (
          answered db other org (reveal k served.0 a.id name) i.value (
            ap (λ s. reveal k s a.id name)
              (kept_store (set_secret k (some drawn) st a.id name i.value id))
            ∙ r))

-- What is set is revealed: after an answer 204 to a variable that is set, every user of the organization to
-- whom the handler reveals the trimmed name of the app's secret is answered 200 with the value that was
-- sent, if the cipher opens what it sealed under the nonce drawn. `text` is any reading of the name.
pub put_then_revealed :
    (uuid : String → Option String) (k : Aead) (drawn : Bytes) (text : Bytes → String) (db : Db)
    (st : Store) (user other org app_id id : String) (i : EnvInput)
    → length drawn ≡ k.nonce_size
    → k.open_sealed drawn (k.seal drawn i.value) ≡ some i.value
    → (text (trim_space i.name) == "") ≡ false
    → (handle_put_env uuid k (some drawn) text db st (some (user, org)) app_id (some i) id).1
      ≡ status_only 204
    → (handle_reveal_secret uuid k db
        (handle_put_env uuid k (some drawn) text db st (some (user, org)) app_id (some i) id).0
        (some (other, org))
        app_id
        (some (text (trim_space i.name)))).1
      ≡ json 200 (value_body i.value)
unfolding handle_put_env handle_reveal_secret
put_then_revealed uuid k drawn text db st user other org app_id id i size opens n h =
    revealed k drawn text db st other org id i (get_app uuid db org app_id) size opens n h
