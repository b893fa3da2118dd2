-- ===== src/Secrets.antt =====
-- control-plane/internal/secrets/service.go: the secrets of the apps, sealed, with a row for every
-- version. Statements succeed here, and an app's id is the one that the lookup of the app gave.
pub mod Versions
use tenara.Prelude.{
  ℕ, zero, suc, ◌+◌, ◌-◌, ◌*◌, ◌/◌, ◌%◌, ◌^◌, ◌≤◌, ◌<◌, String, ◌≡◌, refl, sym, ap, ◌∙◌, subst, ◌≢◌,
  ◌↔◌, ◌⊎◌, inl, inr, Bool, true, false, not, ◌&&◌, ◌||◌, Option, none, some, List, [], ◌∷◌, ◌++◌,
  map, arith, ltb, leb, nat_eq, if◌then◌else◌, ltb→lt, ltb→ge, leb→le, leb→gt, nat_eq_iff, Eq, ◌==◌,
  nat_Eq, string_Eq, text_iff, text_refl, text_ne, Bool-cases, Option-cases, text-cases, is_some,
  length, any, all, length-append, Member, here, there, All, All-Member, Map, get, remove, put,
  keys, get-remove, get-put, map_laws, all-get, get_or, get-put_self, get-put_ne, Outcome, ok, err,
  ◌>>=◌, ◌>>◌, require, refuse, >>=-eq-ok, is_ok, is_ok-then, ok-injective, all-Member, all-append,
  is_nonempty, is_nonempty-append, tests, ℤ, pos, negsuc, lt_ℤ, int_Eq, int_iff, All-of_all,
  all-of_All, any_Member, any-false,
}
use tenara.Prelude.{find, update_where, sort}
use tenara.Bytes.{Bytes}
use tenara.Kms.{Aead, encrypt, decrypt}

pub record Secret : Type 0 where
  pub id : String
  pub app_id : String
  pub name : String
  pub ciphertext : Bytes

pub record SecretRevision : Type 0 where
  pub secret_id : String
  pub version : ℕ
  pub ciphertext : Bytes

pub record Store : Type 0 where
  pub secrets : List Secret
  pub secret_revisions : List SecretRevision

pub data Error : Type 0 where
  not_found encrypt_failed decrypt_failed : Error

-- the unique key of secrets
abbrev pub is_secret : String → String → Secret → Bool
is_secret app_id name s = s.app_id == app_id && s.name == name

-- COALESCE(max(version), 0), of the revisions of one secret
unfoldable pub max_version : String → List SecretRevision → ℕ
max_version id [] = 0
max_version id (r ∷ rs) =
    let rest = max_version id rs in
    if r.secret_id == id && ltb rest r.version then r.version else rest

abbrev pub with_ciphertext : Bytes → Secret → Secret
with_ciphertext sealed s = record s { ciphertext = sealed }

abbrev pub revise : Store → List Secret → String → Bytes → Store
revise st secrets id sealed = record {
  secrets = secrets;
  secret_revisions =
      record {
        secret_id = id;
        version = max_version id st.secret_revisions + 1;
        ciphertext = sealed;
      }
      ∷ st.secret_revisions;
}

-- the INSERT .. ON CONFLICT DO UPDATE, over the row that is there, and the new revision
abbrev pub upsert : Store → String → String → Bytes → String → Option Secret → Store
upsert st app_id name sealed id none =
    revise st (record { id = id; app_id = app_id; name = name; ciphertext = sealed } ∷ st.secrets)
      id sealed
upsert st app_id name sealed id (some s) =
    revise st (update_where (is_secret app_id name) (with_ciphertext sealed) st.secrets) s.id sealed

abbrev pub set_sealed :
    Store → String → String → String → Option Bytes → Store × Outcome Error (Unit {0})
set_sealed st app_id name id none = (st, err encrypt_failed)
set_sealed st app_id name id (some sealed) =
    (upsert st app_id name sealed id (find (is_secret app_id name) st.secrets), ok tt)

-- over the nonce that is read, and the id of a new row
unfoldable pub set_secret :
    Aead
    → Option Bytes
    → Store
    → String
    → String
    → Bytes
    → String
    → Store × Outcome Error (Unit {0})
unfolding encrypt find update_where max_version
set_secret k nonce st app_id name plaintext id =
    set_sealed st app_id name id (encrypt k nonce plaintext)

pub record Item : Type 0 where
  pub name : String
  pub value : String

abbrev masked : String → Item
masked name = record { name = name; value = "configured" }

unfoldable pub names_of : String → List Secret → List String
names_of app_id [] = []
names_of app_id (s ∷ ss) =
    let rest = names_of app_id ss in if s.app_id == app_id then s.name ∷ rest else rest

-- ORDER BY name, in the order of the code points
unfoldable pub list_secrets : Store → String → List Item
unfolding names_of sort
list_secrets st app_id = map masked (sort (names_of app_id st.secrets))

abbrev opened : Option Bytes → Outcome Error Bytes
opened none = err decrypt_failed
opened (some plain) = ok plain

abbrev pub reveal_found : Aead → Option Secret → Outcome Error Bytes
reveal_found k none = err not_found
reveal_found k (some s) = opened (decrypt k s.ciphertext)

unfoldable pub reveal : Aead → Store → String → String → Outcome Error Bytes
unfolding decrypt find
reveal k st app_id name = reveal_found k (find (is_secret app_id name) st.secrets)
