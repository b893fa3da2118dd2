-- ===== src/Accounts.antt =====
-- control-plane/internal/auth/store.go and apitoken.go: accounts, their single-use tokens, the limit on
-- signups and the API tokens. Addresses are compared without their case, over ASCII. Ids, times,
-- tokens and hashes that are drawn are arguments; statements fail for their constraints alone.
pub mod Members
pub mod Tokens
pub mod Signups
pub mod Tests
use tenara.Prelude.{
  ℕ, zero, suc, ◌+◌, ◌-◌, ◌*◌, ◌/◌, ◌%◌, ◌^◌, ◌≤◌, ◌<◌, String, ◌≡◌, refl, sym, ap, ◌∙◌, subst, ◌≢◌,
  ◌↔◌, ◌⊎◌, inl, inr, Bool, true, false, not, ◌&&◌, ◌||◌, Option, none, some, List, [], ◌∷◌, ◌++◌,
  map, arith, ltb, leb, nat_eq, if◌then◌else◌, ltb→lt, ltb→ge, leb→le, leb→gt, nat_eq_iff, Eq, ◌==◌,
  nat_Eq, string_Eq, text_iff, text_refl, text_ne, Bool-cases, Option-cases, text-cases, is_some,
  length, any, all, length-append, Member, here, there, All, All-Member, Map, get, remove, put,
  keys, get-remove, get-put, map_laws, all-get, get_or, get-put_self, get-put_ne, Outcome, ok, err,
  ◌>>=◌, ◌>>◌, require, refuse, >>=-eq-ok, is_ok, is_ok-then, ok-injective, all-Member, all-append,
  is_nonempty, is_nonempty-append, tests, ℤ, pos, negsuc, lt_ℤ, int_Eq, int_iff, All-of_all,
  all-of_All, any_Member, any-false,
}
use tenara.Prelude.{find, select, update_where}
use tenara.Bytes.{Bytes, same, to_lower}
use tenara.Orchestrator.Deploy.{Time}

pub record User : Type 0 where
  pub id : String
  pub email : Bytes
  pub password_hash : String
  pub email_verified : Bool

-- a row of email_verifications or of password_resets
pub record TokenRow : Type 0 where
  pub token_hash : String
  pub user_id : String
  pub expires_at : Time
  pub consumed : Bool

-- a row of signup_rate_limits
pub record SignupRow : Type 0 where
  pub ip : String
  pub window_start : Time
  pub count : ℕ

pub record Store : Type 0 where
  pub users : List User
  pub email_verifications : List TokenRow
  pub password_resets : List TokenRow
  pub signup_rate_limits : List SignupRow

pub data Error : Type 0 where
  email_taken invalid_credentials rate_limited bad_token storage_error : Error

abbrev pub has_email : Bytes → User → Bool
has_email email u = same (to_lower u.email) (to_lower email)

abbrev pub new_user : Bytes → String → String → User
new_user email hash id = record {
  id = id;
  email = email;
  password_hash = hash;
  email_verified = false;
}

unfoldable pub create_unverified : Store → Bytes → String → String → Store × Outcome Error User
create_unverified st email hash id =
    if any (has_email email) st.users
    then (st, err email_taken)
    else (record st { users = new_user email hash id ∷ st.users }, ok (new_user email hash id))

abbrev pub found_user : Option User → Outcome Error User
found_user none = err invalid_credentials
found_user (some u) = ok u

unfoldable pub get_by_email : Store → Bytes → Outcome Error User
unfolding find
get_by_email st email = found_user (find (has_email email) st.users)

-- the schema's defaults for expires_at
abbrev verification_ttl : Time
verification_ttl = 24 * 3600 * 10 ^ 9

abbrev reset_ttl : Time
reset_ttl = 3600 * 10 ^ 9

abbrev pub has_hash : String → TokenRow → Bool
has_hash hash t = t.token_hash == hash

abbrev pub new_token : String → String → Time → TokenRow
new_token user hash expires = record {
  token_hash = hash;
  user_id = user;
  expires_at = expires;
  consumed = false;
}

-- the hash is the primary key
unfoldable pub store_verification :
    Store → String → String → Time → Store × Outcome Error (Unit {0})
store_verification st user hash now =
    if any (has_hash hash) st.email_verifications then (st, err storage_error) else (
      record st {
        email_verifications = new_token user hash (now + verification_ttl) ∷ st.email_verifications;
      },
      ok tt,
    )

unfoldable pub store_reset_token : Store → String → String → Time → Store × Outcome Error (Unit {0})
store_reset_token st user hash now =
    if any (has_hash hash) st.password_resets then (st, err storage_error) else (
      record st { password_resets = new_token user hash (now + reset_ttl) ∷ st.password_resets },
      ok tt,
    )

-- token_hash = hash AND consumed_at IS NULL AND expires_at > now()
abbrev pub is_live : String → Time → TokenRow → Bool
is_live hash now t = t.token_hash == hash && not t.consumed && ltb now t.expires_at

abbrev pub consume : TokenRow → TokenRow
consume t = record t { consumed = true }

abbrev is_user : String → User → Bool
is_user id u = u.id == id

abbrev verify_user : User → User
verify_user u = record u { email_verified = true }

-- the UPDATE of the users, over the token's row, and the one that consumes the token
abbrev pub verify_by : Store → String → Option TokenRow → Store × Outcome Error String
verify_by st hash none = (st, err bad_token)
verify_by st hash (some t) =
    if any (is_user t.user_id) st.users
    then (
      record st {
        users = update_where (is_user t.user_id) verify_user st.users;
        email_verifications = update_where (has_hash hash) consume st.email_verifications;
      },
      ok t.user_id,
    )
    else (st, err bad_token)

unfoldable pub consume_verification : Store → String → Time → Store × Outcome Error String
unfolding find update_where
consume_verification st hash now =
    verify_by st hash (find (is_live hash now) st.email_verifications)

abbrev with_password : String → User → User
with_password hash u = record u { password_hash = hash }

abbrev pub reset_by : Store → String → String → Option TokenRow → Store × Outcome Error (Unit {0})
reset_by st hash new_hash none = (st, err bad_token)
reset_by st hash new_hash (some t) =
    if any (is_user t.user_id) st.users
    then (
      record st {
        users = update_where (is_user t.user_id) (with_password new_hash) st.users;
        password_resets = update_where (has_hash hash) consume st.password_resets;
      },
      ok tt,
    )
    else (st, err bad_token)

unfoldable pub consume_reset_token :
    Store → String → String → Time → Store × Outcome Error (Unit {0})
unfolding find update_where
consume_reset_token st hash new_hash now =
    reset_by st hash new_hash (find (is_live hash now) st.password_resets)

abbrev pub signups_per_window : ℕ
signups_per_window = 5

abbrev pub signup_window_length : Time
signup_window_length = 3600 * 10 ^ 9

abbrev pub has_ip : String → SignupRow → Bool
has_ip ip r = r.ip == ip

abbrev pub count_one : SignupRow → SignupRow
count_one r = record r { count = r.count + 1 }

abbrev pub restart : Time → SignupRow → SignupRow
restart now r = record r { window_start = now; count = 1 }

abbrev pub limit_row : Store → String → Time → Option SignupRow → Store × Outcome Error (Unit {0})
limit_row st ip now none = (
  record st {
    signup_rate_limits = record { ip = ip; window_start = now; count = 1 } ∷ st.signup_rate_limits;
  },
  ok tt,
)
limit_row st ip now (some r) =
    if ltb (r.window_start + signup_window_length) now
    then (
      record st {
        signup_rate_limits = update_where (has_ip ip) (restart now) st.signup_rate_limits;
      },
      ok tt,
    )
    else if leb signups_per_window r.count
    then (st, err rate_limited)
    else (
      record st { signup_rate_limits = update_where (has_ip ip) count_one st.signup_rate_limits },
      ok tt,
    )

abbrev pub limit_addr : Store → Time → Option String → Store × Outcome Error (Unit {0})
limit_addr st now none = (st, ok tt)
limit_addr st now (some ip) = limit_row st ip now (find (has_ip ip) st.signup_rate_limits)

-- over netip.ParseAddr, which gives the canonical text of an address
unfoldable pub check_signup_limit :
    (String → Option String) → Store → String → Time → Store × Outcome Error (Unit {0})
unfolding find update_where
check_signup_limit addr st ip now = limit_addr st now (addr ip)
