-- ===== src/Idempotency.antt =====
-- control-plane/internal/auth/idem.go: mutations with an idempotency key, and the statements on the
-- table of the keys.
pub mod Once
pub mod Tests
use tenara.Prelude.{
  ℕ, zero, suc, ◌+◌, ◌-◌, ◌*◌, ◌/◌, ◌%◌, ◌^◌, ◌≤◌, ◌<◌, String, ◌≡◌, refl, sym, ap, ◌∙◌, subst, ◌≢◌,
  ◌↔◌, ◌⊎◌, inl, inr, Bool, true, false, not, ◌&&◌, ◌||◌, Option, none, some, List, [], ◌∷◌, ◌++◌,
  map, arith, ltb, leb, nat_eq, if◌then◌else◌, ltb→lt, ltb→ge, leb→le, leb→gt, nat_eq_iff, Eq, ◌==◌,
  nat_Eq, string_Eq, text_iff, text_refl, text_ne, Bool-cases, Option-cases, text-cases, is_some,
  length, any, all, length-append, Member, here, there, All, All-Member, Map, get, remove, put,
  keys, get-remove, get-put, map_laws, all-get, get_or, get-put_self, get-put_ne, Outcome, ok, err,
  ◌>>=◌, ◌>>◌, require, refuse, >>=-eq-ok, is_ok, is_ok-then, ok-injective, all-Member, all-append,
  is_nonempty, is_nonempty-append, tests, ℤ, pos, negsuc, lt_ℤ, int_Eq, int_iff, All-of_all,
  all-of_All, any_Member, any-false,
}
use tenara.Bytes.{Bytes, codes, same}
use tenara.Orchestrator.Deploy.{Time}

pub record Row : Type 0 where
  pub request_hash : Bytes
  pub response_status : Option ℕ
  pub response_body : Bytes
  pub expires_at : Time

-- The table, by key and organization.
abbrev pub Table : Type 0
Table = String → String → Option Row

-- the row of one key is replaced
abbrev pub set_row : Table → String → String → Option Row → Table
set_row t key org row = λ k o. if k == key && o == org then row else t k o

-- the schema's default for expires_at, 24 hours
abbrev pub time_to_live : Time
time_to_live = 24 * 3600 * 10 ^ 9

abbrev is_expired : Time → Row → Bool
is_expired now row = leb row.expires_at now

abbrev pub unexpired : Time → Option Row → Option Row
unexpired now none = none
unexpired now (some row) = if is_expired now row then none else some row

abbrev pub fresh_row : Bytes → Time → Row
fresh_row hash now = record {
  request_hash = hash;
  response_status = none;
  response_body = [];
  expires_at = now + time_to_live;
}

-- INSERT .. ON CONFLICT DO NOTHING, over the row that is there
abbrev pub insert_row : Table → String → String → Bytes → Time → Option Row → Table × Bool
insert_row t key org hash now none = (set_row t key org (some (fresh_row hash now)), true)
insert_row t key org hash now (some row) = (t, false)

-- `ClaimIdempotency`, when the statements succeed: the expired row is deleted first
unfoldable pub claim_idempotency : Table → String → String → Bytes → Time → Table × Bool
claim_idempotency t key org hash now =
    let t' = set_row t key org (unexpired now (t key org)) in
    insert_row t' key org hash now (unexpired now (t key org))

pub data Problem : Type 0 where
  lookup_failed conflict in_flight : Problem

abbrev stored : Option ℕ → Bytes → Outcome Problem (ℕ × Bytes)
stored none body = err in_flight
stored (some status) body = ok (status, body)

abbrev loaded : Option Row → Bytes → Outcome Problem (ℕ × Bytes)
loaded none hash = err lookup_failed
loaded (some row) hash =
    if not (same row.request_hash hash)
    then err conflict
    else stored row.response_status row.response_body

unfoldable pub load_idempotent_response :
    Table → String → String → Bytes → Outcome Problem (ℕ × Bytes)
load_idempotent_response t key org hash = loaded (t key org) hash

abbrev or_empty_object : Bytes → Bytes
or_empty_object [] = codes "{}"
or_empty_object (c ∷ body) = c ∷ body

abbrev pub completed : ℕ → Bytes → Option Row → Option Row
completed status body none = none
completed status body (some row) =
    some (record row { response_status = some status; response_body = or_empty_object body })

unfoldable pub complete_idempotency : Table → String → String → ℕ → Bytes → Table
complete_idempotency t key org status body = set_row t key org (completed status body (t key org))

unfoldable pub cleanup_expired_idempotency : Table → Time → Table
cleanup_expired_idempotency t now = λ k o. unexpired now (t k o)

-- `none` for a body that cannot be read, and for a request without an identity
pub record Request : Type 0 where
  pub method : String
  pub path : String
  pub key : String
  pub org_id : Option String
  pub body : Option Bytes

abbrev pub is_mutating : String → Bool
is_mutating m = not (m == "GET") && not (m == "HEAD") && not (m == "OPTIONS")

-- `idem` up to the handler: either the request goes to the handler, with the key claimed for it or
-- without a key, or it is answered.
pub data Begin : Type 0 where
  plain : Begin
  claimed : String → String → Begin
  replayed : ℕ → Bytes → Begin
  refused : ℕ → Begin

abbrev problem_status : Problem → ℕ
problem_status lookup_failed = 500
problem_status conflict = 422
problem_status in_flight = 409

abbrev pub replay : Outcome Problem (ℕ × Bytes) → Begin
replay (ok (status, body)) = replayed status body
replay (err p) = refused (problem_status p)

abbrev pub begin_claim : Table → String → String → Bytes → Time → Table × Begin
begin_claim t key org hash now =
    let (t', first) = claim_idempotency t key org hash now in
    (t', if first then claimed key org else replay (load_idempotent_response t' key org hash))

abbrev pub begin_body :
    (Bytes → Bytes) → Table → Request → Time → String → Option Bytes → Table × Begin
begin_body digest t r now org none = (t, refused 400)
begin_body digest t r now org (some raw) =
    begin_claim t r.key org (digest (codes r.method ++ (codes r.path ++ raw))) now

abbrev pub begin_org : (Bytes → Bytes) → Table → Request → Time → Option String → Table × Begin
begin_org digest t r now none = (t, refused 401)
begin_org digest t r now (some org) = begin_body digest t r now org r.body

-- over the hexadecimal SHA-256 of a text
unfoldable pub begin_idem : (Bytes → Bytes) → Table → Request → Time → Table × Begin
unfolding claim_idempotency load_idempotent_response
begin_idem digest t r now =
    if not (is_mutating r.method) || r.key == ""
    then (t, plain)
    else begin_org digest t r now r.org_id

-- `idem` after the handler has answered
unfoldable finish_idem : Table → Begin → ℕ → Bytes → Table
unfolding complete_idempotency
finish_idem t (claimed key org) status body = complete_idempotency t key org status body
finish_idem t plain status body = t
finish_idem t (replayed s b) status body = t
finish_idem t (refused s) status body = t
