-- ===== src/Accounts/Members.antt =====
-- control-plane/internal/auth/members.go and handler.go: the identity of a request, the gate of a
-- capability, and the members of an organization. A JWT is parsed by an argument. Of an organization only
-- its id is modelled, and the security event of a refusal is not.
pub mod Gate
pub mod Invite
use tenara.Prelude.{
  ℕ, zero, suc, ◌+◌, ◌-◌, ◌*◌, ◌/◌, ◌%◌, ◌^◌, ◌≤◌, ◌<◌, String, ◌≡◌, refl, sym, ap, ◌∙◌, subst, ◌≢◌,
  ◌↔◌, ◌⊎◌, inl, inr, Bool, true, false, not, ◌&&◌, ◌||◌, Option, none, some, List, [], ◌∷◌, ◌++◌,
  map, arith, ltb, leb, nat_eq, if◌then◌else◌, ltb→lt, ltb→ge, leb→le, leb→gt, nat_eq_iff, Eq, ◌==◌,
  nat_Eq, string_Eq, text_iff, text_refl, text_ne, Bool-cases, Option-cases, text-cases, is_some,
  length, any, all, length-append, Member, here, there, All, All-Member, Map, get, remove, put,
  keys, get-remove, get-put, map_laws, all-get, get_or, get-put_self, get-put_ne, Outcome, ok, err,
  ◌>>=◌, ◌>>◌, require, refuse, >>=-eq-ok, is_ok, is_ok-then, ok-injective, all-Member, all-append,
  is_nonempty, is_nonempty-append, tests, ℤ, pos, negsuc, lt_ℤ, int_Eq, int_iff, All-of_all,
  all-of_All, any_Member, any-false,
}
use tenara.Prelude.{find, select, update_where}
use tenara.Bytes.{Bytes, codes, cut_prefix, has_prefix}
use tenara.Rbac.{Role, Capability, can, is_valid_role, platform_admin, workspace_admin, member}
use tenara.Accounts.{User, has_email, new_user}

pub record Membership : Type 0 where
  pub user_id : String
  pub org_id : String
  pub role : Role

pub record ApiToken : Type 0 where
  pub created_by : String
  pub org_id : String
  pub token_hash : String
  pub revoked : Bool

pub record Directory : Type 0 where
  pub users : List User
  pub organizations : List String
  pub organization_members : List Membership
  pub api_tokens : List ApiToken

pub record Identity : Type 0 where
  pub user_id : String
  pub org_id : String
  pub actor_type : String

-- the first in the order of the roles, over the order of texts
abbrev comes_first : (String → String → Bool) → Membership → Option Membership → Bool
comes_first lt m none = true
comes_first lt m (some n) = not (lt n.role m.role)

unfoldable pub first_membership :
    (String → String → Bool) → String → List Membership → Option Membership
first_membership lt user [] = none
first_membership lt user (m ∷ ms) =
    let rest = first_membership lt user ms in
    if m.user_id == user && comes_first lt m rest then some m else rest

abbrev create_workspace : Directory → String → String → Bool → Directory × Option String
create_workspace d user id false = (d, none)
create_workspace d user id true = (
  record d {
    organizations = id ∷ d.organizations;
    organization_members =
        record { user_id = user; org_id = id; role = workspace_admin } ∷ d.organization_members;
  },
  some id,
)

abbrev org_or_new : Directory → String → String → Option Membership → Directory × Option String
org_or_new d user id (some m) = (d, some m.org_id)
org_or_new d user id none = create_workspace d user id (any (λ u. u.id == user) d.users)

-- `DefaultOrgForUser`, with the id of a new workspace
unfoldable pub default_org_for_user :
    (String → String → Bool) → Directory → String → String → Directory × Option String
unfolding first_membership
default_org_for_user lt d user id =
    org_or_new d user id (first_membership lt user d.organization_members)

abbrev pub live_token : String → ApiToken → Bool
live_token hash t = t.token_hash == hash && not t.revoked

abbrev pub token_identity : Option ApiToken → Option Identity
token_identity none = none
token_identity (some t) =
    some (record { user_id = t.created_by; org_id = t.org_id; actor_type = "user" })

abbrev pub override_org : String → String → String
override_org override org = if not (override == "") && not (override == org) then override else org

abbrev pub with_org : String → String → Directory × Option String → Directory × Option Identity
with_org user override (d, none) = (d, none)
with_org user override (d, some org) =
    (d, some (record { user_id = user; org_id = override_org override org; actor_type = "user" }))

-- what the checks of a request go over: the hash of an API token, the parser of JWTs and the order of
-- texts
pub record World : Type 0 where
  pub hash : Bytes → String
  pub parse_jwt : Bytes → Option String
  pub lt : String → String → Bool

abbrev pub session_identity :
    World → Directory → String → String → Option String → Directory × Option Identity
session_identity w d override id none = (d, none)
session_identity w d override id (some user) =
    with_org user override (default_org_for_user w.lt d user id)

abbrev pub bearer_identity :
    World → Directory → String → String → Option Bytes → Directory × Option Identity
bearer_identity w d override id none = (d, none)
bearer_identity w d override id (some raw) =
    if has_prefix (codes "tenara_") raw
    then (d, token_identity (find (live_token (w.hash raw)) d.api_tokens))
    else session_identity w d override id (w.parse_jwt raw)

-- over the headers Authorization and X-Tenara-Org
unfoldable pub resolve_bearer :
    World → Directory → Bytes → String → String → Directory × Option Identity
unfolding cut_prefix has_prefix find default_org_for_user
resolve_bearer w d authz override id =
    bearer_identity w d override id (cut_prefix (codes "Bearer ") authz)

abbrev pub is_member : String → String → Membership → Bool
is_member user org m = m.user_id == user && m.org_id == org

abbrev pub role_of : Option Membership → Option Role
role_of none = none
role_of (some m) = some m.role

unfoldable pub role_in_org : Directory → String → String → Option Role
unfolding find
role_in_org d user org = role_of (find (is_member user org) d.organization_members)

-- what the gate does with a request
pub data Gated : Type 0 where
  unauthorized forbidden : Gated
  admitted : Identity → Role → Gated

abbrev pub gate_role : Capability → Identity → Option Role → Gated
gate_role needed i none = forbidden
gate_role needed i (some role) = if not (can role needed) then forbidden else admitted i role

abbrev pub gate_identity : Directory → Capability → Option Identity → Gated
gate_identity d needed none = unauthorized
gate_identity d needed (some i) = gate_role needed i (role_in_org d i.user_id i.org_id)

-- `requireCap`, inside `authenticated`
unfoldable pub require_cap :
    World → Directory → Bytes → String → String → Capability → Directory × Gated
unfolding resolve_bearer role_in_org can
require_cap w d authz override id needed =
    let (d', ident) = resolve_bearer w d authz override id in (d', gate_identity d' needed ident)

-- the constraint on the column
abbrev pub is_stored_role : Role → Bool
is_stored_role r = r == platform_admin || r == workspace_admin || r == member

abbrev pub set_role : Role → Membership → Membership
set_role role m = record m { role = role }

-- INSERT .. ON CONFLICT (user_id, org_id) DO UPDATE SET role
unfoldable pub upsert_member : List Membership → String → String → Role → List Membership
unfolding update_where
upsert_member ms user org role =
    if any (is_member user org) ms
    then update_where (is_member user org) (set_role role) ms
    else record { user_id = user; org_id = org; role = role } ∷ ms

-- the two statements of the transaction, which a role that the column refuses rolls back
abbrev pub invite_user :
    Directory → Directory → String → String → Role → Bool → Directory × Option (String × Bool)
invite_user d d' user org role created =
    if is_stored_role role
    then (
      record d' { organization_members = upsert_member d'.organization_members user org role },
      some (user, created),
    )
    else (d, none)

abbrev pub invite_found :
    Directory
    → String
    → Bytes
    → Role
    → String
    → String
    → Option User
    → Directory × Option (String × Bool)
invite_found d org email role hash id (some u) = invite_user d d u.id org role false
invite_found d org email role hash id none =
    invite_user d (record d { users = new_user email hash id ∷ d.users }) id org role true

-- with the hash of a password that is drawn, and the id of a new user
unfoldable pub invite_member_by_email :
    Directory → String → Bytes → Role → String → String → Directory × Option (String × Bool)
unfolding find upsert_member
invite_member_by_email d org email role hash id =
    invite_found d org email role hash id (find (has_email email) d.users)

pub record InviteInput : Type 0 where
  pub email : Bytes
  pub role : Role

-- the status, and the user that a 201 names
abbrev pub Invited : Type 0
Invited = Directory × ℕ × Option (String × Bool)

abbrev pub invite_answer : Directory × Option (String × Bool) → Invited
invite_answer (d, none) = (d, 500, none)
invite_answer (d, some u) = (d, 201, some u)

abbrev pub invite_for : Directory → InviteInput → String → String → Option Identity → Invited
invite_for d i hash id none = (d, 401, none)
invite_for d i hash id (some ident) =
    invite_answer (invite_member_by_email d ident.org_id i.email i.role hash id)

abbrev pub invite_input :
    (Bytes → Bool) → Directory → Option Identity → String → String → Option InviteInput → Invited
invite_input is_address d ident hash id none = (d, 422, none)
invite_input is_address d ident hash id (some i) =
    if not (is_address i.email) || not (is_valid_role i.role)
    then (d, 422, none)
    else invite_for d i hash id ident

-- over mail.ParseAddress
unfoldable pub handle_invite_member :
    (Bytes → Bool) → Directory → Option Identity → Option InviteInput → String → String → Invited
unfolding invite_member_by_email is_valid_role
handle_invite_member is_address d ident input hash id =
    invite_input is_address d ident hash id input
