-- ===== src/Accounts/Tests.antt =====
-- The theorems at concrete accounts.
use tenara.Prelude.{◌≡◌, refl, true, false, some, List, [], ◌∷◌, nat_Eq, string_Eq, int_Eq}
use tenara.Prelude.{find}
use tenara.Bytes.{codes}
use tenara.Orchestrator.Deploy.{Time}
use tenara.Rbac.{can, is_valid_role}
use tenara.Accounts.{User, Store, signups_per_window}
use tenara.Accounts.Tokens.{Op, store_op, consume_op}
use tenara.Accounts.Tokens
use tenara.Accounts.Signups.{accepted, at_most, five_signups}
use tenara.Accounts.Members.{
  Directory, Identity, World, require_cap, handle_invite_member, InviteInput,
}
use tenara.Accounts.Members.Gate.{Authentic, Belongs, gate_sound}
use tenara.Accounts.Members.Invite.{Answered, invited_role}

abbrev ada : User
ada = record { id = "u1"; email = codes "ada@x.org"; password_hash = "h"; email_verified = true }

abbrev accounts : Store
accounts = record {
  users = ada ∷ [];
  email_verifications = [];
  password_resets =
      record { token_hash = "t1"; user_id = "u1"; expires_at = 100; consumed = false } ∷ [];
  signup_rate_limits = [];
}

-- the same token stored again and used again, and another one
abbrev between : List (Time × Op)
between = (20, store_op "u1" "t1") ∷ (25, store_op "u1" "t2") ∷ (30, consume_op "t2" "h3") ∷ []

five_signups_example :
    accepted (λ ip. some ip) accounts "10.0.0.1" (1 ∷ 2 ∷ 3 ∷ 4 ∷ 5 ∷ 6 ∷ 7 ∷ [])
    ≡ at_most 7 signups_per_window
unfolding find
five_signups_example =
    five_signups (λ ip. some ip) accounts "10.0.0.1" "10.0.0.1" 1 (2 ∷ 3 ∷ 4 ∷ 5 ∷ 6 ∷ 7 ∷ []) refl
      refl refl

abbrev directory : Directory
directory = record {
  users = ada ∷ [];
  organizations = "o1" ∷ [];
  organization_members = record { user_id = "u1"; org_id = "o1"; role = "workspace_admin" } ∷ [];
  api_tokens = [];
}

-- every session is Ada's
abbrev sessions : World
sessions = record { hash = λ raw. ""; parse_jwt = λ raw. some "u1"; lt = λ a b. false }

abbrev ada_in_o1 : Identity
ada_in_o1 = record { user_id = "u1"; org_id = "o1"; actor_type = "user" }

gate_sound_example :
    Authentic sessions directory (codes "Bearer ey") ada_in_o1
    × Belongs directory ada_in_o1 "workspace_admin"
    × (can "workspace_admin" "member:invite" ≡ true)
unfolding require_cap
gate_sound_example =
    gate_sound sessions directory (codes "Bearer ey") "" "o9" "member:invite" {d' = directory}
      {i = ada_in_o1} {role = "workspace_admin"} refl

-- a workspace admin invites herself as a platform admin
abbrev herself : InviteInput
herself = record { email = codes "ADA@x.org"; role = "platform_admin" }

invited_role_example :
    Answered directory "o1" "platform_admin"
      (handle_invite_member (λ a. true) directory (some ada_in_o1) (some herself) "h9" "u9")
unfolding is_valid_role
invited_role_example = invited_role (λ a. true) directory ada_in_o1 herself "h9" "u9" refl refl
