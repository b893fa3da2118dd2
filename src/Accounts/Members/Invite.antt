-- ===== src/Accounts/Members/Invite.antt =====
-- Which invitations are accepted, and the role that they give.
use tenara.Prelude.{
  String, ◌≡◌, refl, sym, ap, ◌∙◌, inl, inr, Bool, true, false, Option, none, some, List, [], ◌∷◌,
  arith, if◌then◌else◌, ◌==◌, nat_Eq, string_Eq, text_refl, Bool-cases, any, int_Eq,
}
use tenara.Prelude.{find, update_where, find-update_where, find-holds}
use tenara.Bytes.{Bytes}
use tenara.Rbac.{Role, is_valid_role}
use tenara.Accounts.{User, has_email, new_user}
use tenara.Accounts.Members.{
  Directory, Identity, Membership, is_member, role_of, set_role, role_in_org, is_stored_role,
  upsert_member, invite_user, invite_found, invite_member_by_email, InviteInput, Invited,
  invite_answer, handle_invite_member,
}

any-find :
    (p : Membership → Bool) (ms : List Membership)
    → any p ms ≡ true
    → (m : Membership) × (find p ms ≡ some m)
unfolding find
any-find p [] h = cc
any-find p (m ∷ ms) h = elim (Bool-cases (p m)) [
  | inl e ↦ (m, rw e refl)
  | inr e ↦ let (n, f) = any-find p ms (ground arith) in (n, rw e f)
]

upserted :
    (ms : List Membership) (user org : String) (role : Role)
    → role_of (find (is_member user org) (upsert_member ms user org role)) ≡ some role
unfolding upsert_member find
upserted ms user org role = elim (Bool-cases (any (is_member user org) ms)) [
  | inl e ↦
      let (m, f) = any-find (is_member user org) ms e in
      let g : find (is_member user org) (update_where (is_member user org) (set_role role) ms)
          ≡ some (set_role role m) =
        find-update_where (is_member user org) (is_member user org) (set_role role) ms (λ x. refl)
        ∙ rw (f, find-holds (is_member user org) ms f) refl in
      rw e (ap role_of g)
  | inr e ↦ rw (e, text_refl user, text_refl org) refl
]

-- the status by the role, and what a success leaves
abbrev pub Answered : Directory → String → Role → Invited → Type 0
Answered d org role r =
    (r.1 ≡ (if is_stored_role role then 201 else 500))
    × ((u : String × Bool) → r.2 ≡ some u → role_in_org r.0 u.0 org ≡ some role)
    × ((r.1 == 201) ≡ false → r.0 ≡ d)

Answered-user :
    (d d' : Directory) (user org : String) (role : Role) (created : Bool)
    → Answered d org role (invite_answer (invite_user d d' user org role created))
unfolding role_in_org
Answered-user d d' user org role created = by_role (is_stored_role role) refl
  where
    done : Directory
    done = record d' { organization_members = upsert_member d'.organization_members user org role }

    named :
        (u : String × Bool)
        → ◌≡◌ {A = Option (String × Bool)} (some (user, created)) (some u)
        → user ≡ u.0
    named u h = ap (λ o. elim o [ none ↦ user | some v ↦ v.0 ]) h

    by_role :
        (b : Bool)
        → is_stored_role role ≡ b
        → Answered d org role
            (invite_answer (if b then (done, some (user, created)) else (d, none)))
    by_role true e = (
      rw e refl,
      λ u h.
          ap (λ x. role_of (find (is_member x org) done.organization_members)) (sym (named u h))
          ∙ upserted d'.organization_members user org role,
      λ h. cc,
    )
    by_role false e = (rw e refl, λ u h. cc, λ h. refl)

Answered-found :
    (d : Directory) (org : String) (email : Bytes) (role : Role) (hash id : String)
    (o : Option User)
    → Answered d org role (invite_answer (invite_found d org email role hash id o))
Answered-found d org email role hash id (some u) = Answered-user d d u.id org role false
Answered-found d org email role hash id none =
    Answered-user d (record d { users = new_user email hash id ∷ d.users }) id org role true

-- An invitation gives its role: for a caller with an identity, and an input whose address is one and whose
-- role is in the catalog of roles, the answer is 201 if the role is platform_admin, workspace_admin or
-- member, and 500 for every other role of the catalog. After a 201 the user that it names, who may
-- be the caller, has the role in the caller's organization; otherwise nothing has changed.
pub invited_role :
    (is_address : Bytes → Bool) (d : Directory) (ident : Identity) (i : InviteInput)
    (hash id : String)
    → is_address i.email ≡ true
    → is_valid_role i.role ≡ true
    → Answered d ident.org_id i.role
        (handle_invite_member is_address d (some ident) (some i) hash id)
unfolding handle_invite_member invite_member_by_email
invited_role is_address d ident i hash id a v =
    rw (a, v)
      (Answered-found d ident.org_id i.email i.role hash id (find (has_email i.email) d.users))
