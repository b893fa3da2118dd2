-- ===== src/Accounts/Members/Gate.antt =====
-- Who passes the gate of a capability.
use tenara.Prelude.{
  String, ◌≡◌, refl, sym, ap, ◌∙◌, subst, Bool, true, false, not, Option, none, some, if◌then◌else◌,
  nat_Eq, string_Eq, int_Eq,
}
use tenara.Bytes.{Bytes}
use tenara.Rbac.{Role, Capability, can}
use tenara.Prelude.{find, Member, here, there, List, [], ◌∷◌, text_iff, ◌⊎◌, inl, inr, arith}
use tenara.Bytes.{codes, cut_prefix, has_prefix}
use tenara.Accounts.Members.{
  Membership, ApiToken, live_token, token_identity, session_identity, bearer_identity, with_org,
  default_org_for_user, is_member, role_of,
}
use tenara.Accounts.Members.{
  Directory, Identity, World, resolve_bearer, role_in_org, Gated, forbidden, admitted, gate_role,
  gate_identity, require_cap,
}

some-injective : {A : Type 0} {x y : A} → ◌≡◌ {A = Option A} (some x) (some y) → x ≡ y
some-injective h = cc

by_role :
    (needed : Capability) (j : Identity) (o : Option Role) {i : Identity} {role : Role}
    → gate_role needed j o ≡ admitted i role
    → (j ≡ i) × (o ≡ some role) × (can role needed ≡ true)
by_role needed j none h = cc
by_role needed j (some r) h = by_test (can r needed) refl h
  where
    by_test :
        (b : Bool) {i : Identity} {role : Role}
        → can r needed ≡ b
        → (if not b then forbidden else admitted j r) ≡ admitted i role
        → (j ≡ i) × (◌≡◌ {A = Option Role} (some r) (some role)) × (can role needed ≡ true)
    by_test true e h = (cc, cc, subst (λ x. can x needed ≡ true) (same_role h) e)
      where
        same_role : {i j : Identity} {r q : Role} → admitted i r ≡ admitted j q → r ≡ q
        same_role h = cc
    by_test false e h = cc

gated_role :
    (w : World) (d : Directory) (authz : Bytes) (override id : String) (needed : Capability)
    {d' : Directory} {i : Identity} {role : Role}
    → require_cap w d authz override id needed ≡ (d', admitted i role)
    → (resolve_bearer w d authz override id ≡ (d', some i))
      × (role_in_org d' i.user_id i.org_id ≡ some role)
      × (can role needed ≡ true)
unfolding require_cap
gated_role w d authz override id needed h = by_identity (resolve_bearer w d authz override id) h
  where
    by_identity :
        (r : Directory × Option Identity) {d' : Directory} {i : Identity} {role : Role}
        → ◌≡◌ {A = Directory × Gated} (r.0, gate_identity r.0 needed r.1) (d', admitted i role)
        → (r ≡ (d', some i))
          × (role_in_org d' i.user_id i.org_id ≡ some role)
          × (can role needed ≡ true)
    by_identity (e, none) h = cc
    by_identity (e, some j) {d'} {i} {role} h =
        let s : e ≡ d' = ap (λ x. x.0) h in
        let (q, o, c) = by_role needed j (role_in_org e j.user_id j.org_id) (ap (λ x. x.1) h) in
        (
          cc,
          ap (λ x. role_in_org x i.user_id i.org_id) (sym s)
              ∙ ap (λ x. role_in_org e x.user_id x.org_id) (sym q)
              ∙ o,
          c,
        )

find_Member :
    {A : Type 0} (p : A → Bool) (xs : List A) {x : A}
    → find p xs ≡ some x
    → Member x xs × (p x ≡ true)
unfolding find
find_Member p [] h = cc
find_Member p (y ∷ xs) {x} h = by_test (λ g. find_Member p xs g) (p y) refl h
  where
    by_test :
        (find p xs ≡ some x → Member x xs × (p x ≡ true))
        → (b : Bool) → p y ≡ b
        → (if b then some y else find p xs) ≡ some x
        → Member x (y ∷ xs) × (p x ≡ true)
    by_test rest true e h =
        let q : y ≡ x = some-injective h in
        (subst (λ z. Member z (y ∷ xs)) q here, ap p (sym q) ∙ e)
    by_test rest false e h = let (m, k) = rest h in (there m, k)

-- a membership of the user in the organization, with the role, is in the table
abbrev pub Belongs : Directory → Identity → Role → Type 0
Belongs d i role =
    (m : Membership) × Member m d.organization_members
    × (m.user_id ≡ i.user_id)
    × (m.org_id ≡ i.org_id)
    × (m.role ≡ role)

-- the bearer token is a session of the user, or an API token of the user for the organization that is
-- in the table and not revoked
abbrev pub Authentic : World → Directory → Bytes → Identity → Type 0
Authentic w d authz i =
    (raw : Bytes) × (cut_prefix (codes "Bearer ") authz ≡ some raw)
    × ((w.parse_jwt raw ≡ some i.user_id)
        ⊎ ((t : ApiToken) × Member t d.api_tokens
            × (t.token_hash ≡ w.hash raw)
            × (t.revoked ≡ false)
            × (t.created_by ≡ i.user_id)
            × (t.org_id ≡ i.org_id)))

role_Belongs :
    (d : Directory) (i : Identity) (role : Role)
    → role_in_org d i.user_id i.org_id ≡ some role
    → Belongs d i role
unfolding role_in_org
role_Belongs d i role h = by_row (find (is_member i.user_id i.org_id) d.organization_members) refl h
  where
    by_row :
        (o : Option Membership)
        → find (is_member i.user_id i.org_id) d.organization_members ≡ o
        → role_of o ≡ some role
        → Belongs d i role
    by_row none f h = cc
    by_row (some m) f h =
        let (k, e) = find_Member (is_member i.user_id i.org_id) d.organization_members f in
        (
          m,
          k,
          (text_iff m.user_id i.user_id).0 (ground arith),
          (text_iff m.org_id i.org_id).0 (ground arith),
          some-injective h,
        )

token_Authentic :
    (w : World) (d : Directory) (raw : Bytes) (o : Option ApiToken) {i : Identity}
    → find (live_token (w.hash raw)) d.api_tokens ≡ o
    → token_identity o ≡ some i
    → (t : ApiToken) × Member t d.api_tokens
      × (t.token_hash ≡ w.hash raw)
      × (t.revoked ≡ false)
      × (t.created_by ≡ i.user_id)
      × (t.org_id ≡ i.org_id)
token_Authentic w d raw none f h = cc
token_Authentic w d raw (some t) f h =
    let (k, e) = find_Member (live_token (w.hash raw)) d.api_tokens f in
    let q = some-injective h in
    (
      t,
      k,
      (text_iff t.token_hash (w.hash raw)).0 (ground arith),
      ground arith,
      ap (λ x. x.user_id) q,
      ap (λ x. x.org_id) q,
    )

session_user :
    (w : World) (d : Directory) (override id : String) (o : Option String) {d' : Directory}
    {i : Identity}
    → session_identity w d override id o ≡ (d', some i)
    → o ≡ some i.user_id
session_user w d override id none h = cc
session_user w d override id (some user) {d'} {i} h = by_org (default_org_for_user w.lt d user id) h
  where
    by_org :
        (r : Directory × Option String)
        → with_org user override r ≡ (d', some i)
        → ◌≡◌ {A = Option String} (some user) (some i.user_id)
    by_org (e, none) h = cc
    by_org (e, some org) h = ap (λ x. some x.user_id) (some-injective (ap (λ x. x.1) h))

bearer_Authentic :
    (w : World) (d : Directory) (authz : Bytes) (override id : String) {d' : Directory}
    {i : Identity}
    → resolve_bearer w d authz override id ≡ (d', some i)
    → Authentic w d authz i
unfolding resolve_bearer
bearer_Authentic w d authz override id {d'} {i} h =
    by_raw (cut_prefix (codes "Bearer ") authz) refl h
  where
    by_prefix :
        (raw : Bytes) (b : Bool)
        → (if b
            then (d, token_identity (find (live_token (w.hash raw)) d.api_tokens))
            else session_identity w d override id (w.parse_jwt raw))
          ≡ (d', some i)
        → (w.parse_jwt raw ≡ some i.user_id)
          ⊎ ((t : ApiToken) × Member t d.api_tokens
              × (t.token_hash ≡ w.hash raw)
              × (t.revoked ≡ false)
              × (t.created_by ≡ i.user_id)
              × (t.org_id ≡ i.org_id))
    by_prefix raw true h = inr (
        token_Authentic w d raw (find (live_token (w.hash raw)) d.api_tokens) refl
          (ap (λ x. x.1) h))
    by_prefix raw false h = inl (session_user w d override id (w.parse_jwt raw) h)

    by_raw :
        (o : Option Bytes)
        → cut_prefix (codes "Bearer ") authz ≡ o
        → bearer_identity w d override id o ≡ (d', some i)
        → Authentic w d authz i
    by_raw none e h = cc
    by_raw (some raw) e h = (raw, e, by_prefix raw (has_prefix (codes "tenara_") raw) h)

-- Who passes the gate is a member: a request that a capability's gate passes on to the handler carries a
-- bearer token that is a session of the user, or an API token of that user and organization which
-- is stored and not revoked; and the table has a membership of that user in that organization,
-- whose role the gate hands on and holds the capability. This is for every header X-Tenara-Org.
pub gate_sound :
    (w : World) (d : Directory) (authz : Bytes) (override id : String) (needed : Capability)
    {d' : Directory} {i : Identity} {role : Role}
    → require_cap w d authz override id needed ≡ (d', admitted i role)
    → Authentic w d authz i × Belongs d' i role × (can role needed ≡ true)
gate_sound w d authz override id needed {d'} {i} {role} h =
    let (r, m, c) = gated_role w d authz override id needed h in
    (bearer_Authentic w d authz override id r, role_Belongs d' i role m, c)
