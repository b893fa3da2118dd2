-- ===== src/Rbac/Grants.antt =====
-- Who may do what: facts about the grant table, carried from its entries to every role and
-- capability.
use tenara.Prelude.{
  ◌≡◌, refl, inl, inr, Bool, true, not, ◌||◌, List, [], ◌∷◌, arith, ◌==◌, nat_Eq, string_Eq,
  text_iff, Option-cases, any, all, Map, get, all-get, get_or, int_Eq,
}
use tenara.Rbac
use tenara.Rbac.{
  Role, Capability, role_capabilities, all_capabilities, all_roles, holds, can, is_valid_role,
}

abbrev granted : (Role → Capability → Bool) → Map (List Capability) → Bool
granted p table = all (λ row. all (λ c. p row.0 c) row.1) table

holds_sound :
    (p : Capability → Bool) (caps : List Capability) (c : Capability)
    → all p caps ≡ true
    → holds caps c ≡ true
    → p c ≡ true
unfolding holds
holds_sound p [] c h k = cc
holds_sound p (d ∷ caps) c h k = ground (arith, text_iff d c, holds_sound p caps c)

rows_sound :
    (p : Role → Capability → Bool) (table : Map (List Capability)) (r : Role) (c : Capability)
    → granted p table ≡ true
    → holds (get_or table r []) c ≡ true
    → p r c ≡ true
unfolding holds
rows_sound p table r c h k = elim (Option-cases (get table r)) [
  | inl e ↦ ground (arith, e)
  | inr (caps, e) ↦
      holds_sound (p r) caps c (all-get (λ k cs. all (λ d. p k d) cs) table r caps h e)
        (ground (arith, e, k))
]

-- What holds of every entry of the table holds of every grant.
grant_sound :
    (p : Role → Capability → Bool) (r : Role) (c : Capability)
    → granted p role_capabilities ≡ true
    → can r c ≡ true
    → p r c ≡ true
unfolding can
grant_sound p r c h k = rows_sound p role_capabilities r c h k

-- The tiers include one another: what a viewer may do a member may do, what a member may do a
-- developer may do, then a workspace admin, then the platform admin; and the platform admin may do
-- all that any role may do.
pub tiers_include :
    (r : Role) (c : Capability)
    → can r c ≡ true
    → ((not (r == Rbac.viewer) || can Rbac.member c) ≡ true)
      × ((not (r == Rbac.member) || can Rbac.developer c) ≡ true)
      × ((not (r == Rbac.developer) || can Rbac.workspace_admin c) ≡ true)
      × (can Rbac.platform_admin c ≡ true)
unfolding can
tiers_include r c k = (
  grant_sound (λ q d. not (q == Rbac.viewer) || can Rbac.member d) r c refl k,
  grant_sound (λ q d. not (q == Rbac.member) || can Rbac.developer d) r c refl k,
  grant_sound (λ q d. not (q == Rbac.developer) || can Rbac.workspace_admin d) r c refl k,
  grant_sound (λ q d. can Rbac.platform_admin d) r c refl k,
)

-- The gated capabilities: secrets are revealed and members invited by the platform and workspace
-- admins alone, users, quotas and clusters are managed by the platform admin alone, the incident
-- surface is read by the platform and security admins alone, and spend is managed by the platform
-- and billing admins alone.
pub gated :
    (r : Role) (c : Capability)
    → can r c ≡ true
    → ((not (c == Rbac.secret_reveal || c == Rbac.member_invite)
          || (r == Rbac.platform_admin || r == Rbac.workspace_admin))
        ≡ true)
      × ((not (
              c == Rbac.admin_user_manage
              || c == Rbac.admin_quota_manage
              || c == Rbac.admin_cluster_read)
            || r == Rbac.platform_admin)
          ≡ true)
      × ((not (c == Rbac.admin_security_read)
            || (r == Rbac.platform_admin || r == Rbac.security_admin))
          ≡ true)
      × ((not (c == Rbac.billing_manage) || (r == Rbac.platform_admin || r == Rbac.billing_admin))
          ≡ true)
gated r c k = (
  grant_sound
      (λ q d.
        not (d == Rbac.secret_reveal || d == Rbac.member_invite)
        || (q == Rbac.platform_admin || q == Rbac.workspace_admin))
      r c refl k,
  grant_sound
      (λ q d.
        not (
          d == Rbac.admin_user_manage
          || d == Rbac.admin_quota_manage
          || d == Rbac.admin_cluster_read)
        || q == Rbac.platform_admin)
      r c refl k,
  grant_sound
      (λ q d.
        not (d == Rbac.admin_security_read)
        || (q == Rbac.platform_admin || q == Rbac.security_admin))
      r c refl k,
  grant_sound
      (λ q d.
        not (d == Rbac.billing_manage) || (q == Rbac.platform_admin || q == Rbac.billing_admin))
      r c refl k,
)

-- A grant names a valid role and a capability of the catalog, so an unknown role may do nothing.
grant_known :
    (r : Role) (c : Capability)
    → can r c ≡ true
    → (is_valid_role r ≡ true)
      × (any (λ q. q == r) all_roles ≡ true)
      × (holds all_capabilities c ≡ true)
unfolding holds is_valid_role
grant_known r c k = (
  grant_sound (λ q d. is_valid_role q) r c refl k,
  grant_sound (λ q d. any (λ x. x == q) all_roles) r c refl k,
  grant_sound (λ q d. holds all_capabilities d) r c refl k,
)
