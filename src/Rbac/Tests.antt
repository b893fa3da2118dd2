-- ===== src/Rbac/Tests.antt =====
-- The permission table at concrete grants.
use tenara.Prelude.{◌≡◌, refl, ◌||◌, true, not, ◌==◌, string_Eq, get}
use tenara.Rbac
use tenara.Rbac.{can, holds, all_capabilities, all_roles, is_valid_role}
use tenara.Rbac.Grants.{gated}

gated_example :
    ((not (Rbac.secret_reveal == Rbac.secret_reveal || Rbac.secret_reveal == Rbac.member_invite)
        || (Rbac.workspace_admin == Rbac.platform_admin
            || Rbac.workspace_admin == Rbac.workspace_admin))
      ≡ true)
    × ((not (
            Rbac.secret_reveal == Rbac.admin_user_manage
            || Rbac.secret_reveal == Rbac.admin_quota_manage
            || Rbac.secret_reveal == Rbac.admin_cluster_read)
          || Rbac.workspace_admin == Rbac.platform_admin)
        ≡ true)
    × ((not (Rbac.secret_reveal == Rbac.admin_security_read)
          || (Rbac.workspace_admin == Rbac.platform_admin
              || Rbac.workspace_admin == Rbac.security_admin))
        ≡ true)
    × ((not (Rbac.secret_reveal == Rbac.billing_manage)
          || (Rbac.workspace_admin == Rbac.platform_admin
              || Rbac.workspace_admin == Rbac.billing_admin))
        ≡ true)
unfolding can holds get
gated_example = gated Rbac.workspace_admin Rbac.secret_reveal refl
