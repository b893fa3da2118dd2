-- ===== src/Rbac.antt =====
-- control-plane/internal/rbac/rbac.go: roles, capabilities and the grant table.
pub mod Grants
pub mod Tests
use tenara.Prelude.{
  ℕ, zero, suc, ◌+◌, ◌-◌, ◌*◌, ◌/◌, ◌%◌, ◌^◌, ◌≤◌, ◌<◌, String, ◌≡◌, refl, sym, ap, ◌∙◌, subst, ◌≢◌,
  ◌↔◌, ◌⊎◌, inl, inr, Bool, true, false, not, ◌&&◌, ◌||◌, Option, none, some, List, [], ◌∷◌, ◌++◌,
  map, arith, ltb, leb, nat_eq, if◌then◌else◌, ltb→lt, ltb→ge, leb→le, leb→gt, nat_eq_iff, Eq, ◌==◌,
  nat_Eq, string_Eq, text_iff, text_refl, text_ne, Bool-cases, Option-cases, text-cases, is_some,
  length, any, all, length-append, Member, here, there, All, All-Member, Map, get, remove, put,
  keys, get-remove, get-put, map_laws, all-get, get_or, Outcome, ok, err, ◌>>=◌, ◌>>◌, require,
  refuse, >>=-eq-ok, is_ok, ok-injective, all-Member, tests, ℤ, pos, negsuc, lt_ℤ, int_Eq, int_iff,
  All-of_all, all-of_All, any_Member, any-false,
}

abbrev pub Capability : Type 0
Capability = String

abbrev pub Role : Type 0
Role = String

abbrev app_create : Capability
app_create = "app:create"

abbrev app_read : Capability
app_read = "app:read"

abbrev pub app_deploy : Capability
app_deploy = "app:deploy"

abbrev app_rollback : Capability
app_rollback = "app:rollback"

abbrev app_delete : Capability
app_delete = "app:delete"

abbrev database_create : Capability
database_create = "database:create"

abbrev database_delete : Capability
database_delete = "database:delete"

abbrev secret_write : Capability
secret_write = "secret:write"

abbrev pub secret_reveal : Capability
secret_reveal = "secret:reveal"

abbrev domain_bind : Capability
domain_bind = "domain:bind"

abbrev pub member_invite : Capability
member_invite = "member:invite"

abbrev pub admin_user_manage : Capability
admin_user_manage = "admin:user:manage"

abbrev pub admin_quota_manage : Capability
admin_quota_manage = "admin:quota:manage"

abbrev pub admin_cluster_read : Capability
admin_cluster_read = "admin:cluster:read"

abbrev pub admin_security_read : Capability
admin_security_read = "admin:security:read"

abbrev pub billing_manage : Capability
billing_manage = "billing:manage"

abbrev pub platform_admin : Role
platform_admin = "platform_admin"

abbrev pub workspace_admin : Role
workspace_admin = "workspace_admin"

abbrev pub developer : Role
developer = "developer"

abbrev pub member : Role
member = "member"

abbrev pub viewer : Role
viewer = "viewer"

abbrev pub billing_admin : Role
billing_admin = "billing_admin"

abbrev pub security_admin : Role
security_admin = "security_admin"

abbrev pub all_capabilities : List Capability
all_capabilities =
    app_create ∷ app_read ∷ app_deploy ∷ app_rollback ∷ app_delete ∷ database_create
    ∷ database_delete ∷ secret_write ∷ secret_reveal ∷ domain_bind ∷ member_invite
    ∷ admin_user_manage ∷ admin_quota_manage ∷ admin_cluster_read ∷ admin_security_read
    ∷ billing_manage ∷ []

abbrev pub all_roles : List Role
all_roles =
    platform_admin ∷ workspace_admin ∷ developer ∷ member ∷ viewer ∷ billing_admin ∷ security_admin
    ∷ []

-- the sets of the source, each as the list of its members
abbrev pub role_capabilities : Map (List Capability)
role_capabilities =
    (platform_admin, all_capabilities)
    ∷ (
      workspace_admin,
      app_create ∷ app_read ∷ app_deploy ∷ app_rollback ∷ app_delete ∷ database_create
          ∷ database_delete ∷ secret_write ∷ secret_reveal ∷ domain_bind ∷ member_invite ∷ [],
    )
    ∷ (
      member,
      app_create ∷ app_read ∷ app_deploy ∷ app_rollback ∷ database_create ∷ secret_write
          ∷ domain_bind ∷ [],
    )
    ∷ (
      developer,
      app_create ∷ app_read ∷ app_deploy ∷ app_rollback ∷ app_delete ∷ database_create
          ∷ database_delete ∷ secret_write ∷ domain_bind ∷ [],
    )
    ∷ (viewer, app_read ∷ [])
    ∷ (billing_admin, app_read ∷ billing_manage ∷ [])
    ∷ (security_admin, app_read ∷ admin_security_read ∷ [])
    ∷ []

unfoldable pub holds : List Capability → Capability → Bool
holds [] c = false
holds (d ∷ caps) c = d == c || holds caps c

unfoldable pub can : Role → Capability → Bool
unfolding holds get
can role capability = holds (get_or role_capabilities role []) capability

unfoldable pub is_valid_role : Role → Bool
unfolding get
is_valid_role role = is_some (get role_capabilities role)
