-- ===== src/Access/Roles.antt =====
-- require_role of src/tenant_auth.py.
use smart_parking_platform.Prelude.{ℕ, Option, none, some, ltb, if◌then◌else◌}
use smart_parking_platform.Access.Types.{
  UserRole, platform_admin, owner, admin, operator, viewer, jwt, api_key, TenantContext, Outcome,
  pass, http_error,
}

-- role_hierarchy
unfoldable pub role_level : UserRole → Option ℕ
role_level viewer = some 1
role_level operator = some 2
role_level admin = some 3
role_level owner = some 4
role_level platform_admin = none

-- dict.get
abbrev pub level_or : ℕ → Option ℕ → ℕ
level_or d none = d
level_or d (some n) = n

-- The check of a user's role.
unfoldable pub check_user_role : UserRole → Option UserRole → TenantContext → Outcome TenantContext
check_user_role minimum none c = http_error 403
check_user_role minimum (some role) c =
    if ltb (level_or 0 (role_level role)) (level_or 999 (role_level minimum))
    then http_error 403
    else pass c

-- `require_role(minimum)`
unfoldable pub require_role : UserRole → TenantContext → Outcome TenantContext
require_role minimum c = elim c.source [
  | api_key ↦ pass c
  | jwt ↦ check_user_role minimum c.user_role c
]
