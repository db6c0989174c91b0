-- ===== src/Accounts/Profile.antt =====
-- get_current_user_profile and get_current_tenant_info.
use smart_parking_platform.Prelude.{
  String, text_eq, List, [], ◌∷◌, Option, none, some, first, if◌then◌else◌,
}
use smart_parking_platform.Access.Types.{
  UserRole, platform_admin, owner, admin, operator, viewer, TenantRow, TenantContext, Outcome, pass,
  http_error,
}
use smart_parking_platform.Accounts.Types.{Account, AccountTables, TenantRole}
use smart_parking_platform.Accounts.Sessions.{fetch_tenants}

-- An entry of the profile.
pub record TenantInfo : Type 0 where
  pub id : String
  pub name : String
  pub slug : String
  pub role : String

pub record UserProfile : Type 0 where
  pub user : Account
  pub current_tenant : TenantInfo
  pub all_tenants : List TenantInfo

unfoldable pub tenant_info : TenantRole → TenantInfo
tenant_info t = record {
  id = t.tenant.id;
  name = t.tenant.name;
  slug = t.tenant.slug;
  role = t.role;
}

-- The loop: all entries, and the last one of the current tenant.
unfoldable pub collect :
    String → List TenantRole → Option TenantInfo → List TenantInfo × Option TenantInfo
collect tenant [] current = ([], current)
collect tenant (t ∷ ts) current =
    let (infos, found) =
      collect tenant ts (if text_eq t.tenant.id tenant then some (tenant_info t) else current) in
    (tenant_info t ∷ infos, found)

-- `user_role.value if user_role else "viewer"`
unfoldable pub role_text : Option UserRole → String
role_text none = "viewer"
role_text (some platform_admin) = "platform_admin"
role_text (some owner) = "owner"
role_text (some admin) = "admin"
role_text (some operator) = "operator"
role_text (some viewer) = "viewer"

-- The entry where the current tenant is not among the memberships.
unfoldable pub fallback_info : TenantContext → TenantInfo
fallback_info c = record {
  id = c.tenant_id;
  name = c.tenant_name;
  slug = c.tenant_slug;
  role = role_text c.user_role;
}

-- The row of the user; a request with an API key has none.
unfoldable pub fetch_user : Option String → AccountTables → Option Account
fetch_user none db = none
fetch_user (some id) db = first (λ u. text_eq u.row.id id) db.users

-- `get_current_user_profile`
unfoldable pub get_current_user_profile : TenantContext → AccountTables → Outcome UserProfile
get_current_user_profile c db = elim (fetch_user c.user_id db) [
  | none ↦ http_error 404
  | some u ↦
      let (infos, current) = collect c.tenant_id (fetch_tenants u.row.id db) none in
      pass (record {
        user = u;
        current_tenant = (elim current [ none ↦ fallback_info c | some t ↦ t ]);
        all_tenants = infos;
      })
]

-- `get_current_tenant_info`
unfoldable pub get_current_tenant_info : TenantContext → AccountTables → Outcome TenantRow
get_current_tenant_info c db = elim (first (λ t. text_eq t.id c.tenant_id) db.tenants) [
  | none ↦ http_error 404
  | some t ↦ pass t
]
