-- ===== src/Access/Tenant.antt =====
-- src/tenant_auth.py: the tenant of a request.
use smart_parking_platform.Prelude.{
  ℕ, String, text_eq, truthy, Option, none, some, Bool, ◌&&◌, first, if◌then◌else◌,
}
use smart_parking_platform.Access.Types.{
  UserRole, platform_admin, owner, admin, operator, viewer, ApiKeyInfo, ApiKeyRow, TenantRow,
  UserRow, MembershipRow, Database, Claims, TokenData, jwt, api_key, TenantContext, Outcome, pass,
  http_error,
}
use smart_parking_platform.Access.Keys.{verify_api_key}

-- `UserRole(text)`, which raises for any other text
unfoldable pub role_of : String → Option UserRole
role_of s =
    if text_eq s "platform_admin"
    then some platform_admin
    else if text_eq s "owner"
    then some owner
    else if text_eq s "admin"
    then some admin
    else if text_eq s "operator"
    then some operator
    else if text_eq s "viewer"
    then some viewer
    else none

-- The inner joins by the primary key of tenants and users.
unfoldable pub tenant_row : String → Database → Option TenantRow
tenant_row id db = first (λ t. text_eq t.id id) db.tenants

unfoldable pub user_row : String → Database → Option UserRow
user_row id db = first (λ u. text_eq u.id id) db.users

unfoldable pub membership_row : String → String → Database → Option MembershipRow
membership_row user tenant db =
    first (λ m. text_eq m.user_id user && text_eq m.tenant_id tenant) db.memberships

-- The key by its id, if it is active.
unfoldable pub key_row : String → Database → Option ApiKeyRow
key_row id db = first (λ k. text_eq k.id id && k.is_active) db.api_keys

unfoldable pub key_context : String → ApiKeyRow → TenantRow → TenantContext
key_context id k t = record {
  tenant_id = k.tenant_id;
  tenant_name = t.name;
  tenant_slug = t.slug;
  user_id = none;
  user_role = none;
  api_key_id = some id;
  api_key_scopes = k.scopes;
  source = api_key;
}

-- `resolve_tenant_from_api_key`
unfoldable pub resolve_tenant_from_api_key : ApiKeyInfo → Database → Option TenantContext
resolve_tenant_from_api_key i db = elim (key_row i.id db) [
  | none ↦ none
  | some k ↦ elim (tenant_row k.tenant_id db) [
    | none ↦ none
    | some t ↦ if t.is_active then some (key_context i.id k t) else none
  ]
]

unfoldable pub user_context : TokenData → TenantRow → UserRole → TenantContext
user_context d t role = record {
  tenant_id = d.tenant_id;
  tenant_name = t.name;
  tenant_slug = t.slug;
  user_id = some d.user_id;
  user_role = some role;
  api_key_id = none;
  api_key_scopes = none;
  source = jwt;
}

-- The checks on the joined row; an unknown role raises, which the method answers with None.
unfoldable pub member_context :
    TokenData → UserRow → MembershipRow → TenantRow → Option TenantContext
member_context d u m t =
    if u.is_active && m.is_active && t.is_active
    then (elim (role_of m.role) [ none ↦ none | some role ↦ some (user_context d t role) ])
    else none

-- `resolve_tenant_from_jwt`
unfoldable pub resolve_tenant_from_jwt : TokenData → Database → Option TenantContext
resolve_tenant_from_jwt d db = elim (user_row d.user_id db) [
  | none ↦ none
  | some u ↦ elim (membership_row d.user_id d.tenant_id db) [
    | none ↦ none
    | some m ↦ elim (tenant_row d.tenant_id db) [ none ↦ none | some t ↦ member_context d u m t ]
  ]
]

module _ (jwt_decode : ℕ → String → Option Claims) (checkpw : String → String → Option Bool) where
  -- `decode_access_token`. The library checks signature and expiry at this time, with the
  -- configured key; an unknown role raises, which is answered with None.
  unfoldable pub decode_access_token : ℕ → String → Option TokenData
  decode_access_token now token = elim (jwt_decode now token) [
    | none ↦ none
    | some c ↦ elim (role_of c.role) [
      | none ↦ none
      | some role ↦
          some (record { user_id = c.user_id; tenant_id = c.tenant_id; role = role; exp = c.exp })
    ]
  ]

  -- The JWT part of `get_current_tenant`.
  unfoldable pub from_credentials : ℕ → Option String → Database → Option TenantContext
  from_credentials now none db = none
  from_credentials now (some token) db =
      if truthy token
      then (elim (decode_access_token now token) [
        | none ↦ none
        | some d ↦ resolve_tenant_from_jwt d db
      ])
      else none

  -- The API key part, which marks the key as used.
  unfoldable pub from_api_key : ℕ → Option String → Database → Option TenantContext × Database
  from_api_key now none db = (none, db)
  from_api_key now (some key) db =
      let (info, db') = verify_api_key checkpw now key db in
      if truthy key
      then (elim info [ none ↦ (none, db') | some i ↦ (resolve_tenant_from_api_key i db', db') ])
      else (none, db)

  abbrev pub or_401 : Option TenantContext → Outcome TenantContext
  or_401 none = http_error 401
  or_401 (some c) = pass c

  -- `get_current_tenant`: the key is looked at only if the token yields nothing.
  unfoldable pub get_current_tenant :
      ℕ → Option String → Option String → Database → Outcome TenantContext × Database
  get_current_tenant now key credentials db = elim (from_credentials now credentials db) [
    | some c ↦ (pass c, db)
    | none ↦ let (context, db') = from_api_key now key db in (or_401 context, db')
  ]

  -- `get_optional_tenant`
  unfoldable pub get_optional_tenant :
      ℕ → Option String → Option String → Database → Option TenantContext × Database
  get_optional_tenant now key credentials db =
      let (outcome, db') = get_current_tenant now key credentials db in
      (elim outcome [ pass c ↦ some c | http_error status ↦ none ], db')
