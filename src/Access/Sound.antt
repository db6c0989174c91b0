-- ===== src/Access/Sound.antt =====
-- Who passes the authentication, and which roles pass.
use smart_parking_platform.Prelude.{
  ℕ, String, truthy, Option, none, some, Bool, true, false, ◌≡◌, refl, ap, sym, ◌∙◌, ◌⊎◌, inl, inr,
  arith, Bool-cases, Option-cases,
}
use smart_parking_platform.Access.Types.{
  UserRole, ApiKeyRow, TenantRow, UserRow, MembershipRow, Database, Claims, TokenData, jwt,
  TenantContext, pass,
}
use smart_parking_platform.Access.Keys.{
  active_keys, touch_key, info_of, matching_key, verify_api_key,
}
use smart_parking_platform.Access.Tenant.{
  role_of, tenant_row, user_row, membership_row, key_row, key_context, resolve_tenant_from_api_key,
  user_context, member_context, resolve_tenant_from_jwt, decode_access_token, from_credentials,
  from_api_key, get_current_tenant, or_401,
}

-- The context is that of an active user with an active membership in an active tenant, and its role
-- is the one that the database gives now.
pub record IsMember (c : TenantContext) (db : Database) : Type 0 where
  pub by_token : c.source ≡ jwt
  pub user : String
  pub user_entry : UserRow
  pub membership : MembershipRow
  pub tenant : TenantRow
  pub role : UserRole
  pub is_user : c.user_id ≡ some user
  pub in_users : user_row user db ≡ some user_entry
  pub user_active : user_entry.is_active ≡ true
  pub in_memberships : membership_row user c.tenant_id db ≡ some membership
  pub membership_active : membership.is_active ≡ true
  pub in_tenants : tenant_row c.tenant_id db ≡ some tenant
  pub tenant_active : tenant.is_active ≡ true
  pub has_role : c.user_role ≡ some role
  pub stored_role : role_of membership.role ≡ some role

resolve_tenant_from_jwt-IsMember :
    (d : TokenData) (db : Database) (c : TenantContext)
    → resolve_tenant_from_jwt d db ≡ some c
    → IsMember c db
unfolding resolve_tenant_from_jwt member_context user_context
resolve_tenant_from_jwt-IsMember d db c h = elim (Option-cases (user_row d.user_id db)) [
  | inl e ↦ ground (arith, e)
  | inr (u, eu) ↦ elim (Option-cases (membership_row d.user_id d.tenant_id db)) [
    | inl e ↦ ground (arith, eu, e)
    | inr (m, em) ↦ elim (Option-cases (tenant_row d.tenant_id db)) [
      | inl e ↦ ground (arith, eu, em, e)
      | inr (t, et) ↦ elim (Option-cases (role_of m.role)) [
        | inl e ↦ ground (arith, eu, em, et, e)
        | inr (role, er) ↦
            let same : c ≡ user_context d t role = ground (arith, eu, em, et, er) in
            rw same (record {
              by_token = refl;
              user = d.user_id;
              user_entry = u;
              membership = m;
              tenant = t;
              role = role;
              is_user = refl;
              in_users = eu;
              user_active = ground (arith, eu, em, et, er);
              in_memberships = em;
              membership_active = ground (arith, eu, em, et, er);
              in_tenants = et;
              tenant_active = ground (arith, eu, em, et, er);
              has_role = refl;
              stored_role = er;
            })
      ]
    ]
  ]
]

-- The context is that of an active key of an active tenant, which bcrypt accepts for the header.
pub record IsKeyHolder (checkpw : String → String → Option Bool) (key : String) (c : TenantContext)
    (before after : Database) : Type 0 where
  pub accepted : ApiKeyRow
  pub row : ApiKeyRow
  pub tenant : TenantRow
  pub matched : matching_key checkpw key (active_keys before) ≡ some accepted
  pub in_keys : key_row accepted.id after ≡ some row
  pub in_tenants : tenant_row row.tenant_id after ≡ some tenant
  pub tenant_active : tenant.is_active ≡ true
  pub is_context : c ≡ key_context accepted.id row tenant

module _ (jwt_decode : ℕ → String → Option Claims) (checkpw : String → String → Option Bool) where
  from_credentials-IsMember :
      (now : ℕ) (credentials : Option String) (db : Database) (c : TenantContext)
      → from_credentials jwt_decode checkpw now credentials db ≡ some c
      → IsMember c db
  unfolding from_credentials
  from_credentials-IsMember now none db c h = ground arith
  from_credentials-IsMember now (some token) db c h =
      elim (Option-cases (decode_access_token jwt_decode checkpw now token)) [
        | inl e ↦ ground (arith, e)
        | inr (d, e) ↦ resolve_tenant_from_jwt-IsMember d db c (ground (arith, e))
      ]

  resolve_tenant_from_api_key-IsKeyHolder :
      (key : String) (k : ApiKeyRow) (before after : Database) (c : TenantContext)
      → matching_key checkpw key (active_keys before) ≡ some k
      → resolve_tenant_from_api_key (info_of k) after ≡ some c
      → IsKeyHolder checkpw key c before after
  unfolding resolve_tenant_from_api_key info_of
  resolve_tenant_from_api_key-IsKeyHolder key k before after c hit h =
      elim (Option-cases (key_row k.id after)) [
        | inl e ↦ ground (arith, e)
        | inr (row, er) ↦ elim (Option-cases (tenant_row row.tenant_id after)) [
          | inl e ↦ ground (arith, er, e)
          | inr (t, et) ↦ record {
            accepted = k;
            row = row;
            tenant = t;
            matched = hit;
            in_keys = er;
            in_tenants = et;
            tenant_active = ground (arith, er, et);
            is_context = ground (arith, er, et);
          }
        ]
      ]

  unaccepted_key :
      (now : ℕ) (key : String) (db : Database)
      → matching_key checkpw key (active_keys db) ≡ none
      → (from_api_key jwt_decode checkpw now (some key) db).0 ≡ none
  unfolding from_api_key verify_api_key
  unaccepted_key now key db e = ground (arith, e)

  empty_key :
      (now : ℕ) (key : String) (db : Database)
      → truthy key ≡ false
      → (from_api_key jwt_decode checkpw now (some key) db).0 ≡ none
  unfolding from_api_key
  empty_key now key db e = ground (arith, e)

  accepted_key :
      (now : ℕ) (key : String) (k : ApiKeyRow) (db : Database)
      → truthy key ≡ true
      → matching_key checkpw key (active_keys db) ≡ some k
      → from_api_key jwt_decode checkpw now (some key) db
        ≡ (resolve_tenant_from_api_key (info_of k) (touch_key now k.id db), touch_key now k.id db)
  unfolding from_api_key verify_api_key
  accepted_key now key k db t e = ground (arith, t, e)

  from_api_key-IsKeyHolder :
      (now : ℕ) (key : String) (db : Database) (c : TenantContext)
      → (from_api_key jwt_decode checkpw now (some key) db).0 ≡ some c
      → IsKeyHolder checkpw key c db (from_api_key jwt_decode checkpw now (some key) db).1
  from_api_key-IsKeyHolder now key db c h = elim (Bool-cases (truthy key)) [
    | inl t ↦ elim (Option-cases (matching_key checkpw key (active_keys db))) [
      | inl e ↦ ground (arith, unaccepted_key now key db e)
      | inr (k, e) ↦
          let ran = accepted_key now key k db t e in
          rw ran (
            resolve_tenant_from_api_key-IsKeyHolder key k db (touch_key now k.id db) c e
              (sym (ap (λ x. x.0) ran) ∙ h))
    ]
    | inr f ↦ ground (arith, empty_key now key db f)
  ]

  by_credentials :
      (now : ℕ) (key credentials : Option String) (db : Database) (c : TenantContext)
      → from_credentials jwt_decode checkpw now credentials db ≡ some c
      → get_current_tenant jwt_decode checkpw now key credentials db ≡ (pass c, db)
  unfolding get_current_tenant
  by_credentials now key credentials db c e = ground (arith, e)

  by_key :
      (now : ℕ) (key credentials : Option String) (db : Database)
      → from_credentials jwt_decode checkpw now credentials db ≡ none
      → get_current_tenant jwt_decode checkpw now key credentials db ≡ (
        or_401 jwt_decode checkpw (from_api_key jwt_decode checkpw now key db).0,
        (from_api_key jwt_decode checkpw now key db).1,
      )
  unfolding get_current_tenant
  by_key now key credentials db e = ground (arith, e)

  passed_context :
      (o : Option TenantContext) (c : TenantContext)
      → or_401 jwt_decode checkpw o ≡ pass c
      → o ≡ some c
  passed_context none c h = ground arith
  passed_context (some c') c h = ground arith

  key_passes :
      (now : ℕ) (key : Option String) (db : Database) (c : TenantContext)
      → (from_api_key jwt_decode checkpw now key db).0 ≡ some c
      → (k : String) × (key ≡ some k)
        × IsKeyHolder checkpw k c db (from_api_key jwt_decode checkpw now key db).1
  key_passes now none db c h = unfold from_api_key in ground arith
  key_passes now (some k) db c h = (k, refl, from_api_key-IsKeyHolder now k db c h)

  -- A request passes the authentication only as an active member of an active tenant, with the role
  -- that the database gives at that time, or with an accepted, active key of an active tenant.
  pub get_current_tenant_sound :
      (now : ℕ) (key credentials : Option String) (db : Database) (c : TenantContext)
      → (get_current_tenant jwt_decode checkpw now key credentials db).0 ≡ pass c
      → IsMember c db
        ⊎ ((k : String) × (key ≡ some k)
            × IsKeyHolder checkpw k c db
                (get_current_tenant jwt_decode checkpw now key credentials db).1)
  get_current_tenant_sound now key credentials db c h =
      elim (Option-cases (from_credentials jwt_decode checkpw now credentials db)) [
        | inr (d, e) ↦ inl (
            from_credentials-IsMember now credentials db c
              (ground (arith, e, by_credentials now key credentials db d e)))
        | inl e ↦
            let ran = by_key now key credentials db e in
            inr (
              rw ran (
                key_passes now key db c (
                  passed_context (from_api_key jwt_decode checkpw now key db).0 c
                    (sym (ap (λ x. x.0) ran) ∙ h))))
      ]
