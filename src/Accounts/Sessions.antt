-- ===== src/Accounts/Sessions.antt =====
-- login, register and refresh_token. `lower` is str.lower, `checkpw` and `hash_password` are of
-- bcrypt, where `none` is an exception, and `jwt_encode` signs a payload with the configured key.
use smart_parking_platform.Prelude.{
  ℕ, ◌+◌, ◌*◌, ◌/◌, String, text_eq, text_append, List, [], ◌∷◌, ◌++◌, Option, none, some, Bool,
  true, false, ◌&&◌, leb, if◌then◌else◌, first, any, keep, rewrite,
}
use smart_parking_platform.Access.Types.{TenantRow, Claims, Outcome, pass, http_error}
use smart_parking_platform.Access.Tenant.{role_of}
use smart_parking_platform.Tokens.Types.{Client, Rotation, invalid, rotated, raised}
use smart_parking_platform.Tokens.Service.{create_refresh_token, validate_and_rotate}
use smart_parking_platform.Accounts.Types.{
  Account, Member, AccountTables, Registration, TenantRole, LoginResponse, RefreshResponse,
}

-- ORDER BY um.created_at ASC
unfoldable pub insert_older : Member → List Member → List Member
insert_older m [] = m ∷ []
insert_older m (n ∷ ns) =
    let rest = insert_older m ns in if leb m.created_at n.created_at then m ∷ n ∷ ns else n ∷ rest

unfoldable pub oldest_first : List Member → List Member
oldest_first [] = []
oldest_first (m ∷ ms) = insert_older m (oldest_first ms)

-- WHERE um.user_id = $1 AND um.is_active = true
abbrev pub active_member : String → Member → Bool
active_member user m = text_eq m.row.user_id user && m.row.is_active

-- tenants t, um.tenant_id = t.id AND t.is_active = true
abbrev pub active_tenant : String → TenantRow → Bool
active_tenant id t = text_eq t.id id && t.is_active

-- The join of memberships with their tenants.
unfoldable pub join_tenants : List Member → List TenantRow → List TenantRole
join_tenants [] tenants = []
join_tenants (m ∷ ms) tenants =
    let rest = join_tenants ms tenants in
    elim (first (active_tenant m.row.tenant_id) tenants) [
      | none ↦ rest
      | some t ↦ record { tenant = t; role = m.row.role } ∷ rest
    ]

-- The tenants of a user, the oldest membership first.
unfoldable pub fetch_tenants : String → AccountTables → List TenantRole
fetch_tenants user db =
    join_tenants (oldest_first (keep (active_member user) db.memberships)) db.tenants

-- JWT_ACCESS_TOKEN_EXPIRE_MINUTES, in seconds
abbrev pub access_token_lifetime : ℕ
access_token_lifetime = 60 * 24 * 60

-- The payload of `create_access_token`, for a host in UTC.
unfoldable pub access_claims : ℕ → String → String → String → Claims
access_claims now user tenant role = record {
  user_id = user;
  tenant_id = tenant;
  role = role;
  exp = now / 1000000 + access_token_lifetime;
}

-- `verify_password`
unfoldable pub verify_password : (String → String → Option Bool) → String → String → Bool
verify_password checkpw password hash = elim (checkpw password hash) [ none ↦ false | some b ↦ b ]

abbrev pub has_email : String → Account → Bool
has_email email u = text_eq u.email email

module _ (lower : String → String) (checkpw : String → String → Option Bool)
    (hash_password : String → String) (hash_token : String → String)
    (jwt_encode : Claims → String) where
  -- The tokens of a user whose first tenant is `t`; `UserRole(role)` may raise.
  unfoldable pub open_session :
      String
      → ℕ
      → String
      → Client
      → Account
      → TenantRole
      → List TenantRole
      → AccountTables
      → Outcome LoginResponse × AccountTables
  open_session token_id now fresh client u t ts db = elim (role_of t.role) [
    | none ↦ (http_error 500, db)
    | some role ↦
        let (token, tokens) =
          create_refresh_token hash_token token_id now fresh u.row.id client db.tokens in
        elim token [
          | none ↦ (http_error 500, record db { tokens = tokens })
          | some refresh ↦ (
            pass (record {
              access_token = jwt_encode (access_claims now u.row.id t.tenant.id t.role);
              refresh_token = refresh;
              expires_in = 15 * 60;
              refresh_expires_in = 30 * 24 * 60 * 60;
              user_id = u.row.id;
              tenants = t ∷ ts;
            }),
            record db {
              tokens = tokens;
              users =
                  rewrite (λ v. text_eq v.row.id u.row.id)
                    (λ v. record v { last_login_at = some now }) db.users;
            },
          )
        ]
  ]

  -- `login`, with the token to generate and the id of its row.
  unfoldable pub login :
      String
      → ℕ
      → String
      → Client
      → String
      → String
      → AccountTables
      → Outcome LoginResponse × AccountTables
  login token_id now fresh client email password db =
      elim (first (has_email (lower email)) db.users) [
        | none ↦ (http_error 401, db)
        | some u ↦
            if u.row.is_active
            then (if verify_password checkpw password u.password_hash
                then elim (fetch_tenants u.row.id db) [
                  | [] ↦ (http_error 403, db)
                  | t ∷ ts ↦ open_session token_id now fresh client u t ts db
                ]
                else (http_error 401, db))
            else (http_error 403, db)
      ]

  -- The four rows that `register` inserts in one transaction.
  unfoldable pub with_owner : String → String → ℕ → Registration → AccountTables → AccountTables
  with_owner user tenant now q db = record db {
    users =
        db.users
        ++ record {
          row = record { id = user; is_active = true };
          email = lower q.email;
          name = q.user_name;
          password_hash = hash_password q.password;
          last_login_at = none;
        }
          ∷ [];
    tenants =
        db.tenants
        ++ record { id = tenant; name = q.tenant_name; slug = lower q.slug; is_active = true } ∷ [];
    sites =
        db.sites
        ++ record {
          tenant_id = tenant;
          name = text_append q.tenant_name " - Main Site";
          timezone = "UTC";
        }
          ∷ [];
    memberships =
        db.memberships
        ++ record {
          row = record { user_id = user; tenant_id = tenant; role = "owner"; is_active = true };
          created_at = now;
        }
          ∷ [];
  }

  -- `register`, with the new ids; the answer is the id of the user.
  unfoldable pub register :
      String → String → ℕ → Registration → AccountTables → Outcome String × AccountTables
  register user tenant now q db =
      if any (has_email (lower q.email)) db.users
      then (http_error 400, db)
      else if any (λ t. text_eq t.slug (lower q.slug)) db.tenants
      then (http_error 400, db)
      else (pass user, with_owner user tenant now q db)

  -- The new access token of a rotation.
  unfoldable pub renewed : ℕ → String → String → List TenantRole → Outcome RefreshResponse
  renewed now user token [] = http_error 403
  renewed now user token (t ∷ ts) = elim (role_of t.role) [
    | none ↦ http_error 500
    | some role ↦ pass (record {
      access_token = jwt_encode (access_claims now user t.tenant.id t.role);
      refresh_token = token;
      expires_in = 15 * 60;
      refresh_expires_in = 30 * 24 * 60 * 60;
    })
  ]

  unfoldable pub after_rotation : ℕ → Rotation → AccountTables → Outcome RefreshResponse
  after_rotation now invalid db = http_error 401
  after_rotation now raised db = http_error 500
  after_rotation now (rotated user token) db = renewed now user token (fetch_tenants user db)

  -- `refresh_token`: the rotation comes first and stays whatever follows.
  unfoldable pub refresh :
      String
      → ℕ
      → String
      → String
      → Client
      → AccountTables
      → Outcome RefreshResponse × AccountTables
  refresh token_id now fresh token client db =
      let (rotation, tokens) =
        validate_and_rotate hash_token token_id now fresh token client db.tokens in
      (after_rotation now rotation db, record db { tokens = tokens })
