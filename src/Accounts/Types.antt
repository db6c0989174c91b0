-- ===== src/Accounts/Types.antt =====
-- The rows with the columns that only these endpoints read, the requests and the answers. Times are
-- microseconds.
use smart_parking_platform.Prelude.{ℕ, String, List, Option}
use smart_parking_platform.Access.Types.{UserRow, TenantRow, MembershipRow, ApiKeyRow}
use smart_parking_platform.Tokens.Types.{TokenTable}

-- A row of users.
pub record Account : Type 0 where
  pub row : UserRow
  pub email : String
  pub name : String
  pub password_hash : String
  pub last_login_at : Option ℕ

-- A row of user_memberships.
pub record Member : Type 0 where
  pub row : MembershipRow
  pub created_at : ℕ

-- A row of api_keys.
pub record StoredKey : Type 0 where
  pub row : ApiKeyRow
  pub created_at : ℕ

-- A row of sites as the registration makes it.
pub record DefaultSite : Type 0 where
  pub tenant_id : String
  pub name : String
  pub timezone : String

pub record AccountTables : Type 0 where
  pub users : List Account
  pub tenants : List TenantRow
  pub memberships : List Member
  pub api_keys : List StoredKey
  pub sites : List DefaultSite
  pub tokens : TokenTable

pub record Registration : Type 0 where
  pub email : String
  pub user_name : String
  pub password : String
  pub tenant_name : String
  pub slug : String

pub record ApiKeyCreate : Type 0 where
  pub name : String
  pub tenant_id : String
  pub scopes : List String

-- An entry of `tenants` in the answer of the login.
pub record TenantRole : Type 0 where
  pub tenant : TenantRow
  pub role : String

-- The answer of the login; the lifetimes are in seconds.
pub record LoginResponse : Type 0 where
  pub access_token : String
  pub refresh_token : String
  pub expires_in : ℕ
  pub refresh_expires_in : ℕ
  pub user_id : String
  pub tenants : List TenantRole

pub record RefreshResponse : Type 0 where
  pub access_token : String
  pub refresh_token : String
  pub expires_in : ℕ
  pub refresh_expires_in : ℕ
