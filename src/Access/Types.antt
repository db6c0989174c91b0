-- ===== src/Access/Types.antt =====
-- The tables that authentication reads, and the contexts that it yields.
use smart_parking_platform.Prelude.{ℕ, String, List, Option, Bool}

pub data UserRole : Type 0 where
  platform_admin owner admin operator viewer : UserRole

-- A row of api_keys. `scopes` may be NULL.
pub record ApiKeyRow : Type 0 where
  pub id : String
  pub tenant_id : String
  pub key_hash : String
  pub key_name : String
  pub is_admin : Bool
  pub scopes : Option (List String)
  pub is_active : Bool
  pub last_used_at : Option ℕ

pub record TenantRow : Type 0 where
  pub id : String
  pub name : String
  pub slug : String
  pub is_active : Bool

pub record UserRow : Type 0 where
  pub id : String
  pub is_active : Bool

-- A row of user_memberships, with the role as the text of the column.
pub record MembershipRow : Type 0 where
  pub user_id : String
  pub tenant_id : String
  pub role : String
  pub is_active : Bool

pub record Database : Type 0 where
  pub api_keys : List ApiKeyRow
  pub tenants : List TenantRow
  pub users : List UserRow
  pub memberships : List MembershipRow

pub record ApiKeyInfo : Type 0 where
  pub id : String
  pub name : String
  pub is_admin : Bool

-- The payload of a token that the JWT library accepts.
pub record Claims : Type 0 where
  pub user_id : String
  pub tenant_id : String
  pub role : String
  pub exp : ℕ

pub record TokenData : Type 0 where
  pub user_id : String
  pub tenant_id : String
  pub role : UserRole
  pub exp : ℕ

pub data Source : Type 0 where
  jwt api_key : Source

pub record TenantContext : Type 0 where
  pub tenant_id : String
  pub tenant_name : String
  pub tenant_slug : String
  pub user_id : Option String
  pub user_role : Option UserRole
  pub api_key_id : Option String
  pub api_key_scopes : Option (List String)
  pub source : Source

-- What a dependency of FastAPI does: pass, or raise an HTTPException of this status.
pub data Outcome (A : Type 0) : Type 0 where
  pass : A → Outcome A
  http_error : ℕ → Outcome A
