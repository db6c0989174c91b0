-- ===== src/Tokens/Types.antt =====
-- The table refresh_tokens as migrations/007_audit_log.sql creates it, and the arguments and answers
-- of RefreshTokenService. The CREATE TABLE IF NOT EXISTS of migrations/010_refresh_tokens.sql finds
-- that table and does nothing. Times are microseconds.
use smart_parking_platform.Prelude.{ℕ, String, List, Option}

pub record TokenRow : Type 0 where
  pub id : String
  pub user_id : String
  pub tenant_id : String
  pub token_hash : String
  pub device_fingerprint : Option String
  pub ip_address : Option String
  pub user_agent : Option String
  pub created_at : ℕ
  pub expires_at : ℕ
  pub revoked_at : Option ℕ
  pub last_used_at : Option ℕ

-- The rows in the order of insertion.
pub record TokenTable : Type 0 where
  pub rows : List TokenRow

-- The values of an INSERT; a column that it does not name is NULL.
pub record NewToken : Type 0 where
  pub user_id : String
  pub tenant_id : Option String
  pub token_hash : String
  pub device_fingerprint : Option String
  pub ip_address : Option String
  pub user_agent : Option String
  pub expires_at : ℕ

-- What the client sends along.
pub record Client : Type 0 where
  pub device_fingerprint : Option String
  pub ip_address : Option String
  pub user_agent : Option String

-- The answer of `validate_and_rotate`: (None, None), (user_id, new_token), or an exception.
pub data Rotation : Type 0 where
  invalid : Rotation
  rotated : String → String → Rotation
  raised : Rotation

-- A row as `get_user_tokens` shows it; `revoked_at` is None where the query does not select it.
pub record TokenView : Type 0 where
  pub id : String
  pub device_fingerprint : Option String
  pub ip_address : Option String
  pub user_agent : Option String
  pub created_at : ℕ
  pub expires_at : ℕ
  pub revoked_at : Option ℕ
  pub last_used_at : Option ℕ
