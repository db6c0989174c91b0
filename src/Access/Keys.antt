-- ===== src/Access/Keys.antt =====
-- src/auth.py: the API keys. `checkpw` stands for bcrypt: `none` where it raises.
use smart_parking_platform.Prelude.{
  ℕ, String, text_eq, truthy, List, [], ◌∷◌, Option, none, some, Bool, false, keep, rewrite,
  if◌then◌else◌,
}
use smart_parking_platform.Access.Types.{ApiKeyRow, ApiKeyInfo, Database, Outcome, pass, http_error}

-- SELECT ... FROM api_keys WHERE is_active = true
unfoldable pub active_keys : Database → List ApiKeyRow
active_keys db = keep (λ k. k.is_active) db.api_keys

-- UPDATE api_keys SET last_used_at = NOW() WHERE id = $1
unfoldable pub touch_key : ℕ → String → Database → Database
touch_key now id db = record db {
  api_keys = rewrite (λ k. text_eq k.id id) (λ k. record k { last_used_at = some now }) db.api_keys;
}

unfoldable pub info_of : ApiKeyRow → ApiKeyInfo
info_of k = record { id = k.id; name = k.key_name; is_admin = k.is_admin }

module _ (checkpw : String → String → Option Bool) where
  -- Whether bcrypt accepts the key for the row; a row that raises is skipped.
  unfoldable pub matches : String → ApiKeyRow → Bool
  matches key k = elim (checkpw key k.key_hash) [ none ↦ false | some b ↦ b ]

  -- The loop over the keys.
  unfoldable pub matching_key : String → List ApiKeyRow → Option ApiKeyRow
  matching_key key [] = none
  matching_key key (k ∷ ks) =
      let rest = matching_key key ks in if matches key k then some k else rest

  -- `verify_api_key`
  unfoldable pub verify_api_key : ℕ → String → Database → Option ApiKeyInfo × Database
  verify_api_key now key db = elim (matching_key key (active_keys db)) [
    | none ↦ (none, db)
    | some k ↦ (some (info_of k), touch_key now k.id db)
  ]

  -- `get_api_key`
  unfoldable pub get_api_key : ℕ → Option String → Database → Outcome ApiKeyInfo × Database
  get_api_key now none db = (http_error 401, db)
  get_api_key now (some key) db =
      let (info, db') = verify_api_key now key db in
      if truthy key
      then (elim info [ none ↦ (http_error 401, db') | some i ↦ (pass i, db') ])
      else (http_error 401, db)

  -- `get_admin_api_key`
  unfoldable pub get_admin_api_key : ApiKeyInfo → Outcome ApiKeyInfo
  get_admin_api_key i = if i.is_admin then pass i else http_error 403

  -- `get_optional_api_key`
  unfoldable pub get_optional_api_key : ℕ → Option String → Database → Option ApiKeyInfo × Database
  get_optional_api_key now none db = (none, db)
  get_optional_api_key now (some key) db =
      let checked = verify_api_key now key db in if truthy key then checked else (none, db)
