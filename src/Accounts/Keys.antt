-- ===== src/Accounts/Keys.antt =====
-- The API keys of a tenant: list_api_keys, create_api_key and revoke_api_key. The generated key and
-- its hash are arguments.
use smart_parking_platform.Prelude.{
  ℕ, String, text_eq, List, [], ◌∷◌, ◌++◌, none, some, Bool, true, false, ◌&&◌, leb, if◌then◌else◌,
  keep, any, rewrite,
}
use smart_parking_platform.Access.Types.{Outcome, pass, http_error}
use smart_parking_platform.Accounts.Types.{StoredKey, AccountTables, ApiKeyCreate}

-- ORDER BY created_at DESC
unfoldable pub insert_recent : StoredKey → List StoredKey → List StoredKey
insert_recent k [] = k ∷ []
insert_recent k (j ∷ js) =
    let rest = insert_recent k js in if leb j.created_at k.created_at then k ∷ j ∷ js else j ∷ rest

unfoldable pub recent_first : List StoredKey → List StoredKey
recent_first [] = []
recent_first (k ∷ ks) = insert_recent k (recent_first ks)

-- `list_api_keys`
unfoldable pub list_api_keys : String → AccountTables → List StoredKey
list_api_keys tenant db = recent_first (keep (λ k. text_eq k.row.tenant_id tenant) db.api_keys)

unfoldable pub new_key : String → String → ℕ → ApiKeyCreate → StoredKey
new_key new_id hash now q = record {
  row = record {
    id = new_id;
    tenant_id = q.tenant_id;
    key_hash = hash;
    key_name = q.name;
    is_admin = false;
    scopes = some q.scopes;
    is_active = true;
    last_used_at = none;
  };
  created_at = now;
}

-- `create_api_key`: the answer is the row, beside the plain key.
unfoldable pub create_api_key :
    String → String → ℕ → ApiKeyCreate → String → AccountTables → Outcome StoredKey × AccountTables
create_api_key new_id hash now q tenant db =
    if text_eq q.tenant_id tenant
    then (
      pass (new_key new_id hash now q),
      record db { api_keys = db.api_keys ++ new_key new_id hash now q ∷ [] },
    )
    else (http_error 403, db)

-- WHERE id = $1 AND tenant_id = $2
abbrev pub own_key : String → String → StoredKey → Bool
own_key id tenant k = text_eq k.row.id id && text_eq k.row.tenant_id tenant

abbrev pub inactive : StoredKey → StoredKey
inactive k = record k {
  row = record {
    id = k.row.id;
    tenant_id = k.row.tenant_id;
    key_hash = k.row.key_hash;
    key_name = k.row.key_name;
    is_admin = k.row.is_admin;
    scopes = k.row.scopes;
    is_active = false;
    last_used_at = k.row.last_used_at;
  };
}

-- `revoke_api_key`
unfoldable pub revoke_api_key : String → String → AccountTables → Outcome Unit × AccountTables
revoke_api_key id tenant db =
    if any (own_key id tenant) db.api_keys
    then (pass tt, record db { api_keys = rewrite (own_key id tenant) inactive db.api_keys })
    else (http_error 404, db)
