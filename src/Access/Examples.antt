-- ===== src/Access/Examples.antt =====
-- The theorems on authentication at concrete inputs.
use smart_parking_platform.Prelude.{
  ℕ, String, ◌<◌, ◌≤◌, ◌∷◌, [], Option, none, some, Bool, true, false, ◌≡◌, refl, ◌⊎◌, text_eq,
  if◌then◌else◌,
}
use smart_parking_platform.Access.Types.{
  admin, operator, platform_admin, ApiKeyRow, TenantRow, Database, Claims, jwt, TenantContext, pass,
  http_error,
}
use smart_parking_platform.Access.Tenant.{
  key_context, get_current_tenant, from_credentials, decode_access_token, role_of, user_row,
  tenant_row, membership_row, resolve_tenant_from_jwt, member_context, user_context,
}
use smart_parking_platform.Access.Roles.{require_role}
use smart_parking_platform.Access.Scopes.{subset, scopes_suffice, expand_scopes, expansion}
use smart_parking_platform.Access.Sound.{IsMember, IsKeyHolder, get_current_tenant_sound}
use smart_parking_platform.Access.Ranks.{rank, require_role-ranks}

abbrev gate_key : ApiKeyRow
gate_key = record {
  id = "k";
  tenant_id = "t";
  key_hash = "h";
  key_name = "gate";
  is_admin = false;
  scopes = some ("spaces:write" ∷ []);
  is_active = true;
  last_used_at = none;
}

abbrev town : TenantRow
town = record { id = "t"; name = "Town"; slug = "town"; is_active = true }

abbrev db : Database
db = record {
  api_keys = gate_key ∷ [];
  tenants = town ∷ [];
  users = record { id = "u"; is_active = true } ∷ [];
  memberships = record { user_id = "u"; tenant_id = "t"; role = "operator"; is_active = true } ∷ [];
}

abbrev decode : ℕ → String → Option Claims
decode now token =
    if text_eq token "token"
    then some (record { user_id = "u"; tenant_id = "t"; role = "admin"; exp = 9 })
    else none

abbrev same_text : String → String → Option Bool
same_text key h = some (text_eq key h)

abbrev operator_context : TenantContext
operator_context = record {
  tenant_id = "t";
  tenant_name = "Town";
  tenant_slug = "town";
  user_id = some "u";
  user_role = some operator;
  api_key_id = none;
  api_key_scopes = none;
  source = jwt;
}

passes : (get_current_tenant decode same_text 5 none (some "token") db).0 ≡ pass operator_context
unfolding get_current_tenant from_credentials decode_access_token role_of resolve_tenant_from_jwt
    member_context user_context user_row tenant_row membership_row
passes = refl

get_current_tenant_sound_example :
    IsMember operator_context db
    ⊎ ((k : String) × (none ≡ some k)
        × IsKeyHolder same_text k operator_context db
            (get_current_tenant decode same_text 5 none (some "token") db).1)
get_current_tenant_sound_example =
    get_current_tenant_sound decode same_text 5 none (some "token") db operator_context passes

require_role-ranks_example :
    (rank admin ≤ rank operator
      → rank operator < 4
      → require_role admin operator_context ≡ pass operator_context)
    × (rank operator < rank admin → require_role admin operator_context ≡ http_error 403)
    × (operator ≡ platform_admin → require_role admin operator_context ≡ http_error 403)
require_role-ranks_example = require_role-ranks admin operator operator_context refl refl

writes_suffice : scopes_suffice ("spaces:read" ∷ []) ("spaces:write" ∷ []) ≡ true
unfolding scopes_suffice expand_scopes expansion subset
writes_suffice = refl

abbrev gate_context : TenantContext
gate_context = key_context "k" gate_key town
