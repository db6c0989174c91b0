-- ===== src/Access/Scopes.antt =====
-- src/api_scopes.py: the scopes of an API key. A set is a list of its elements.
use smart_parking_platform.Prelude.{
  String, text_eq, List, [], ◌∷◌, ◌++◌, Option, none, some, Bool, true, ◌&&◌, ◌||◌, any, first,
  if◌then◌else◌,
}
use smart_parking_platform.Access.Types.{
  jwt, api_key, Database, TenantContext, Outcome, pass, http_error,
}
use smart_parking_platform.Access.Tenant.{key_row}

-- SCOPE_HIERARCHY
abbrev pub scope_hierarchy : List (String × List String)
scope_hierarchy =
    ("spaces:read", "spaces:read" ∷ [])
    ∷ ("devices:read", "devices:read" ∷ [])
    ∷ ("reservations:read", "reservations:read" ∷ [])
    ∷ ("telemetry:read", "telemetry:read" ∷ [])
    ∷ ("users:read", "users:read" ∷ [])
    ∷ ("sites:read", "sites:read" ∷ [])
    ∷ ("tenants:read", "tenants:read" ∷ [])
    ∷ ("spaces:write", "spaces:read" ∷ "spaces:write" ∷ [])
    ∷ ("devices:write", "devices:read" ∷ "devices:write" ∷ [])
    ∷ ("reservations:write", "reservations:read" ∷ "reservations:write" ∷ [])
    ∷ ("sites:write", "sites:read" ∷ "sites:write" ∷ [])
    ∷ ("tenants:write", "tenants:read" ∷ "tenants:write" ∷ [])
    ∷ ("webhook:ingest", "webhook:ingest" ∷ [])
    ∷ ("admin:*", "*" ∷ [])
    ∷ []

-- What one scope adds to the set.
unfoldable pub expansion : String → List String
expansion s = elim (first (λ e. text_eq e.0 s) scope_hierarchy) [ none ↦ s ∷ [] | some e ↦ e.1 ]

-- `expand_scopes`
unfoldable pub expand_scopes : List String → List String
expand_scopes [] = []
expand_scopes (s ∷ ss) = expansion s ++ expand_scopes ss

abbrev pub member : String → List String → Bool
member s xs = any (text_eq s) xs

-- `required.issubset(available)`
unfoldable pub subset : List String → List String → Bool
subset [] available = true
subset (s ∷ ss) available = member s available && subset ss available

-- The test of `check_scopes` on a key with scopes.
unfoldable pub scopes_suffice : List String → List String → Bool
scopes_suffice required scopes =
    let available = expand_scopes scopes in
    member "*" available || member "admin:*" available || subset (expand_scopes required) available

-- The branch of `check_scopes` for an API key: no scopes, or none at all, is refused first.
unfoldable pub check_key_scopes :
    List String → Option (List String) → TenantContext → Outcome TenantContext
check_key_scopes required none c = http_error 403
check_key_scopes required (some []) c = http_error 403
check_key_scopes required (some (s ∷ ss)) c =
    if scopes_suffice required (s ∷ ss) then pass c else http_error 403

-- `check_scopes`, and the dependency that `require_scopes` makes of it, which returns the context
unfoldable pub check_scopes : List String → TenantContext → Outcome TenantContext
check_scopes required c = elim c.source [
  | jwt ↦ pass c
  | api_key ↦ check_key_scopes required c.api_key_scopes c
]

-- `enforce_api_key_scopes`: a NULL in the column raises a TypeError, answered with 500.
unfoldable pub enforce_api_key_scopes : List String → String → Database → Outcome Bool
enforce_api_key_scopes required id db = elim (key_row id db) [
  | none ↦ http_error 403
  | some k ↦ elim k.scopes [
    | none ↦ http_error 500
    | some scopes ↦
        let available = expand_scopes scopes in
        if member "*" available || subset (expand_scopes required) available
        then pass true
        else http_error 403
  ]
]
