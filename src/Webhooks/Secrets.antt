-- ===== src/Webhooks/Secrets.antt =====
-- Table webhook_secrets and the three functions on it. The HMAC is a parameter: the hexadecimal digest
-- of a body under a secret.
use smart_parking_platform.Prelude.{
  ℕ, String, List, [], ◌∷◌, ◌++◌, Option, none, some, Bool, true, false, ◌&&◌, not, leb, text_eq,
  truthy, any, rewrite, if◌then◌else◌,
}
use smart_parking_platform.Hex.{codes}

pub record SecretRow : Type 0 where
  pub tenant_id : String
  pub secret_hash : String
  pub algorithm : String
  pub is_active : Bool
  pub created_at : ℕ

-- True, or the HTTPException with 401 or 500.
pub data Verdict : Type 0 where
  allowed unauthorized server_error : Verdict

unfoldable pub is_current : String → SecretRow → Bool
is_current tenant r = text_eq r.tenant_id tenant && r.is_active

abbrev pub newer : SecretRow → Option SecretRow → SecretRow
newer r none = r
newer r (some q) = if leb q.created_at r.created_at then r else q

-- WHERE tenant_id = $1 AND is_active = true ORDER BY created_at DESC LIMIT 1
unfoldable pub fetch_secret : String → List SecretRow → Option SecretRow
fetch_secret tenant [] = none
fetch_secret tenant (r ∷ rs) =
    let rest = fetch_secret tenant rs in if is_current tenant r then some (newer r rest) else rest

-- `compare_digest` raises on a text that is not ASCII.
unfoldable pub is_ascii : String → Bool
is_ascii s = not (any (λ c. not (leb c 127)) (codes s))

module _ (hmac : String → String → String) where
  -- A signature that is there, for a tenant with a secret.
  unfoldable pub compare_signature : String → String → SecretRow → Verdict
  compare_signature signature body r =
      if is_ascii signature
      then (if text_eq signature (hmac r.secret_hash body) then allowed else unauthorized)
      else server_error

  unfoldable pub verify_signed : String → String → String → List SecretRow → Verdict
  verify_signed signature tenant body rows = elim (fetch_secret tenant rows) [
    | none ↦ allowed
    | some r ↦ compare_signature signature body r
  ]

  -- `verify_webhook_signature`, with the header and the tenant where they are given
  unfoldable pub verify_webhook_signature :
      Option String → Option String → String → List SecretRow → Verdict
  verify_webhook_signature none tenant body rows = allowed
  verify_webhook_signature (some signature) none body rows = allowed
  verify_webhook_signature (some signature) (some tenant) body rows =
      if truthy signature then verify_signed signature tenant body rows else allowed

unfoldable pub new_secret : String → String → ℕ → SecretRow
new_secret tenant secret now = record {
  tenant_id = tenant;
  secret_hash = secret;
  algorithm = "sha256";
  is_active = true;
  created_at = now;
}

-- `get_or_create_webhook_secret`, with the generated secret; `none` is the ValueError.
unfoldable pub get_or_create_webhook_secret :
    String → String → ℕ → List SecretRow → Option String × List SecretRow
get_or_create_webhook_secret tenant secret now rows =
    if any (is_current tenant) rows
    then (none, rows)
    else (some secret, rows ++ new_secret tenant secret now ∷ [])

-- `rotate_webhook_secret`
unfoldable pub rotate_webhook_secret :
    String → String → ℕ → List SecretRow → String × List SecretRow
rotate_webhook_secret tenant secret now rows = (
  secret,
  rewrite (λ r. text_eq r.tenant_id tenant) (λ r. record r { is_active = false }) rows
      ++ new_secret tenant secret now ∷ [],
)
