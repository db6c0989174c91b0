-- ===== src/Downlink/Bucket.antt =====
-- The token bucket of `DownlinkRateLimiter`, exactly: instants are milliseconds, and tokens are
-- counted in sixty-thousandths, so that a limit of `n` per minute refills `n` units in a
-- millisecond. The code computes the same with floats.
use smart_parking_platform.Prelude.{
  ℕ, zero, suc, String, ◌+◌, ◌-◌, ◌*◌, ◌/◌, min, Bool, true, false, Option, none, some, leb,
  text_eq, truthy, if◌then◌else◌,
}

-- The fields of the hash of a bucket; a bucket that is missing or has expired is `none`.
pub record Bucket : Type 0 where
  pub tokens : ℕ
  pub last_update : ℕ

abbrev pub one_token : ℕ
one_token = 60000

-- EXPIRE key 120
abbrev pub bucket_ttl : ℕ
bucket_ttl = 120000

-- What is stored plus what was earned since; `loss` is what a clock that went back takes away.
abbrev pub current_tokens : ℕ → Option Bucket → ℕ
current_tokens limit none = limit * one_token
current_tokens limit (some b) = b.tokens

abbrev pub gain : ℕ → ℕ → Option Bucket → ℕ
gain limit now none = 0
gain limit now (some b) = (now - b.last_update) * limit

abbrev pub loss : ℕ → ℕ → Option Bucket → ℕ
loss limit now none = 0
loss limit now (some b) = (b.last_update - now) * limit

unfoldable pub new_tokens : ℕ → ℕ → Option Bucket → ℕ
new_tokens limit now b =
    min (limit * one_token) (current_tokens limit b + gain limit now b - loss limit now b)

-- `_check_token_bucket`: the answer, and the bucket after it; a refused request writes nothing.
unfoldable pub check_token_bucket : ℕ → ℕ → Option Bucket → (Bool × Option ℕ) × Option Bucket
check_token_bucket limit now b =
    if leb one_token (new_tokens limit now b)
    then (
      (true, none),
      some (record { tokens = new_tokens limit now b - one_token; last_update = now }),
    )
    else (
      (
        false,
        some (
            (one_token + loss limit now b - (current_tokens limit b + gain limit now b))
              / (1000 * limit)
            + 1),
      ),
      b,
    )

abbrev pub default_gateway_limit_per_min : ℕ
default_gateway_limit_per_min = 30

abbrev pub default_tenant_limit_per_min : ℕ
default_tenant_limit_per_min = 100

-- `limit_per_min or DEFAULT`
unfoldable pub limit_or : Option ℕ → ℕ → ℕ
limit_or none d = d
limit_or (some zero) d = d
limit_or (some (suc n)) d = suc n

-- The buckets of a limiter, by gateway and by tenant.
pub record Buckets : Type 0 where
  pub gateway : String → Option Bucket
  pub tenant : String → Option Bucket

abbrev pub put_bucket : String → Option Bucket → (String → Option Bucket) → String → Option Bucket
put_bucket k b m j = if text_eq k j then b else m j

unfoldable pub check_gateway_limit : String → Option ℕ → ℕ → Buckets → (Bool × Option ℕ) × Buckets
unfolding check_token_bucket limit_or
check_gateway_limit gateway_id limit now s =
    if truthy gateway_id
    then (let (answer, b) =
          check_token_bucket (limit_or limit default_gateway_limit_per_min) now
            (s.gateway gateway_id) in
        (answer, record s { gateway = put_bucket gateway_id b s.gateway }))
    else ((true, none), s)

unfoldable pub check_tenant_limit : String → Option ℕ → ℕ → Buckets → (Bool × Option ℕ) × Buckets
unfolding check_token_bucket limit_or
check_tenant_limit tenant_id limit now s =
    let (answer, b) =
      check_token_bucket (limit_or limit default_tenant_limit_per_min) now (s.tenant tenant_id) in
    (answer, record s { tenant = put_bucket tenant_id b s.tenant })
