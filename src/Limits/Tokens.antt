-- ===== src/Limits/Tokens.antt =====
-- `RateLimiter.check_rate_limit` of src/rate_limit.py and its middleware. The units are those of the
-- buckets of the downlinks: milliseconds, and sixty-thousandths of a token.
use smart_parking_platform.Prelude.{
  ℕ, zero, suc, ◌+◌, ◌-◌, ◌*◌, ◌/◌, min, max, String, text_append, text_eq, truthy, Bool, true,
  false, not, Option, none, some, leb, ◌==◌, if◌then◌else◌,
}
use smart_parking_platform.Downlink.Bucket.{Bucket, one_token, gain, loss}

pub record RateLimitConfig : Type 0 where
  pub requests_per_minute : ℕ
  pub burst_size : ℕ

-- The headers; the times are in seconds.
pub record RateHeaders : Type 0 where
  pub limit : ℕ
  pub remaining : ℕ
  pub reset : ℕ
  pub retry_after : Option ℕ

-- What a check answers; the headers are missing after an exception.
pub record Checked : Type 0 where
  pub is_allowed : Bool
  pub headers : Option RateHeaders

abbrev pub stored_tokens : RateLimitConfig → Option Bucket → ℕ
stored_tokens config none = config.burst_size * one_token
stored_tokens config (some b) = b.tokens

-- What the bucket has without its limit, and with it.
abbrev pub earned : RateLimitConfig → ℕ → Option Bucket → ℕ
earned config now b = stored_tokens config b + gain config.requests_per_minute now b

unfoldable pub refilled : RateLimitConfig → ℕ → Option Bucket → ℕ
refilled config now b =
    min (config.burst_size * one_token)
      (earned config now b - loss config.requests_per_minute now b)

-- What the refilled bucket lacks for one token; a bucket that can hold none lacks all of it.
abbrev pub missing_tokens : RateLimitConfig → ℕ → Option Bucket → ℕ
missing_tokens config now b =
    max (one_token - config.burst_size * one_token)
      (one_token + loss config.requests_per_minute now b - earned config now b)

-- int(tokens / tokens_per_second)
abbrev pub seconds_for : RateLimitConfig → ℕ → ℕ
seconds_for config tokens = tokens / (1000 * config.requests_per_minute)

unfoldable pub allowed_headers : RateLimitConfig → ℕ → ℕ → RateHeaders
allowed_headers config now tokens = record {
  limit = config.requests_per_minute;
  remaining = tokens / one_token;
  reset = now / 1000 + seconds_for config (config.burst_size * one_token - tokens);
  retry_after = none;
}

unfoldable pub refused_headers : RateLimitConfig → ℕ → ℕ → RateHeaders
refused_headers config now missing = record {
  limit = config.requests_per_minute;
  remaining = 0;
  reset = now / 1000 + seconds_for config missing;
  retry_after = some (seconds_for config missing);
}

-- A rate of zero divides by zero, and the request is allowed.
unfoldable pub answered : RateLimitConfig → Bool → RateHeaders → Checked
answered config allow headers =
    if config.requests_per_minute == 0
    then record { is_allowed = true; headers = none }
    else record { is_allowed = allow; headers = some headers }

-- `check_rate_limit`, on the bucket of the key
unfoldable pub check_rate_limit : RateLimitConfig → ℕ → Option Bucket → Checked × Option Bucket
check_rate_limit config now b =
    if leb one_token (refilled config now b)
    then (
      answered config true (allowed_headers config now (refilled config now b - one_token)),
      some (record { tokens = refilled config now b - one_token; last_update = now }),
    )
    else (answered config false (refused_headers config now (missing_tokens config now b)), b)

-- The configuration of `check_tenant_rate_limit`
unfoldable pub tenant_config : ℕ → Option ℕ → RateLimitConfig
tenant_config requests none = record {
  requests_per_minute = requests;
  burst_size = max 10 (requests / 6);
}
tenant_config requests (some burst) = record { requests_per_minute = requests; burst_size = burst }

-- text[:n]
unfoldable pub first_characters : ℕ → String → String
first_characters zero s = ""
first_characters (suc n) String.[] = ""
first_characters (suc n) (String.◌∷◌ c s) =
    text_append (String.◌∷◌ c String.[]) (first_characters n s)

abbrev pub host_of : Option String → String
host_of none = "unknown"
host_of (some h) = h

-- The key of the limiter and its configuration in `RateLimitMiddleware.dispatch`: by the API key, or
-- else by the address. `none` stands for a request that is not limited.
unfoldable pub limit_for_request :
    RateLimitConfig
    → RateLimitConfig
    → Bool
    → String
    → Option String
    → Option String
    → Option (String × RateLimitConfig)
limit_for_request default api_key_config ready path api_key client =
    let by_address : String × RateLimitConfig =
      (text_append "rate_limit:" (text_append "ip:" (host_of client)), default) in
    if text_eq path "/health"
    then none
    else if not ready
    then none
    else some (elim api_key [
      | none ↦ by_address
      | some k ↦
          if truthy k
          then (
            text_append "rate_limit:" (text_append "api_key:" (first_characters 16 k)),
            api_key_config,
          )
          else by_address
    ])
