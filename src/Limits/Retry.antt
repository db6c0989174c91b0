-- ===== src/Limits/Retry.antt =====
-- Whether the time that a refusal announces is enough.
use smart_parking_platform.Prelude.{
  ℕ, ◌+◌, ◌-◌, ◌*◌, ◌/◌, ◌%◌, ◌≤◌, ◌<◌, min, true, false, Option, some, leb, ◌≡◌, ◌≢◌, ◌∙◌, arith,
}
use smart_parking_platform.Downlink.Bucket.{Bucket, one_token, loss}
use smart_parking_platform.Downlink.BucketBounds.{gain_split, below_next_multiple}
use smart_parking_platform.Limits.Tokens.{
  RateLimitConfig, RateHeaders, earned, refilled, missing_tokens, seconds_for, refused_headers,
  answered, check_rate_limit,
}

above_last_multiple : (x d : ℕ) → 0 < d → x % d ≢ 0 → (x / d) * d < x
above_last_multiple x d pos rest = grind arith

-- The tokens of a bucket that was written in the past, some time later.
earned_later :
    (config : RateLimitConfig) (now gap : ℕ) (b : Bucket)
    → b.last_update ≤ now
    → (earned config (now + gap) (some b)
        ≡ earned config now (some b) + config.requests_per_minute * gap)
      × ((loss config.requests_per_minute (now + gap) (some b) ≡ 0)
          × (loss config.requests_per_minute now (some b) ≡ 0))
earned_later config now gap b past =
    let same = gain_split now gap b.last_update config.requests_per_minute past in
    let early : b.last_update - now ≡ 0 = omega arith in
    let late : b.last_update - (now + gap) ≡ 0 = omega arith in
    (omega (arith, same), (rw late (omega arith), rw early (omega arith)))

allowed_if :
    (config : RateLimitConfig) (now : ℕ) (b : Option Bucket)
    → 0 < config.requests_per_minute
    → (check_rate_limit config now b).0.is_allowed ≡ leb one_token (refilled config now b)
unfolding check_rate_limit answered
allowed_if config now b pos = ground arith

-- What a refusal says and leaves.
refusal_says :
    (config : RateLimitConfig) (now r : ℕ) (b b' : Option Bucket) (h : RateHeaders)
    → 0 < config.requests_per_minute
    → check_rate_limit config now b ≡ (record { is_allowed = false; headers = some h }, b')
    → h.retry_after ≡ some r
    → (b' ≡ b)
      × ((r ≡ seconds_for config (missing_tokens config now b))
          × (refilled config now b < one_token))
unfolding check_rate_limit answered refused_headers
refusal_says config now r b b' h pos e wait = ground arith

refilled_at :
    (config : RateLimitConfig) (now gap : ℕ) (b : Bucket)
    → b.last_update ≤ now
    → refilled config (now + gap) (some b)
      ≡ min
          (config.burst_size * one_token)
          (earned config now (some b) + config.requests_per_minute * gap)
unfolding refilled
refilled_at config now gap b past =
    let (more, (late, early)) = earned_later config now gap b past in omega (arith, more, late)

-- The tokens at the announced time, and a second later.
around :
    (config : RateLimitConfig) (now r : ℕ) (b : Bucket)
    → 0 < config.requests_per_minute
    → 0 < config.burst_size
    → b.last_update ≤ now
    → r ≡ seconds_for config (missing_tokens config now (some b))
    → refilled config now (some b) < one_token
    → missing_tokens config now (some b) % (1000 * config.requests_per_minute) ≢ 0
    → (refilled config (now + 1000 * r) (some b) < one_token)
      × (one_token ≤ refilled config (now + 1000 * (r + 1)) (some b))
unfolding refilled
around config now r b pos burst past told few odd =
    let rate = config.requests_per_minute in
    let x = missing_tokens config now (some b) in
    let (_, (late, early)) = earned_later config now 0 b past in
    let first = refilled_at config now (1000 * r) b past in
    let second = refilled_at config now (1000 * (r + 1)) b past in
    let low : r * (1000 * rate) < x =
      rw told (above_last_multiple x (1000 * rate) (omega arith) odd) in
    let high : x < (r + 1) * (1000 * rate) =
      rw told (below_next_multiple x (1000 * rate) (omega arith)) in
    let cap : one_token ≤ config.burst_size * one_token = omega arith in
    (omega (arith, first, low, early, few, cap), omega (arith, second, high, early, few, cap))

-- The wait that a refusal announces is rounded down to seconds: unless what is missing is earned in
-- whole seconds, a request after exactly that wait is refused again, and only a second later it is
-- allowed. This is for a positive rate and burst, and a bucket that was written in the past.
pub announced_wait_falls_short :
    (config : RateLimitConfig) (now r : ℕ) (b : Bucket) (b' : Option Bucket) (h : RateHeaders)
    → 0 < config.requests_per_minute
    → 0 < config.burst_size
    → b.last_update ≤ now
    → check_rate_limit config now (some b) ≡ (record { is_allowed = false; headers = some h }, b')
    → h.retry_after ≡ some r
    → missing_tokens config now (some b) % (1000 * config.requests_per_minute) ≢ 0
    → ((check_rate_limit config (now + 1000 * r) b').0.is_allowed ≡ false)
      × ((check_rate_limit config (now + 1000 * (r + 1)) b').0.is_allowed ≡ true)
announced_wait_falls_short config now r b b' h pos burst past e wait odd =
    let (same, (told, few)) = refusal_says config now r (some b) b' h pos e wait in
    let (one_short, enough) = around config now r b pos burst past told few odd in
    rw same (
      allowed_if config (now + 1000 * r) (some b) pos ∙ ground (arith, one_short),
      allowed_if config (now + 1000 * (r + 1)) (some b) pos ∙ ground (arith, enough),
    )
