-- ===== src/Downlink/BucketBounds.antt =====
-- How many requests a token bucket lets through, and when.
use smart_parking_platform.Prelude.{
  ℕ, List, [], ◌∷◌, ◌+◌, ◌-◌, ◌*◌, ◌/◌, ◌≤◌, ◌<◌, min, true, false, Option, none, some, ◌≡◌, arith,
  if◌then◌else◌,
}
use smart_parking_platform.Downlink.Bucket.{
  Bucket, one_token, bucket_ttl, current_tokens, gain, loss, new_tokens, check_token_bucket,
}

-- Requests by the time that passes before each: how many are allowed.
unfoldable pub allowed : ℕ → ℕ → Option Bucket → List ℕ → ℕ
allowed limit now b [] = 0
allowed limit now b (gap ∷ gaps) =
    let (answer, b') = check_token_bucket limit (now + gap) b in
    (if answer.0 then 1 else 0) + allowed limit (now + gap) b' gaps

abbrev pub total : List ℕ → ℕ
total [] = 0
total (g ∷ gs) = g + total gs

-- A bucket that was not written in the future.
abbrev pub IsPast : ℕ → Option Bucket → Type 0
IsPast now none = Unit {0}
IsPast now (some b) = b.last_update ≤ now

-- What a bucket is worth. A request costs one token of it, and time adds at the rate.
worth : ℕ → ℕ → Option Bucket → ℕ
worth limit now b = min (limit * one_token) (current_tokens limit b + gain limit now b)

-- The refill of a longer time is the sum of two.
pub gain_split :
    (now gap last limit : ℕ)
    → last ≤ now
    → (now + gap - last) * limit ≡ (now - last) * limit + limit * gap
gain_split now gap last limit h =
    let e : now + gap - last ≡ (now - last) + gap = omega arith in rw e (omega arith)

no_gain : (t limit : ℕ) → (t - t) * limit ≡ 0
no_gain t limit = let e : t - t ≡ 0 = omega arith in rw e (omega arith)

step_bound :
    (limit now gap : ℕ) (b : Option Bucket)
    → IsPast now b
    → let (answer, b') = check_token_bucket limit (now + gap) b in
      IsPast (now + gap) b'
      × ((if answer.0 then 1 else 0) * one_token + worth limit (now + gap) b'
          ≤ worth limit now b + limit * gap)
unfolding check_token_bucket worth new_tokens
step_bound limit now gap none h = ground (arith, no_gain (now + gap) limit)
step_bound limit now gap (some b) h =
    ground (arith, no_gain (now + gap) limit, gain_split now gap b.last_update limit)

allowed_bound :
    (limit now : ℕ) (b : Option Bucket) (gaps : List ℕ)
    → IsPast now b
    → allowed limit now b gaps * one_token ≤ worth limit now b + limit * total gaps
unfolding allowed
allowed_bound limit now b [] h = omega arith
allowed_bound limit now b (gap ∷ gaps) h =
    let (past, cost) = step_bound limit now gap b h in
    let b' = (check_token_bucket limit (now + gap) b).1 in
    omega (arith, allowed_bound limit (now + gap) b' gaps past, cost)

-- A bucket that expires after its time to live answers as if it had not: the expiry is invisible.
expiry_is_invisible :
    (limit now : ℕ) (b : Bucket)
    → 0 < limit
    → b.last_update + bucket_ttl ≤ now
    → check_token_bucket limit now (some b) ≡ check_token_bucket limit now none
unfolding check_token_bucket new_tokens
expiry_is_invisible limit now b pos h =
    let enough : limit * one_token ≤ (now - b.last_update) * limit = grind arith in
    let no_loss : (b.last_update - now) * limit ≡ 0 =
      (let e : b.last_update - now ≡ 0 = omega arith in rw e (omega arith)) in
    ground arith

pub below_next_multiple : (x d : ℕ) → 0 < d → x < (x / d + 1) * d
below_next_multiple x d pos = grind arith

-- What a refusal says.
refusal :
    (limit now r : ℕ) (b b' : Option Bucket)
    → check_token_bucket limit now b ≡ ((false, some r), b')
    → (b' ≡ b)
      × (r
          ≡ (one_token + loss limit now b - (current_tokens limit b + gain limit now b))
              / (1000 * limit)
            + 1)
      × (new_tokens limit now b < one_token)
unfolding check_token_bucket
refusal limit now r b b' e = ground arith

answer_allowed :
    (limit now : ℕ) (b : Option Bucket)
    → one_token ≤ new_tokens limit now b
    → (check_token_bucket limit now b).0 ≡ (true, none)
unfolding check_token_bucket
answer_allowed limit now b h = ground arith

later_tokens :
    (limit now r : ℕ) (b : Option Bucket)
    → 0 < limit
    → IsPast now b
    → new_tokens limit now b < one_token
    → r
      ≡ (one_token + loss limit now b - (current_tokens limit b + gain limit now b))
          / (1000 * limit)
        + 1
    → one_token ≤ new_tokens limit (now + 1000 * r) b
unfolding new_tokens
later_tokens limit now r none pos h few e = absurd (omega arith)
later_tokens limit now r (some b) pos h few e =
    let same_gain : (now + 1000 * r - b.last_update) * limit
        ≡ (now - b.last_update) * limit + limit * (1000 * r) =
      gain_split now (1000 * r) b.last_update limit h in
    let no_loss : (b.last_update - now) * limit ≡ 0 =
      (let z : b.last_update - now ≡ 0 = omega arith in rw z (omega arith)) in
    let no_loss' : (b.last_update - (now + 1000 * r)) * limit ≡ 0 =
      (let z : b.last_update - (now + 1000 * r) ≡ 0 = omega arith in rw z (omega arith)) in
    let x : ℕ =
      one_token + (b.last_update - now) * limit - (b.tokens + (now - b.last_update) * limit) in
    let big : x < r * (1000 * limit) = rw e (below_next_multiple x (1000 * limit) (omega arith)) in
    let cap : one_token ≤ limit * one_token = omega arith in omega arith

-- A request that is refused with `retry_after` r is let through r seconds later, if the bucket is
-- left alone in between, the limit is positive and the bucket was last written in the past.
retry_after_suffices :
    (limit now r : ℕ) (b b' : Option Bucket)
    → 0 < limit
    → IsPast now b
    → check_token_bucket limit now b ≡ ((false, some r), b')
    → (check_token_bucket limit (now + 1000 * r) b').0 ≡ (true, none)
retry_after_suffices limit now r b b' pos h e =
    let (same, seconds, few) = refusal limit now r b b' e in
    rw same (answer_allowed limit (now + 1000 * r) b (later_tokens limit now r b pos h few seconds))

-- In any sequence of requests to one bucket that was not written in the future, the allowed requests
-- are at most `limit` at once and `limit` more for each minute that passes.
pub allowed-le-burst_and_rate :
    (limit now : ℕ) (b : Option Bucket) (gaps : List ℕ)
    → IsPast now b
    → allowed limit now b gaps * one_token ≤ limit * one_token + limit * total gaps
allowed-le-burst_and_rate limit now b gaps h =
    let start : worth limit now b ≤ limit * one_token = unfold worth in omega arith in
    omega (arith, allowed_bound limit now b gaps h)
