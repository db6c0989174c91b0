-- ===== src/Limits/Examples.antt =====
-- The theorems on the request limits at concrete inputs.
use smart_parking_platform.Prelude.{
  ℕ, List, ◌∷◌, [], Option, none, some, refl, true, false, ◌≡◌, arith,
}
use smart_parking_platform.Limits.Window.{
  minute, hour, window, write, Limits, Store, within, check_limit, check_windows, check_window,
  over_limit, limit_for, put, zadd,
}
use smart_parking_platform.Downlink.Bucket.{Bucket}
use smart_parking_platform.Limits.Tokens.{
  RateLimitConfig, refused_headers, refilled, answered, check_rate_limit,
}
use smart_parking_platform.Limits.Retry.{announced_wait_falls_short}
use smart_parking_platform.Limits.Bounds.{reads, reads_use_up_the_writes}

abbrev defaults : Limits
defaults = record { per_minute = 100; per_hour = 1000 }

-- Ten reads.
abbrev read_times : List ℕ
read_times = 1 ∷ 2 ∷ 3 ∷ 4 ∷ 5 ∷ 6 ∷ 7 ∷ 8 ∷ 9 ∷ 10 ∷ []

abbrev no_requests : Store
no_requests tenant w = []

abbrev or_empty : Option Store → Store
or_empty none = no_requests
or_empty (some s) = s

abbrev after_reads : Store
after_reads = or_empty (reads defaults "t" read_times no_requests)

ten_reads_pass : reads defaults "t" read_times no_requests ≡ some after_reads
unfolding reads check_limit check_windows check_window over_limit limit_for within zadd put
ten_reads_pass = refl

reads_use_up_the_writes_example :
    let run = check_limit true defaults 11 "t" write none after_reads in
    (run.0.0 ≡ false)
    × (run.1 "t" minute ≡ within 11 (window minute) (after_reads "t" minute))
    × (run.1 "t" hour ≡ after_reads "t" hour)
reads_use_up_the_writes_example =
    reads_use_up_the_writes defaults 0 11 "t" read_times no_requests after_reads tt (ground arith)
      (omega arith) ten_reads_pass

abbrev one_a_second : RateLimitConfig
one_a_second = record { requests_per_minute = 60; burst_size = 1 }

abbrev used_up : Bucket
used_up = record { tokens = 0; last_update = 0 }

-- Half a second is missing, and the announced wait is zero.
announced_wait_falls_short_example :
    ((check_rate_limit one_a_second 500 (some used_up)).0.is_allowed ≡ false)
    × ((check_rate_limit one_a_second 1500 (some used_up)).0.is_allowed ≡ true)
unfolding check_rate_limit answered refused_headers refilled
announced_wait_falls_short_example =
    announced_wait_falls_short one_a_second 500 0 used_up (some used_up)
      (refused_headers one_a_second 500 30000) (omega arith) (omega arith) (omega arith) refl refl
      (λ e. omega (arith, e))
