-- ===== src/Limits/Window.antt =====
-- RateLimiter.check_limit. Times are microseconds. A sorted set whose members are
-- the texts of their scores is the list of the scores, ascending and without repetition.
use smart_parking_platform.Prelude.{
  ℕ, ◌+◌, ◌-◌, ◌*◌, ◌/◌, String, text_eq, List, [], ◌∷◌, Option, none, some, Bool, true, false, ltb,
  leb, ◌==◌, if◌then◌else◌, length, keep,
}

abbrev pub second : ℕ
second = 1000000

pub data WindowName : Type 0 where
  minute hour : WindowName

-- RateLimiter.windows, in microseconds
abbrev pub window : WindowName → ℕ
window minute = 60 * second
window hour = 3600 * second

pub data Operation : Type 0 where
  read write : Operation

pub record Limits : Type 0 where
  pub per_minute : ℕ
  pub per_hour : ℕ

-- `custom_limits`: a limit that is not given is None.
pub record CustomLimits : Type 0 where
  pub custom_minute : Option ℕ
  pub custom_hour : Option ℕ

-- ZADD of a time
unfoldable pub zadd : ℕ → List ℕ → List ℕ
zadd now [] = now ∷ []
zadd now (t ∷ ts) =
    let rest = zadd now ts in
    if ltb now t then now ∷ t ∷ ts else if now == t then t ∷ ts else t ∷ rest

-- ZREMRANGEBYSCORE key 0 (now - window)
unfoldable pub within : ℕ → ℕ → List ℕ → List ℕ
within now w ts = keep (λ t. ltb now (t + w)) ts

-- The answer where the limit is reached. A limit of 0 on an empty set lets the request pass.
unfoldable pub over_limit : ℕ → ℕ → List ℕ → Option ℕ
over_limit now w [] = none
over_limit now w (oldest ∷ ts) = some ((oldest + w - now) / second + 1)

-- One round of the loop: the seconds to wait if the request is refused, and the set after it.
unfoldable pub check_window : ℕ → ℕ → ℕ → List ℕ → Option ℕ × List ℕ
check_window now w limit ts =
    let current = within now w ts in
    elim (if leb limit (length current) then over_limit now w current else none) [
      | some retry ↦ (some retry, current)
      | none ↦ (none, zadd now current)
    ]

-- The sets, by tenant and window.
abbrev pub Store : Type 0
Store = String → WindowName → List ℕ

abbrev pub same_window : WindowName → WindowName → Bool
same_window minute minute = true
same_window hour hour = true
same_window _ _ = false

unfoldable pub put : String → WindowName → List ℕ → Store → Store
put tenant w ts s t v = if text_eq tenant t then (if same_window w v then ts else s t v) else s t v

abbrev pub or_else : Option ℕ → ℕ → ℕ
or_else none d = d
or_else (some n) d = n

-- The limits of an operation, updated by the custom ones.
unfoldable pub limit_for : Limits → Operation → Option CustomLimits → Limits
limit_for defaults read none = defaults
limit_for defaults write none = record { per_minute = 10; per_hour = 100 }
limit_for defaults read (some c) = record {
  per_minute = or_else c.custom_minute defaults.per_minute;
  per_hour = or_else c.custom_hour defaults.per_hour;
}
limit_for defaults write (some c) = record {
  per_minute = or_else c.custom_minute 10;
  per_hour = or_else c.custom_hour 100;
}

-- The loop over the two windows: a request that the hour refuses has been counted in the minute.
unfoldable pub check_windows : ℕ → Limits → String → Store → (Bool × Option ℕ) × Store
check_windows now limits tenant s =
    let (m, ms) = check_window now (window minute) limits.per_minute (s tenant minute) in
    let (h, hs) = check_window now (window hour) limits.per_hour (s tenant hour) in
    let s' = put tenant minute ms s in
    elim m [
      | some retry ↦ ((false, some retry), s')
      | none ↦
          (elim h [ none ↦ (true, none) | some retry ↦ (false, some retry) ], put tenant hour hs s')
    ]

-- `check_limit`
unfoldable pub check_limit :
    Bool → Limits → ℕ → String → Operation → Option CustomLimits → Store → (Bool × Option ℕ) × Store
check_limit enabled defaults now tenant operation custom s =
    let answer = check_windows now (limit_for defaults operation custom) tenant s in
    if enabled then answer else ((true, none), s)
