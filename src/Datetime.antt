-- ===== src/Datetime.antt =====
-- The two kinds of Python's datetime that the service mixes: src/refresh_token_service.py and
-- src/display_state_machine.py set datetime.utcnow(), which has no time zone, against what asyncpg
-- returns of a TIMESTAMP WITH TIME ZONE column, which has one. The numbers are microseconds in UTC.
use smart_parking_platform.Prelude.{ℕ, ◌-◌, Option, none, some, Bool, ltb}

pub data Datetime : Type 0 where
  naive : ℕ → Datetime
  aware : ℕ → Datetime

-- `a > b`, which raises a TypeError for a naive and an aware datetime.
unfoldable pub later_than : Datetime → Datetime → Option Bool
later_than (naive a) (naive b) = some (ltb b a)
later_than (aware a) (aware b) = some (ltb b a)
later_than _ _ = none

-- `a - b` of an earlier `b`, which raises the same TypeError.
unfoldable pub time_between : Datetime → Datetime → Option ℕ
time_between (naive a) (naive b) = some (a - b)
time_between (aware a) (aware b) = some (a - b)
time_between _ _ = none
