-- ===== src/Spaces/Lock.antt =====
-- `acquire_lock`: a key in Redis, set if it is not there and expiring after a timeout.
use smart_parking_platform.Prelude.{
  ℕ, ◌+◌, ◌*◌, Option, none, some, Bool, false, ltb, ◌==◌, ◌&&◌, if◌then◌else◌,
}

-- The value of the key, a time, and when it expires.
pub record Lease : Type 0 where
  pub value : ℕ
  pub expires : ℕ

-- lock_timeout, in microseconds
abbrev pub lock_timeout : ℕ
lock_timeout = 5 * 1000000

unfoldable pub is_held : ℕ → Option Lease → Bool
is_held now none = false
is_held now (some l) = ltb now l.expires

-- SET key value NX EX timeout: the key after it if it was set.
unfoldable pub set_nx : ℕ → ℕ → Option Lease → Option Lease
set_nx value now lock =
    if is_held now lock then none else some (record { value = value; expires = now + lock_timeout })

-- The two tries, at `now` and, if that fails, a tenth of a second later, each on the key as it then
-- is. Both write the value that was computed before the first.
unfoldable pub acquire_lock : ℕ → ℕ → Option Lease → Option Lease → Option Lease
acquire_lock now again first second = elim (set_nx now now first) [
  | some l ↦ some l
  | none ↦ set_nx now again second
]

-- GET of the key at the end: whether the key still has the value of this lease.
unfoldable pub still_owned : ℕ → ℕ → Option Lease → Bool
still_owned value now none = false
still_owned value now (some l) = ltb now l.expires && l.value == value
