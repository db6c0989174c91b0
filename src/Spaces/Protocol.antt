-- ===== src/Spaces/Protocol.antt =====
-- The lock of one space between its clients: the Redis commands of `acquire_lock` one at a time, in
-- any order, with the clock.
use smart_parking_platform.Prelude.{
  ℕ, ◌+◌, List, [], ◌∷◌, Option, none, some, Bool, true, false, ◌&&◌, not, ◌==◌, any, first, keep,
  rewrite, if◌then◌else◌,
}
use smart_parking_platform.Spaces.Lock.{Lease, set_nx, still_owned}

-- A client whose SET has succeeded, until it has left; `deleting` after its GET has shown its value.
pub record Holder : Type 0 where
  pub client : ℕ
  pub lease : Lease
  pub deleting : Bool

pub record System : Type 0 where
  pub now : ℕ
  pub lock : Option Lease
  pub holders : List Holder

-- The SET of a client with its value, its GET, its DELETE, and the time that goes by.
pub data Event : Type 0 where
  try_set : ℕ → ℕ → Event
  check delete : ℕ → Event
  tick : ℕ → Event

abbrev pub is_client : ℕ → Holder → Bool
is_client c h = h.client == c

abbrev pub is_inside : ℕ → Holder → Bool
is_inside c h = h.client == c && not h.deleting

abbrev pub is_deleting : ℕ → Holder → Bool
is_deleting c h = h.client == c && h.deleting

unfoldable pub enter : ℕ → ℕ → System → System
enter c value s = if any (is_client c) s.holders then s else elim (set_nx value s.now s.lock) [
  | none ↦ s
  | some l ↦ record s {
    lock = some l;
    holders = record { client = c; lease = l; deleting = false } ∷ s.holders;
  }
]

-- GET: go on to the DELETE, or leave.
unfoldable pub compare_value : ℕ → System → System
compare_value c s = elim (first (is_inside c) s.holders) [
  | none ↦ s
  | some h ↦
      if still_owned h.lease.value s.now s.lock
      then record s {
        holders = rewrite (is_inside c) (λ g. record g { deleting = true }) s.holders;
      }
      else record s { holders = keep (λ g. not (is_client c g)) s.holders }
]

unfoldable pub remove_key : ℕ → System → System
remove_key c s =
    if any (is_deleting c) s.holders
    then record s { lock = none; holders = keep (λ g. not (is_client c g)) s.holders }
    else s

unfoldable pub step : Event → System → System
step (try_set c value) s = enter c value s
step (check c) s = compare_value c s
step (delete c) s = remove_key c s
step (tick n) s = record s { now = s.now + n }

unfoldable pub run_events : List Event → System → System
run_events [] s = s
run_events (e ∷ es) s = run_events es (step e s)
