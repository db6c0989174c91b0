-- ===== src/Spaces/Examples.antt =====
-- The theorems on the spaces at concrete inputs, over the Redis in memory.
use smart_parking_platform.Prelude.{
  ℕ, String, List, [], ◌∷◌, none, some, true, false, ◌≤◌, ◌≡◌, refl, arith,
}
use smart_parking_platform.Redis.{absent, memory}
use smart_parking_platform.Downlink.Types.{
  Key, Item, CommandHash, QueueRedis, same_key, same_item, merge,
}
use smart_parking_platform.Downlink.Worker.{Downlink}
use smart_parking_platform.Reservations.Types.{confirmed, active, ReservationRow, Database}
use smart_parking_platform.Reservations.Disjoint
use smart_parking_platform.Spaces.Types.{free, occupied, reserved, Space, DisplayDevice}
use smart_parking_platform.Spaces.Lock.{set_nx, is_held, still_owned, acquire_lock}
use smart_parking_platform.Spaces.Display.{World, DirectAnswer, queued, durable}
use smart_parking_platform.Spaces.Manager.{
  get_space, is_live_space, is_valid_transition, valid_transitions,
}
use smart_parking_platform.Spaces.Refinement.{Call, follow, follow_all, run_calls, HasState}
use smart_parking_platform.Spaces.Automaton.{run_refines}
use smart_parking_platform.Spaces.History.{done, IsLogged, log_leads_to_the_state}
use smart_parking_platform.Spaces.Protocol.{
  System, Event, try_set, check, delete, tick, step, enter, compare_value, remove_key, run_events,
}
use smart_parking_platform.Spaces.Exclusion.{
  live_holders, is_live, is_timely, timely_clients_exclude, late_delete_lets_two_in,
}
use smart_parking_platform.Spaces.Availability.{
  check_availability, is_active, booked_space_is_available,
}

abbrev in_memory : QueueRedis
in_memory = memory Key Item CommandHash same_key same_item merge

abbrev digest : String → String → ℕ → String
digest eui payload fport = payload

abbrev chirpstack : Downlink → DirectAnswer
chirpstack d = queued (some "q")

abbrev bay : Space
bay = record {
  id = "s1";
  code = "A1";
  state = free;
  sensor_eui = none;
  display_eui = some "E1";
  tenant_id = some "t";
  updated_at = 0;
  deleted_at = none;
}

abbrev panel : DisplayDevice
panel = record {
  id = "d1";
  dev_eui = "E1";
  display_codes = ("FREE", "00") ∷ ("OCCUPIED", "01") ∷ ("RESERVED", "02") ∷ [];
  fport = 15;
  confirmed_downlinks = false;
  enabled = true;
}

abbrev park : World in_memory
park = record {
  spaces = bay ∷ [];
  displays = panel ∷ [];
  changes = [];
  actuations = [];
  cache = λ key. none;
  store = λ k. absent;
  sent = [];
}

abbrev reserve : Call
reserve = record {
  now = 10;
  again = 20;
  first_seen = none;
  second_seen = none;
  reading = record { started = 11; ended = 12; new_id = "c1" };
  space_id = "s1";
  new_state = reserved;
  source = "sensor";
  request_id = "r1";
}

-- The second call finds the lock taken, the third asks for what is not allowed.
abbrev traffic : List Call
traffic =
    reserve
    ∷ record reserve {
      new_state = occupied;
      first_seen = some (record { value = 9; expires = 90 });
      second_seen = some (record { value = 9; expires = 90 });
    }
    ∷ record reserve { new_state = occupied }
    ∷ record reserve { new_state = reserved }
    ∷ []

run_refines_example :
    HasState in_memory digest chirpstack "none" durable "s1"
      (follow_all "s1" free traffic)
      (run_calls in_memory digest chirpstack "none" durable traffic park)
unfolding get_space is_live_space
run_refines_example =
    run_refines in_memory digest chirpstack "none" durable "s1" free traffic park (bay, refl, refl)

ends_occupied : follow_all "s1" free traffic ≡ occupied
unfolding follow_all follow acquire_lock set_nx is_held is_valid_transition valid_transitions
ends_occupied = refl

log_leads_to_the_state_example :
    IsLogged in_memory digest chirpstack "none" durable "s1" free
      (run_calls in_memory digest chirpstack "none" durable traffic park)
unfolding get_space is_live_space
log_leads_to_the_state_example =
    log_leads_to_the_state in_memory digest chirpstack "none" durable "s1" free traffic park
      (bay, refl, done free)

abbrev idle : System
idle = record { now = 0; lock = none; holders = [] }

-- The first client leaves in time, the second one after its lease, by the GET alone.
abbrev queue_up : List Event
queue_up =
    try_set 1 0
    ∷ try_set 2 1
    ∷ check 1
    ∷ delete 1
    ∷ try_set 2 1
    ∷ tick 6000000
    ∷ try_set 3 6000000
    ∷ check 2
    ∷ []

timely_clients_exclude_example : live_holders (run_events queue_up idle) ≤ 1
unfolding is_timely step enter compare_value remove_key set_nx is_held still_owned is_live
timely_clients_exclude_example =
    timely_clients_exclude queue_up idle
      (refl, (refl, (refl, (refl, (refl, (refl, (refl, (refl, tt))))))))
      (record { few = omega arith; own = tt })

-- Client 1 is at its DELETE when its lease has expired and client 2 has the lock.
abbrev late : System
late = record {
  now = 6000000;
  lock = some (record { value = 5999999; expires = 10999999 });
  holders =
      record {
        client = 2;
        lease = record { value = 5999999; expires = 10999999 };
        deleting = false;
      }
      ∷ record { client = 1; lease = record { value = 0; expires = 5000000 }; deleting = true }
      ∷ [];
}

late_delete_lets_two_in_example :
    2 ≤ live_holders (run_events (delete 1 ∷ try_set 3 6000000 ∷ []) late)
unfolding is_live
late_delete_lets_two_in_example = late_delete_lets_two_in 1 3 6000000 late refl refl refl

-- From the beginning: a GET in time, then a DELETE after the lease of another one has started.
late_is_reached :
    live_holders (
      run_events
        (try_set 1 0
          ∷ tick 4999999
          ∷ check 1
          ∷ tick 1
          ∷ try_set 2 5000000
          ∷ delete 1
          ∷ try_set 3 5000000
          ∷ [])
        idle)
    ≡ 2
unfolding run_events step enter compare_value remove_key set_nx is_held still_owned is_live
late_is_reached = refl

abbrev row : ReservationRow
row = record {
  id = "r";
  space_id = "s1";
  tenant_id = "t";
  start_time = 100;
  end_time = 200;
  user_email = none;
  user_phone = none;
  status = active;
  metadata = none;
  request_id = "q";
  created_at = 0;
}

abbrev town : Database
town = record {
  spaces = record { id = "s1"; tenant_id = "t"; deleted_at = none } ∷ [];
  reservations = record row { status = confirmed } ∷ [];
}

booked_space_is_available_example :
    check_availability "s1" 150 160
      (Disjoint.run_calls (Disjoint.cancel "other" none ∷ []) town).reservations
    ≡ true
unfolding is_active
booked_space_is_available_example =
    booked_space_is_available (Disjoint.cancel "other" none ∷ []) town "s1" 150 160 (refl, tt)
