-- ===== src/Tasks/Examples.antt =====
-- The theorem on the expiry at a concrete input, over the Redis in memory.
use smart_parking_platform.Prelude.{ℕ, String, [], ◌∷◌, none, some, ◌≡◌, refl, tally}
use smart_parking_platform.Redis.{absent, memory}
use smart_parking_platform.Downlink.Types.{
  Key, Item, CommandHash, QueueRedis, same_key, same_item, merge,
}
use smart_parking_platform.Downlink.Worker.{Downlink}
use smart_parking_platform.Reservations.Types.{confirmed, ReservationRow}
use smart_parking_platform.Reservations.Booking.{is_live}
use smart_parking_platform.Spaces.Types.{free, occupied}
use smart_parking_platform.Spaces.Lock.{acquire_lock, set_nx, is_held}
use smart_parking_platform.Spaces.Display.{DirectAnswer, queued, durable}
use smart_parking_platform.Spaces.Manager.{get_space, is_live_space}
use smart_parking_platform.Spaces.Refinement.{HasState}
use smart_parking_platform.Tasks.Expiry.{Moment, is_due, Platform, expiry_round}
use smart_parking_platform.Tasks.Freed.{expiry_frees_the_space}

abbrev in_memory : QueueRedis
in_memory = memory Key Item CommandHash same_key same_item merge

abbrev digest : String → String → ℕ → String
digest eui payload fport = payload

abbrev chirpstack : Downlink → DirectAnswer
chirpstack d = queued (some "q")

abbrev booking : ReservationRow
booking = record {
  id = "r1";
  space_id = "s1";
  tenant_id = "t";
  start_time = 10;
  end_time = 20;
  user_email = none;
  user_phone = none;
  status = confirmed;
  metadata = none;
  request_id = "q1";
  created_at = 0;
}

-- A car that has stayed longer than its reservation.
abbrev overstayed : Platform in_memory
overstayed = record {
  parking = record {
    spaces =
        record {
          id = "s1";
          code = "A1";
          state = occupied;
          sensor_eui = none;
          display_eui = none;
          tenant_id = some "t";
          updated_at = 0;
          deleted_at = none;
        }
        ∷ [];
    displays = [];
    changes = [];
    actuations = [];
    cache = λ key. none;
    store = λ k. absent;
    sent = [];
  };
  reservations = booking ∷ [];
}

abbrev at : String → Moment
at id = record {
  now = 21;
  again = 22;
  first_seen = none;
  second_seen = none;
  reading = record { started = 21; ended = 22; new_id = "c" };
}

expiry_frees_the_space_example :
    let p' = expiry_round in_memory digest chirpstack "none" durable at 21 overstayed in
    HasState in_memory digest chirpstack "none" durable "s1" free p'.parking
    × (tally (is_due 21) p'.reservations ≡ 0)
unfolding is_due is_live acquire_lock set_nx is_held get_space is_live_space
expiry_frees_the_space_example =
    expiry_frees_the_space in_memory digest chirpstack "none" durable at 21 overstayed booking
      occupied refl refl refl (_, refl, refl)
