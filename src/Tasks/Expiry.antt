-- ===== src/Tasks/Expiry.antt =====
-- The start and the end of a reservation, and one round of the expiry loop with the SQL function
-- expire_old_reservations.
use smart_parking_platform.Prelude.{
  ℕ, String, text_append, List, [], ◌∷◌, Option, none, some, Bool, true, false, ◌&&◌, ltb, text_eq,
  first, rewrite, if◌then◌else◌,
}
use smart_parking_platform.Downlink.Types.{QueueRedis}
use smart_parking_platform.Downlink.Worker.{Downlink}
use smart_parking_platform.Reservations.Types.{expired, ReservationRow}
use smart_parking_platform.Reservations.Booking.{is_live, has_id}
use smart_parking_platform.Spaces.Types.{
  SpaceState, free, reserved, Update, returned, invalid_transition, lock_taken,
}
use smart_parking_platform.Spaces.Lock.{Lease}
use smart_parking_platform.Spaces.Display.{World, Reading, Delivery, DirectAnswer}
use smart_parking_platform.Spaces.Manager.{update_space_state}

-- What one update of a space reads from outside.
pub record Moment : Type 0 where
  pub now : ℕ
  pub again : ℕ
  pub first_seen : Option Lease
  pub second_seen : Option Lease
  pub reading : Reading

-- WHERE status IN ('pending', 'confirmed') AND end_time < NOW()
unfoldable pub is_due : ℕ → ReservationRow → Bool
is_due now r = is_live r.status && ltb r.end_time now

unfoldable pub due_ids : ℕ → List ReservationRow → List String
due_ids now [] = []
due_ids now (r ∷ rs) = let rest = due_ids now rs in if is_due now r then r.id ∷ rest else rest

-- `expire_old_reservations`
unfoldable pub expire_old_reservations : ℕ → List ReservationRow → List String × List ReservationRow
expire_old_reservations now rows =
    (due_ids now rows, rewrite (is_due now) (λ r. record r { status = expired }) rows)

module _ (R : QueueRedis) where
  pub record Platform : Type 0 where
    pub parking : World R
    pub reservations : List ReservationRow

  module _ (content_hash : String → String → ℕ → String) (chirpstack : Downlink → DirectAnswer)
      (no_tenant : String) (mode : Delivery) where
    unfoldable pub update_at :
        Moment → String → SpaceState → String → String → World R → Update × World R
    update_at m space_id state source request w =
        update_space_state R content_hash chirpstack no_tenant mode m.now m.again m.first_seen
          m.second_seen m.reading space_id state source request w

    -- `_reservation_start_task`, after its delay; an exception is logged
    unfoldable pub reservation_start_task : Moment → String → String → Platform → Platform
    reservation_start_task m id space_id p = record p {
      parking =
          (update_at m space_id reserved "reservation_start" (text_append "bg_task_" id)
            p.parking).1;
    }

    abbrev pub is_return : Update → Bool
    is_return (returned r) = true
    is_return (invalid_transition a b) = false
    is_return lock_taken = false

    -- `_reservation_end_task`, after its delay; an exception of the update skips the rest
    unfoldable pub reservation_end_task : Moment → String → String → Platform → Platform
    reservation_end_task m id space_id p =
        let (update, parking) =
          update_at m space_id free "reservation_end" (text_append "bg_task_" id) p.parking in
        if is_return update
        then record p {
          parking = parking;
          reservations =
              rewrite (λ r. text_eq r.id id && is_live r.status)
                (λ r. record r { status = expired }) p.reservations;
        }
        else record p { parking = parking }

    -- The space of one expired reservation; an exception is logged.
    unfoldable pub free_space : (String → Moment) → List ReservationRow → String → World R → World R
    free_space at rows id w = elim (first (has_id id) rows) [
      | none ↦ w
      | some r ↦
          (update_at (at id) r.space_id free "reservation_expired" (text_append "expiry_" id) w).1
    ]

    unfoldable pub free_spaces :
        (String → Moment) → List ReservationRow → List String → World R → World R
    free_spaces at rows [] w = w
    free_spaces at rows (id ∷ ids) w = free_spaces at rows ids (free_space at rows id w)

    -- One round of `_reservation_expiry_loop`
    unfoldable pub expiry_round : (String → Moment) → ℕ → Platform → Platform
    expiry_round at now p =
        let (ids, rows) = expire_old_reservations now p.reservations in
        record { parking = free_spaces at rows ids p.parking; reservations = rows }
