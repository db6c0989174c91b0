-- ===== src/Reservations/Examples.antt =====
-- The theorems on reservations at concrete inputs.
use smart_parking_platform.Prelude.{List, ◌∷◌, [], none, some, ◌≡◌, refl}
use smart_parking_platform.Reservations.Types.{
  ReservationRow, Database, ReservationCreate, created, idempotent, conflict,
}
use smart_parking_platform.Reservations.Booking.{
  create_reservation, request_of, fetch_request, fetch_space, book, insert_reservation, valid_times,
  new_row, excludes, overlaps, is_live, refused, conflicting, by_start, insert_by_start,
  at_most_three,
}
use smart_parking_platform.Reservations.Disjoint.{
  AllDisjoint, Call, create, cancel, expire, run_calls, no_double_booking,
}
use smart_parking_platform.Reservations.Requests.{IsSameBooking, retried_request_makes_nothing}

abbrev morning : ReservationCreate
morning = record {
  id = "space";
  reserved_from = 100;
  reserved_until = 200;
  request_id = some "q1";
  external_booking_id = none;
  external_system = none;
  reservation_type = none;
  grace_period_minutes = none;
  user_email = none;
  user_phone = none;
}

abbrev overlapping : ReservationCreate
overlapping = record morning { reserved_from = 199; reserved_until = 300; request_id = some "q2" }

abbrev after : ReservationCreate
after = record morning { reserved_from = 200; reserved_until = 300; request_id = some "q3" }

abbrev town : Database
town = record {
  spaces = record { id = "space"; tenant_id = "t"; deleted_at = none } ∷ [];
  reservations = [];
}

abbrev calls : List Call
calls =
    create "r1" "f" 5 morning town
    ∷ create "r2" "f" 6 overlapping town
    ∷ create "r3" "f" 7 after town
    ∷ expire "r1"
    ∷ []

no_double_booking_example : AllDisjoint (run_calls calls town).reservations
no_double_booking_example = no_double_booking calls town tt

abbrev morning_row : ReservationRow
morning_row = new_row "r1" 5 "q1" "t" morning

morning_made : (create_reservation "r1" "f" 5 morning town town).0 ≡ created morning_row
unfolding create_reservation fetch_request request_of fetch_space book insert_reservation
    valid_times new_row
morning_made = refl

-- A reservation that overlaps is refused with the conflict.
overlap_refused :
    (create_reservation "r2" "f" 6 overlapping town
      (create_reservation "r1" "f" 5 morning town town).1).0
    ≡ conflict (morning_row ∷ [])
unfolding create_reservation fetch_request request_of fetch_space book insert_reservation
    valid_times new_row excludes overlaps is_live refused conflicting by_start insert_by_start
    at_most_three
overlap_refused = refl

retried_request_makes_nothing_example :
    let db =
      run_calls (cancel "r1" none ∷ []) (create_reservation "r1" "f" 5 morning town town).1 in
    (r' : ReservationRow) × (create_reservation "r9" "f" 9 morning db db ≡ (idempotent r', db))
    × IsSameBooking morning_row r'
retried_request_makes_nothing_example =
    retried_request_makes_nothing "r1" "f" "r9" "f" 5 9 morning morning town town morning_row
      (cancel "r1" none ∷ []) morning_made refl
