-- ===== src/Reservations/Types.antt =====
-- The rows and the requests. Times are microseconds.
use smart_parking_platform.Prelude.{ℕ, String, List, Option}

-- Python's integers.
pub data ℤ : Type 0 where
  pos negsuc : ℕ → ℤ

pub data JsonValue : Type 0 where
  text : String → JsonValue
  number : ℤ → JsonValue

pub data Status : Type 0 where
  pending confirmed cancelled expired active completed no_show : Status

-- A row of reservations; `metadata` is NULL or an object.
pub record ReservationRow : Type 0 where
  pub id : String
  pub space_id : String
  pub tenant_id : String
  pub start_time : ℕ
  pub end_time : ℕ
  pub user_email : Option String
  pub user_phone : Option String
  pub status : Status
  pub metadata : Option (List (String × JsonValue))
  pub request_id : String
  pub created_at : ℕ

pub record SpaceRow : Type 0 where
  pub id : String
  pub tenant_id : String
  pub deleted_at : Option ℕ

pub record Database : Type 0 where
  pub spaces : List SpaceRow
  pub reservations : List ReservationRow

pub record ReservationCreate : Type 0 where
  pub id : String
  pub reserved_from : ℕ
  pub reserved_until : ℕ
  pub request_id : Option String
  pub external_booking_id : Option String
  pub external_system : Option String
  pub reservation_type : Option String
  pub grace_period_minutes : Option ℤ
  pub user_email : Option String
  pub user_phone : Option String

-- How PostgreSQL refuses an INSERT: valid_times or valid_duration, the unique request_id, and the
-- exclusion constraint no_reservation_overlap.
pub data DbError : Type 0 where
  check_violation unique_violation exclusion_violation : DbError

-- The answers of the endpoints: 201, the same with `idempotent`, 409 with the conflicts, any other
-- HTTPException, and the 200 of a cancellation.
pub data Response : Type 0 where
  created : ReservationRow → Response
  idempotent : ReservationRow → Response
  conflict : List ReservationRow → Response
  http_error : ℕ → Response
  cancelled_ok : ReservationRow → Response
