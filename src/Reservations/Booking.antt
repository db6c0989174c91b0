-- ===== src/Reservations/Booking.antt =====
-- create_reservation, cancel_reservation and the expiry, with the constraints of the table.
use smart_parking_platform.Prelude.{
  ℕ, ◌-◌, String, text_eq, truthy, List, [], ◌∷◌, ◌++◌, Option, none, some, Bool, true, false, ◌&&◌,
  not, ltb, leb, if◌then◌else◌, keep, first, any, rewrite,
}
use smart_parking_platform.Reservations.Types.{
  JsonValue, text, number, Status, pending, confirmed, cancelled, expired, ReservationRow, SpaceRow,
  Database, ReservationCreate, DbError, check_violation, unique_violation, exclusion_violation,
  Response, created, idempotent, conflict, http_error, cancelled_ok,
}

-- status IN ('pending', 'confirmed')
unfoldable pub is_live : Status → Bool
is_live pending = true
is_live confirmed = true
is_live _ = false

-- tstzrange(a.start, a.end, '[)') && tstzrange(b.start, b.end, '[)'), of ranges that are not empty
unfoldable pub overlaps : ReservationRow → ℕ → ℕ → Bool
overlaps r from until = ltb r.start_time until && ltb from r.end_time

-- Two rows that the exclusion constraint does not allow together.
unfoldable pub excludes : ReservationRow → ReservationRow → Bool
excludes q r =
    is_live q.status
    && (is_live r.status
        && (text_eq q.tenant_id r.tenant_id
            && (text_eq q.space_id r.space_id && overlaps q r.start_time r.end_time)))

abbrev pub longest : ℕ
longest = 86400000000

-- CHECK (end_time > start_time) and CHECK (end_time - start_time <= INTERVAL '24 hours')
unfoldable pub valid_times : ReservationRow → Bool
valid_times r = ltb r.start_time r.end_time && leb (r.end_time - r.start_time) longest

abbrev pub has_request : String → ReservationRow → Bool
has_request request r = text_eq r.request_id request

-- The INSERT: the new table, or the violation.
unfoldable pub insert_reservation : ReservationRow → Database → Option DbError × Database
insert_reservation r db =
    if not (valid_times r)
    then (some check_violation, db)
    else if any (has_request r.request_id) db.reservations
    then (some unique_violation, db)
    else if any (λ q. excludes q r) db.reservations
    then (some exclusion_violation, db)
    else (none, record db { reservations = db.reservations ++ r ∷ [] })

-- SELECT ... WHERE request_id = $1
unfoldable pub fetch_request : String → Database → Option ReservationRow
fetch_request request db = first (has_request request) db.reservations

-- SELECT ... FROM spaces WHERE id = $1 AND deleted_at IS NULL
unfoldable pub fetch_space : String → Database → Option SpaceRow
fetch_space id db =
    first (λ s. text_eq s.id id && elim s.deleted_at [ none ↦ true | some _ ↦ false ]) db.spaces

-- `if value: metadata[key] = value`
unfoldable pub entry : String → Option String → List (String × JsonValue)
entry key none = []
entry key (some s) = if truthy s then (key, text s) ∷ [] else []

-- `metadata`, which is NULL where nothing is given.
unfoldable pub metadata_of : ReservationCreate → List (String × JsonValue)
metadata_of q =
    entry "external_booking_id" q.external_booking_id
    ++ entry "external_system" q.external_system
    ++ entry "reservation_type" q.reservation_type
    ++ (elim q.grace_period_minutes [
      | none ↦ []
      | some n ↦ ("grace_period_minutes", number n) ∷ []
    ])

unfoldable pub or_null : List (String × JsonValue) → Option (List (String × JsonValue))
or_null [] = none
or_null (e ∷ es) = some (e ∷ es)

-- The row to insert, for the tenant of the space.
unfoldable pub new_row : String → ℕ → String → String → ReservationCreate → ReservationRow
new_row new_id now request tenant q = record {
  id = new_id;
  space_id = q.id;
  tenant_id = tenant;
  start_time = q.reserved_from;
  end_time = q.reserved_until;
  user_email = q.user_email;
  user_phone = q.user_phone;
  status = confirmed;
  metadata = or_null (metadata_of q);
  request_id = request;
  created_at = now;
}

-- ORDER BY start_time
unfoldable pub insert_by_start : ReservationRow → List ReservationRow → List ReservationRow
insert_by_start r [] = r ∷ []
insert_by_start r (q ∷ qs) =
    let rest = insert_by_start r qs in
    if leb r.start_time q.start_time then r ∷ q ∷ qs else q ∷ rest

unfoldable pub by_start : List ReservationRow → List ReservationRow
by_start [] = []
by_start (r ∷ rs) = insert_by_start r (by_start rs)

-- LIMIT 3
unfoldable pub at_most_three : List ReservationRow → List ReservationRow
at_most_three (a ∷ b ∷ c ∷ rest) = a ∷ b ∷ c ∷ []
at_most_three rs = rs

-- The rows that a conflict names: those of the space, of any tenant.
unfoldable pub conflicting : ReservationCreate → Database → List ReservationRow
conflicting q db = at_most_three (
    by_start (
      keep
        (λ r.
          text_eq r.space_id q.id
          && (is_live r.status && overlaps r q.reserved_from q.reserved_until))
        db.reservations))

-- The handling of a refused INSERT.
unfoldable pub refused : String → ReservationCreate → DbError → Database → Response
refused request q check_violation db = http_error 500
refused request q unique_violation db = elim (fetch_request request db) [
  | none ↦ http_error 500
  | some r ↦ idempotent r
]
refused request q exclusion_violation db = conflict (conflicting q db)

-- The INSERT and what follows it.
unfoldable pub book : String → ReservationCreate → ReservationRow → Database → Response × Database
book request q r db =
    let (error, db') = insert_reservation r db in
    elim error [ none ↦ (created r, db') | some e ↦ (refused request q e db, db) ]

-- `reservation.request_id or uuid.uuid4()`
unfoldable pub request_of : String → ReservationCreate → String
request_of fresh q = elim q.request_id [ none ↦ fresh | some r ↦ r ]

-- `create_reservation`. The queries before the INSERT see the database `before`, the INSERT meets it
-- as `db`: other requests may have run in between.
unfoldable pub create_reservation :
    String → String → ℕ → ReservationCreate → Database → Database → Response × Database
create_reservation new_id fresh now q before db =
    let request = request_of fresh q in
    elim (fetch_request request before) [
      | some r ↦ (idempotent r, db)
      | none ↦ elim (fetch_space q.id before) [
        | none ↦ (http_error 404, db)
        | some s ↦ book request q (new_row new_id now request s.tenant_id q) db
      ]
    ]

abbrev pub has_id : String → ReservationRow → Bool
has_id id r = text_eq r.id id

-- COALESCE(metadata, '{}')
abbrev pub or_empty : Option (List (String × JsonValue)) → List (String × JsonValue)
or_empty none = []
or_empty (some m) = m

-- jsonb_set at the key cancellation_reason
unfoldable pub with_reason : String → Option (List (String × JsonValue)) → List (String × JsonValue)
with_reason reason m =
    keep (λ e. not (text_eq e.0 "cancellation_reason")) (or_empty m)
    ++ ("cancellation_reason", text reason) ∷ []

-- SET status = 'cancelled', and the reason if one is given
unfoldable pub cancel_row : Option String → ReservationRow → ReservationRow
cancel_row none r = record r { status = cancelled }
cancel_row (some reason) r =
    if truthy reason
    then record r { status = cancelled; metadata = some (with_reason reason r.metadata) }
    else record r { status = cancelled }

-- `cancel_reservation`
unfoldable pub cancel_reservation : String → Option String → Database → Response × Database
cancel_reservation id reason db = elim (first (has_id id) db.reservations) [
  | none ↦ (http_error 404, db)
  | some r ↦ (
    cancelled_ok (cancel_row reason r),
    record db { reservations = rewrite (has_id id) (cancel_row reason) db.reservations },
  )
]

-- The UPDATE of `_reservation_end_task`.
unfoldable pub expire_reservation : String → Database → Database
expire_reservation id db = record db {
  reservations =
      rewrite (λ r. text_eq r.id id && is_live r.status) (λ r. record r { status = expired })
        db.reservations;
}
