-- ===== src/Spaces/Availability.antt =====
-- `check_availability` and `get_active_reservation_count`, over the table of the reservations.
use smart_parking_platform.Prelude.{
  ℕ, ◌<◌, String, text_eq, List, [], ◌∷◌, Option, none, some, Bool, true, false, ◌&&◌, ◌||◌, not,
  ltb, leb, ◌==◌, tally, any, All, All-append, All-rewrite, ◌≡◌, refl, arith, Bool-cases,
  Option-cases, inl, inr, first,
}
use smart_parking_platform.Reservations.Types.{
  Status, active, expired, ReservationRow, Database, ReservationCreate,
}
use smart_parking_platform.Reservations.Booking.{
  is_live, overlaps, valid_times, insert_reservation, has_request, book, create_reservation,
  request_of, fetch_request, fetch_space, new_row, has_id, cancel_row, cancel_reservation,
  expire_reservation,
}
use smart_parking_platform.Reservations.Disjoint.{Call, create, cancel, expire, run_call, run_calls}

-- status = 'active'
unfoldable pub is_active : Status → Bool
is_active active = true
is_active _ = false

-- The three ways to meet an interval, as the query has them.
unfoldable pub meets : ReservationRow → ℕ → ℕ → Bool
meets r from until =
    (leb r.start_time from && ltb from r.end_time)
    || ((ltb r.start_time until && leb until r.end_time)
        || (leb from r.start_time && leb r.end_time until))

unfoldable pub check_availability : String → ℕ → ℕ → List ReservationRow → Bool
check_availability id from until rows =
    tally (λ r. text_eq r.space_id id && (is_active r.status && meets r from until)) rows == 0

unfoldable pub get_active_reservation_count : ℕ → List ReservationRow → ℕ
get_active_reservation_count now rows = tally (λ r. is_live r.status && ltb now r.end_time) rows

meets_lem :
    (r : ReservationRow) (from until : ℕ)
    → from < until
    → valid_times r ≡ true
    → meets r from until ≡ overlaps r from until
unfolding meets overlaps valid_times
meets_lem r from until order valid = ground arith

abbrev pub IsStored : List ReservationRow → Type 0
IsStored rows = All (λ r. valid_times r ≡ true) rows

-- On rows that the table can hold and an interval that is not empty, the space is available exactly
-- if no active reservation of it overlaps the half-open interval.
three_ways_are_overlap :
    (id : String) (from until : ℕ) (rows : List ReservationRow)
    → from < until
    → IsStored rows
    → check_availability id from until rows
      ≡ not (any (λ r. text_eq r.space_id id && (is_active r.status && overlaps r from until)) rows)
unfolding check_availability
three_ways_are_overlap id from until [] order h = refl
three_ways_are_overlap id from until (r ∷ rs) order h =
    ground
      (arith, meets_lem r from until order h.0, three_ways_are_overlap id from until rs order h.1)

-- No row is active.
abbrev pub NoneActive : List ReservationRow → Type 0
NoneActive rows = All (λ r. is_active r.status ≡ false) rows

cancel_row-inactive :
    (reason : Option String) (r : ReservationRow) → is_active (cancel_row reason r).status ≡ false
unfolding is_active cancel_row
cancel_row-inactive none r = refl
cancel_row-inactive (some reason) r = ground arith

insert_reservation-NoneActive :
    (r : ReservationRow) (db : Database)
    → is_active r.status ≡ false
    → NoneActive db.reservations
    → NoneActive (insert_reservation r db).1.reservations
unfolding insert_reservation
insert_reservation-NoneActive r db idle h = elim (Bool-cases (valid_times r)) [
  | inr e ↦ rw e h
  | inl e ↦ elim (Bool-cases (any (has_request r.request_id) db.reservations)) [
    | inl taken ↦ rw (e, taken) h
    | inr free ↦
        let longer =
          All-append (λ q. is_active q.status ≡ false) db.reservations (r ∷ []) h (idle, tt) in
        rw (e, free) (ground (arith, longer, h))
  ]
]

book-NoneActive :
    (request : String) (q : ReservationCreate) (r : ReservationRow) (db : Database)
    → is_active r.status ≡ false
    → NoneActive db.reservations
    → NoneActive (book request q r db).1.reservations
unfolding book
book-NoneActive request q r db idle h = elim (Option-cases (insert_reservation r db).0) [
  | inl e ↦ rw (e, book) (insert_reservation-NoneActive r db idle h)
  | inr (error, e) ↦ rw (e, book) h
]

new_row-inactive :
    (new_id request tenant : String) (now : ℕ) (q : ReservationCreate)
    → is_active (new_row new_id now request tenant q).status ≡ false
unfolding new_row is_active
new_row-inactive new_id request tenant now q = refl

create-NoneActive :
    (new_id fresh : String) (now : ℕ) (q : ReservationCreate) (before db : Database)
    → NoneActive db.reservations
    → NoneActive (create_reservation new_id fresh now q before db).1.reservations
unfolding create_reservation
create-NoneActive new_id fresh now q before db h =
    elim (Option-cases (fetch_request (request_of fresh q) before)) [
      | inr (r, e) ↦ rw (e, create_reservation) h
      | inl e ↦ elim (Option-cases (fetch_space q.id before)) [
        | inl missing ↦ rw (e, missing, create_reservation) h
        | inr (s, found) ↦
            rw (e, found, create_reservation)
              (book-NoneActive (request_of fresh q) q
                (new_row new_id now (request_of fresh q) s.tenant_id q) db
                (new_row-inactive new_id (request_of fresh q) s.tenant_id now q) h)
      ]
    ]

cancel-NoneActive :
    (id : String) (reason : Option String) (db : Database)
    → NoneActive db.reservations
    → NoneActive (cancel_reservation id reason db).1.reservations
unfolding cancel_reservation
cancel-NoneActive id reason db h = elim (Option-cases (first (has_id id) db.reservations)) [
  | inl e ↦ rw (e, cancel_reservation) h
  | inr (r, e) ↦
      rw (e, cancel_reservation)
        (All-rewrite (λ q. is_active q.status ≡ false) (has_id id) (cancel_row reason)
          db.reservations (λ q idle. cancel_row-inactive reason q) h)
]

expire-NoneActive :
    (id : String) (db : Database)
    → NoneActive db.reservations
    → NoneActive (expire_reservation id db).reservations
unfolding expire_reservation is_active
expire-NoneActive id db h =
    All-rewrite (λ q. is_active q.status ≡ false) (λ r. text_eq r.id id && is_live r.status)
      (λ r. record r { status = expired }) db.reservations (λ q idle. refl) h

run_calls-NoneActive :
    (cs : List Call) (db : Database)
    → NoneActive db.reservations
    → NoneActive (run_calls cs db).reservations
unfolding run_calls run_call
run_calls-NoneActive [] db h = h
run_calls-NoneActive (create new_id fresh now q before ∷ cs) db h =
    run_calls-NoneActive cs _ (create-NoneActive new_id fresh now q before db h)
run_calls-NoneActive (cancel id reason ∷ cs) db h =
    run_calls-NoneActive cs _ (cancel-NoneActive id reason db h)
run_calls-NoneActive (expire id ∷ cs) db h = run_calls-NoneActive cs _ (expire-NoneActive id db h)

inactive_is_available :
    (id : String) (from until : ℕ) (rows : List ReservationRow)
    → NoneActive rows
    → check_availability id from until rows ≡ true
unfolding check_availability
inactive_is_available id from until [] h = refl
inactive_is_available id from until (r ∷ rs) h =
    ground (arith, h.0, inactive_is_available id from until rs h.1)

-- From a table without active reservations, whatever bookings, cancellations and expiries follow:
-- every space is reported as available at every time, the booked times included.
pub booked_space_is_available :
    (cs : List Call) (db : Database) (id : String) (from until : ℕ)
    → NoneActive db.reservations
    → check_availability id from until (run_calls cs db).reservations ≡ true
booked_space_is_available cs db id from until h =
    inactive_is_available id from until (run_calls cs db).reservations
      (run_calls-NoneActive cs db h)
