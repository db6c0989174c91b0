-- ===== src/Reservations/Disjoint.antt =====
-- No double booking: the reservations of a space stay disjoint in time.
use smart_parking_platform.Prelude.{
  ℕ, String, text_eq, List, [], ◌∷◌, ◌++◌, Option, none, some, Bool, false, ◌&&◌, ◌≡◌, refl, arith,
  All, All-append, any, rewrite, first, Bool-cases, Option-cases, inl, inr,
}
use smart_parking_platform.Reservations.Types.{expired, ReservationRow, Database, ReservationCreate}
use smart_parking_platform.Reservations.Booking.{
  is_live, excludes, insert_reservation, has_request, valid_times, book, create_reservation,
  request_of, fetch_request, fetch_space, new_row, has_id, cancel_row, cancel_reservation,
  expire_reservation,
}

-- Every row is compatible with every later one: of two live rows of a tenant and space, one ends
-- before the other starts.
abbrev pub AllDisjoint : List ReservationRow → Type 0
AllDisjoint [] = Unit
AllDisjoint (r ∷ rs) = All (λ q. excludes r q ≡ false) rs × AllDisjoint rs

All-any :
    (p : ReservationRow → Bool) (rs : List ReservationRow)
    → any p rs ≡ false
    → All (λ q. p q ≡ false) rs
All-any p [] h = tt
All-any p (q ∷ qs) h = (ground (arith, h), All-any p qs (ground (arith, h)))

AllDisjoint-append :
    (rs : List ReservationRow) (r : ReservationRow)
    → All (λ q. excludes q r ≡ false) rs
    → AllDisjoint rs
    → AllDisjoint (rs ++ r ∷ [])
AllDisjoint-append [] r fits h = (tt, tt)
AllDisjoint-append (q ∷ qs) r fits h = (
  All-append (λ z. excludes q z ≡ false) qs (r ∷ []) h.0 (fits.0, tt),
  AllDisjoint-append qs r fits.1 h.1,
)

-- A row that is not live is compatible with every row.
dead_left : (q r : ReservationRow) → is_live q.status ≡ false → excludes q r ≡ false
unfolding excludes
dead_left q r h = ground (arith, h)

dead_right : (q r : ReservationRow) → is_live r.status ≡ false → excludes q r ≡ false
unfolding excludes
dead_right q r h = ground (arith, h)

module _ (p : ReservationRow → Bool) (f : ReservationRow → ReservationRow)
    (ends : (r : ReservationRow) → is_live (f r).status ≡ false) where
  rewrite-fits :
      (q : ReservationRow) (rs : List ReservationRow)
      → All (λ r. excludes q r ≡ false) rs
      → All (λ r. excludes q r ≡ false) (rewrite p f rs)
  rewrite-fits q [] h = tt
  rewrite-fits q (r ∷ rs) h = elim (Bool-cases (p r)) [
    | inl e ↦ rw e (dead_right q (f r) (ends r), rewrite-fits q rs h.1)
    | inr e ↦ rw e (h.0, rewrite-fits q rs h.1)
  ]

  none_excluded :
      (q : ReservationRow) (rs : List ReservationRow)
      → is_live q.status ≡ false
      → All (λ r. excludes q r ≡ false) rs
  none_excluded q [] h = tt
  none_excluded q (r ∷ rs) h = (dead_left q r h, none_excluded q rs h)

  -- Ending the life of some rows keeps the rest disjoint.
  AllDisjoint-rewrite : (rs : List ReservationRow) → AllDisjoint rs → AllDisjoint (rewrite p f rs)
  AllDisjoint-rewrite [] h = tt
  AllDisjoint-rewrite (r ∷ rs) h = elim (Bool-cases (p r)) [
    | inl e ↦ rw e (none_excluded (f r) (rewrite p f rs) (ends r), AllDisjoint-rewrite rs h.1)
    | inr e ↦ rw e (rewrite-fits r rs h.0, AllDisjoint-rewrite rs h.1)
  ]

cancel_row_ends :
    (reason : Option String) (r : ReservationRow) → is_live (cancel_row reason r).status ≡ false
unfolding is_live cancel_row
cancel_row_ends none r = refl
cancel_row_ends (some reason) r = ground arith

expired_ends : (r : ReservationRow) → is_live expired ≡ false
unfolding is_live
expired_ends r = refl

insert_reservation-AllDisjoint :
    (r : ReservationRow) (db : Database)
    → AllDisjoint db.reservations
    → AllDisjoint (insert_reservation r db).1.reservations
unfolding insert_reservation
insert_reservation-AllDisjoint r db h = elim (Bool-cases (valid_times r)) [
  | inr e ↦ rw e h
  | inl e ↦ elim (Bool-cases (any (has_request r.request_id) db.reservations)) [
    | inl taken ↦ rw (e, taken) h
    | inr free ↦ elim (Bool-cases (any (λ q. excludes q r) db.reservations)) [
      | inl hit ↦ rw (e, free, hit) h
      | inr clear ↦
          rw (e, free, clear)
            (AllDisjoint-append db.reservations r
              (All-any (λ q. excludes q r) db.reservations clear) h)
    ]
  ]
]

book-AllDisjoint :
    (request : String) (q : ReservationCreate) (r : ReservationRow) (db : Database)
    → AllDisjoint db.reservations
    → AllDisjoint (book request q r db).1.reservations
unfolding book
book-AllDisjoint request q r db h = elim (Option-cases (insert_reservation r db).0) [
  | inl e ↦ rw (e, book) (insert_reservation-AllDisjoint r db h)
  | inr (error, e) ↦ rw (e, book) h
]

create-AllDisjoint :
    (new_id fresh : String) (now : ℕ) (q : ReservationCreate) (before db : Database)
    → AllDisjoint db.reservations
    → AllDisjoint (create_reservation new_id fresh now q before db).1.reservations
unfolding create_reservation
create-AllDisjoint new_id fresh now q before db h =
    elim (Option-cases (fetch_request (request_of fresh q) before)) [
      | inr (r, e) ↦ rw (e, create_reservation) h
      | inl e ↦ elim (Option-cases (fetch_space q.id before)) [
        | inl missing ↦ rw (e, missing, create_reservation) h
        | inr (s, found) ↦
            rw (e, found, create_reservation)
              (book-AllDisjoint (request_of fresh q) q
                (new_row new_id now (request_of fresh q) s.tenant_id q) db h)
      ]
    ]

cancel-AllDisjoint :
    (id : String) (reason : Option String) (db : Database)
    → AllDisjoint db.reservations
    → AllDisjoint (cancel_reservation id reason db).1.reservations
unfolding cancel_reservation
cancel-AllDisjoint id reason db h = elim (Option-cases (first (has_id id) db.reservations)) [
  | inl e ↦ rw (e, cancel_reservation) h
  | inr (r, e) ↦
      rw (e, cancel_reservation)
        (AllDisjoint-rewrite (has_id id) (cancel_row reason) (cancel_row_ends reason)
          db.reservations h)
]

expire-AllDisjoint :
    (id : String) (db : Database)
    → AllDisjoint db.reservations
    → AllDisjoint (expire_reservation id db).reservations
unfolding expire_reservation
expire-AllDisjoint id db h =
    AllDisjoint-rewrite (λ r. text_eq r.id id && is_live r.status)
      (λ r. record r { status = expired }) expired_ends db.reservations h

-- One request that changes the table. A creation takes the database that its first queries saw.
pub data Call : Type 0 where
  create : String → String → ℕ → ReservationCreate → Database → Call
  cancel : String → Option String → Call
  expire : String → Call

unfoldable pub run_call : Call → Database → Database
run_call (create new_id fresh now q before) db = (create_reservation new_id fresh now q before db).1
run_call (cancel id reason) db = (cancel_reservation id reason db).1
run_call (expire id) db = expire_reservation id db

unfoldable pub run_calls : List Call → Database → Database
run_calls [] db = db
run_calls (c ∷ cs) db = run_calls cs (run_call c db)

run_call-AllDisjoint :
    (c : Call) (db : Database)
    → AllDisjoint db.reservations
    → AllDisjoint (run_call c db).reservations
unfolding run_call
run_call-AllDisjoint (create new_id fresh now q before) db h =
    create-AllDisjoint new_id fresh now q before db h
run_call-AllDisjoint (cancel id reason) db h = cancel-AllDisjoint id reason db h
run_call-AllDisjoint (expire id) db h = expire-AllDisjoint id db h

-- From a table without double bookings, whatever creations, cancellations and expiries follow, in
-- any order and with creations whose first queries saw any other state of the database: no two live
-- reservations of a tenant's space overlap.
pub no_double_booking :
    (cs : List Call) (db : Database)
    → AllDisjoint db.reservations
    → AllDisjoint (run_calls cs db).reservations
unfolding run_calls
no_double_booking [] db h = h
no_double_booking (c ∷ cs) db h = no_double_booking cs (run_call c db) (run_call-AllDisjoint c db h)
