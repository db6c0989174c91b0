-- ===== src/Reservations/Requests.antt =====
-- A request id stands for one reservation.
use smart_parking_platform.Prelude.{
  ℕ, String, text_eq, text_eq_refl, List, [], ◌∷◌, Option, none, some, Bool, ◌&&◌, ◌≡◌, ◌≢◌, refl,
  ap, ◌∙◌, arith, first, first-any, first-append, first-rewrite, rewrite, Bool-cases, Option-cases,
  inl, inr,
}
use smart_parking_platform.Reservations.Types.{
  expired, ReservationRow, Database, ReservationCreate, created, idempotent, DbError,
  check_violation, unique_violation, exclusion_violation,
}
use smart_parking_platform.Reservations.Booking.{
  is_live, insert_reservation, has_request, book, refused, create_reservation, request_of,
  fetch_request, fetch_space, new_row, has_id, cancel_row, cancel_reservation, expire_reservation,
}
use smart_parking_platform.Reservations.Disjoint.{Call, create, cancel, expire, run_call, run_calls}

-- The same booking: only its status and its metadata may differ.
pub record IsSameBooking (r r' : ReservationRow) : Type 0 where
  pub same_id : r'.id ≡ r.id
  pub same_space : r'.space_id ≡ r.space_id
  pub same_tenant : r'.tenant_id ≡ r.tenant_id
  pub same_start : r'.start_time ≡ r.start_time
  pub same_end : r'.end_time ≡ r.end_time

IsSameBooking-refl : (r : ReservationRow) → IsSameBooking r r
IsSameBooking-refl r = record {
  same_id = refl;
  same_space = refl;
  same_tenant = refl;
  same_start = refl;
  same_end = refl;
}

IsSameBooking-trans :
    (a b c : ReservationRow) → IsSameBooking a b → IsSameBooking b c → IsSameBooking a c
IsSameBooking-trans a b c h k = record {
  same_id = k.same_id ∙ h.same_id;
  same_space = k.same_space ∙ h.same_space;
  same_tenant = k.same_tenant ∙ h.same_tenant;
  same_start = k.same_start ∙ h.same_start;
  same_end = k.same_end ∙ h.same_end;
}

-- The request is still answered by the booking.
abbrev pub Holds : String → ReservationRow → Database → Type 0
Holds request r db =
    (r' : ReservationRow) × (fetch_request request db ≡ some r') × IsSameBooking r r'

cancel_row_request :
    (reason : Option String) (r : ReservationRow) → (cancel_row reason r).request_id ≡ r.request_id
unfolding cancel_row
cancel_row_request none r = refl
cancel_row_request (some reason) r = ground arith

cancel_row_same :
    (reason : Option String) (r : ReservationRow) → IsSameBooking r (cancel_row reason r)
unfolding cancel_row
cancel_row_same none r = record {
  same_id = refl;
  same_space = refl;
  same_tenant = refl;
  same_start = refl;
  same_end = refl;
}
cancel_row_same (some reason) r = record {
  same_id = ground arith;
  same_space = ground arith;
  same_tenant = ground arith;
  same_start = ground arith;
  same_end = ground arith;
}

-- Rewriting rows to the same bookings keeps the answer.
module _ (p : ReservationRow → Bool) (f : ReservationRow → ReservationRow)
    (keeps_request : (r : ReservationRow) → (f r).request_id ≡ r.request_id)
    (keeps_booking : (r : ReservationRow) → IsSameBooking r (f r)) where
  rewrite-Holds :
      (request : String) (r : ReservationRow) (db : Database)
      → Holds request r db
      → Holds request r (record db { reservations = rewrite p f db.reservations })
  unfolding fetch_request
  rewrite-Holds request r db (r', e, same) =
      let found =
        first-rewrite (has_request request) p f db.reservations
          (λ x. ap (λ z. text_eq z request) (keeps_request x)) in
      elim (Bool-cases (p r')) [
        | inl hit ↦ (
          f r',
          ground (arith, found, e, hit),
          IsSameBooking-trans r r' (f r') same (keeps_booking r'),
        )
        | inr miss ↦ (r', ground (arith, found, e, miss), same)
      ]

book-Holds :
    (request : String) (q : ReservationCreate) (n r : ReservationRow) (db : Database)
    (wanted : String)
    → fetch_request wanted db ≡ some r
    → fetch_request wanted (book request q n db).1 ≡ some r
unfolding book insert_reservation fetch_request
book-Holds request q n r db wanted e =
    let appended = first-append (has_request wanted) db.reservations (n ∷ []) in
    ground (arith, e, appended)

create-Holds :
    (new_id fresh : String) (now : ℕ) (q : ReservationCreate) (r : ReservationRow)
    (before db : Database) (wanted : String)
    → fetch_request wanted db ≡ some r
    → fetch_request wanted (create_reservation new_id fresh now q before db).1 ≡ some r
unfolding create_reservation
create-Holds new_id fresh now q r before db wanted e =
    elim (Option-cases (fetch_request (request_of fresh q) before)) [
      | inr (x, known) ↦ rw (known, create_reservation) e
      | inl new ↦ elim (Option-cases (fetch_space q.id before)) [
        | inl missing ↦ rw (new, missing, create_reservation) e
        | inr (s, found) ↦
            rw (new, found, create_reservation)
              (book-Holds (request_of fresh q) q
                (new_row new_id now (request_of fresh q) s.tenant_id q) r db wanted e)
      ]
    ]

expired_same : (r : ReservationRow) → IsSameBooking r (record r { status = expired })
expired_same r = record {
  same_id = refl;
  same_space = refl;
  same_tenant = refl;
  same_start = refl;
  same_end = refl;
}

cancel-Holds :
    (request id : String) (reason : Option String) (r : ReservationRow) (db : Database)
    → Holds request r db
    → Holds request r (cancel_reservation id reason db).1
unfolding cancel_reservation
cancel-Holds request id reason r db h = elim (Option-cases (first (has_id id) db.reservations)) [
  | inl e ↦ rw (e, cancel_reservation) h
  | inr (q, e) ↦
      rw (e, cancel_reservation)
        (rewrite-Holds (has_id id) (cancel_row reason) (cancel_row_request reason)
          (cancel_row_same reason) request r db h)
]

run_call-Holds :
    (request : String) (r : ReservationRow) (c : Call) (db : Database)
    → Holds request r db
    → Holds request r (run_call c db)
unfolding run_call
run_call-Holds request r (create new_id fresh now q before) db (r', e, same) =
    (r', create-Holds new_id fresh now q r' before db request e, same)
run_call-Holds request r (cancel id reason) db h = cancel-Holds request id reason r db h
run_call-Holds request r (expire id) db h =
    unfold expire_reservation in
    rewrite-Holds (λ q. text_eq q.id id && is_live q.status) (λ q. record q { status = expired })
      (λ q. refl) expired_same request r db h

run_calls-Holds :
    (request : String) (r : ReservationRow) (cs : List Call) (db : Database)
    → Holds request r db
    → Holds request r (run_calls cs db)
unfolding run_calls
run_calls-Holds request r [] db h = h
run_calls-Holds request r (c ∷ cs) db h =
    run_calls-Holds request r cs (run_call c db) (run_call-Holds request r c db h)

-- What a booking that was made leaves in the table.
inserted :
    (n : ReservationRow) (db : Database)
    → (insert_reservation n db).0 ≡ none
    → fetch_request n.request_id (insert_reservation n db).1 ≡ some n
unfolding insert_reservation fetch_request
inserted n db made =
    let appended = first-append (has_request n.request_id) db.reservations (n ∷ []) in
    let nothing = first-any (has_request n.request_id) db.reservations in
    ground (arith, made, appended, nothing, text_eq_refl n.request_id)

refused_is_not_made :
    (request : String) (q : ReservationCreate) (error : DbError) (db : Database)
    (r : ReservationRow)
    → refused request q error db ≢ created r
unfolding refused
refused_is_not_made request q check_violation db r h = ground arith
refused_is_not_made request q unique_violation db r h =
    elim (Option-cases (fetch_request request db)) [
      | inl e ↦ ground (arith, e, h)
      | inr (x, e) ↦ ground (arith, e, h)
    ]
refused_is_not_made request q exclusion_violation db r h = ground arith

book_made :
    (request : String) (q : ReservationCreate) (n r : ReservationRow) (db : Database)
    → n.request_id ≡ request
    → (book request q n db).0 ≡ created r
    → fetch_request request (book request q n db).1 ≡ some r
unfolding book
book_made request q n r db own made = elim (Option-cases (insert_reservation n db).0) [
  | inl e ↦
      let same : n ≡ r = ground (arith, made, e) in
      rw (← own, e, book) (inserted n db e ∙ ap some same)
  | inr (error, e) ↦ ground (arith, made, e, refused_is_not_made request q error db r)
]

create_made :
    (new_id fresh : String) (now : ℕ) (q : ReservationCreate) (before db : Database)
    (r : ReservationRow)
    → (create_reservation new_id fresh now q before db).0 ≡ created r
    → fetch_request (request_of fresh q) (create_reservation new_id fresh now q before db).1
      ≡ some r
unfolding create_reservation
create_made new_id fresh now q before db r made =
    let request = request_of fresh q in
    elim (Option-cases (fetch_request request before)) [
      | inr (x, known) ↦ ground (arith, made, known)
      | inl new ↦ elim (Option-cases (fetch_space q.id before)) [
        | inl missing ↦ ground (arith, made, new, missing)
        | inr (s, found) ↦
            let n = new_row new_id now request s.tenant_id q in
            let own : n.request_id ≡ request = unfold new_row in refl in
            rw (new, found, create_reservation)
              (book_made request q n r db own (ground (arith, made, new, found)))
      ]
    ]

-- Once a request id has made a reservation, a creation with the same id changes nothing and answers
-- with that booking, whatever it asks for, and whatever creations, cancellations and expiries came
-- in between, if its first queries see the database as it then is.
pub retried_request_makes_nothing :
    (new_id fresh new_id' fresh' : String) (now later : ℕ) (q q' : ReservationCreate)
    (before db : Database) (r : ReservationRow) (cs : List Call)
    → (create_reservation new_id fresh now q before db).0 ≡ created r
    → request_of fresh' q' ≡ request_of fresh q
    → let db' = run_calls cs (create_reservation new_id fresh now q before db).1 in
      (r' : ReservationRow) × (create_reservation new_id' fresh' later q' db' db'
        ≡ (idempotent r', db'))
      × IsSameBooking r r'
unfolding create_reservation
retried_request_makes_nothing new_id fresh new_id' fresh' now later q q' before db r cs made same =
    let db' = run_calls cs (create_reservation new_id fresh now q before db).1 in
    let (r', found, booking) =
      run_calls-Holds (request_of fresh q) r cs (create_reservation new_id fresh now q before db).1
        (r, create_made new_id fresh now q before db r made, IsSameBooking-refl r) in
    (r', ground (arith, found, same), booking)
