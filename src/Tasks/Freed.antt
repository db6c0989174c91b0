-- ===== src/Tasks/Freed.antt =====
-- What the expiry does to spaces.
use smart_parking_platform.Prelude.{
  ℕ, String, text_append, List, [], ◌∷◌, some, true, false, ◌≡◌, refl, ap, ◌∙◌, arith, text_eq,
  text_eq_refl, eq_iff, first, first-rewrite, rewrite, any, tally, Bool-cases, Option-cases, inl,
  inr, subst, if◌then◌else◌,
}
use smart_parking_platform.Downlink.Types.{QueueRedis}
use smart_parking_platform.Downlink.Worker.{Downlink}
use smart_parking_platform.Reservations.Types.{expired, ReservationRow}
use smart_parking_platform.Reservations.Booking.{is_live, has_id}
use smart_parking_platform.Spaces.Types.{SpaceState, free, occupied, reserved, maintenance}
use smart_parking_platform.Spaces.Display.{World, Delivery, DirectAnswer}
use smart_parking_platform.Spaces.Manager.{is_valid_transition, valid_transitions}
use smart_parking_platform.Spaces.Refinement.{Call, gets_lock, follow, run_call, HasState}
use smart_parking_platform.Spaces.Automaton.{step_refines}
use smart_parking_platform.Tasks.Expiry.{
  Moment, is_due, due_ids, expire_old_reservations, Platform, update_at, free_space, free_spaces,
  expiry_round,
}

-- The call of `update_space_state` for an expired reservation.
abbrev pub freeing : Moment → String → String → Call
freeing m id space_id = record {
  now = m.now;
  again = m.again;
  first_seen = m.first_seen;
  second_seen = m.second_seen;
  reading = m.reading;
  space_id = space_id;
  new_state = free;
  source = "reservation_expired";
  request_id = text_append "expiry_" id;
}

free_is_allowed :
    (state : SpaceState) (source : String)
    → (if is_valid_transition state free source then free else state) ≡ free
unfolding is_valid_transition valid_transitions
free_is_allowed free source = ground arith
free_is_allowed occupied source = ground arith
free_is_allowed reserved source = ground arith
free_is_allowed maintenance source = ground arith

-- A call that frees a space, and one for a space that is free.
follow-freeing :
    (m : Moment) (id space_id : String) (state : SpaceState)
    → gets_lock (freeing m id space_id) ≡ true
    → follow space_id state (freeing m id space_id) ≡ free
unfolding follow
follow-freeing m id space_id state got =
    rw (text_eq_refl space_id, got) (free_is_allowed state "reservation_expired")

follow_free :
    (m : Moment) (id space_id other : String) → follow space_id free (freeing m id other) ≡ free
unfolding follow
follow_free m id space_id other = ground arith

-- An id that is due is found, with the same space after the UPDATE.
due_ids-has :
    (now : ℕ) (r : ReservationRow) (rows : List ReservationRow)
    → first (has_id r.id) rows ≡ some r
    → is_due now r ≡ true
    → any (text_eq r.id) (due_ids now rows) ≡ true
unfolding due_ids
due_ids-has now r [] found due = ground arith
due_ids-has now r (q ∷ qs) found due = elim (Bool-cases (has_id r.id q)) [
  | inl hit ↦
      let same : q ≡ r = ground (arith, found, hit) in
      let due' : is_due now q ≡ true = ap (is_due now) same ∙ due in
      let own : text_eq r.id q.id ≡ true = rw same (text_eq_refl r.id) in ground (arith, due', own)
  | inr miss ↦ ground (arith, due_ids-has now r qs (ground (arith, found, miss)) due)
]

ended : (now : ℕ) (r : ReservationRow) → is_due now (record r { status = expired }) ≡ false
unfolding is_due is_live
ended now r = refl

none_due :
    (now : ℕ) (rows : List ReservationRow)
    → tally (is_due now) (rewrite (is_due now) (λ r. record r { status = expired }) rows) ≡ 0
none_due now [] = refl
none_due now (r ∷ rs) = ground (arith, ended now r, none_due now rs)

module _ (R : QueueRedis) (content_hash : String → String → ℕ → String)
    (chirpstack : Downlink → DirectAnswer) (no_tenant : String) (mode : Delivery)
    (at : String → Moment) (rows : List ReservationRow) where
  abbrev Has : String → SpaceState → World R → Type 0
  Has space_id state w = HasState R content_hash chirpstack no_tenant mode space_id state w

  abbrev one : String → World R → World R
  one id w = free_space R content_hash chirpstack no_tenant mode at rows id w

  abbrev all : List String → World R → World R
  all ids w = free_spaces R content_hash chirpstack no_tenant mode at rows ids w

  one_call :
      (id : String) (r : ReservationRow) (w : World R)
      → first (has_id id) rows ≡ some r
      → one id w
        ≡ run_call R content_hash chirpstack no_tenant mode (freeing (at id) id r.space_id) w
  unfolding free_space update_at
  one_call id r w found = rw (found, free_space) refl

  -- A space that is there stays there.
  one-HasState :
      (id space_id : String) (state : SpaceState) (w : World R)
      → Has space_id state w
      → (later : SpaceState) × Has space_id later (one id w)
  unfolding free_space
  one-HasState id space_id state w has = elim (Option-cases (first (has_id id) rows)) [
    | inl gone ↦ (state, rw (gone, free_space) has)
    | inr (r, found) ↦ (
      follow space_id state (freeing (at id) id r.space_id),
      rw (one_call id r w found) (
          step_refines R content_hash chirpstack no_tenant mode space_id state
            (freeing (at id) id r.space_id) w has),
    )
  ]

  one-free :
      (id space_id : String) (w : World R) → Has space_id free w → Has space_id free (one id w)
  unfolding free_space
  one-free id space_id w has = elim (Option-cases (first (has_id id) rows)) [
    | inl gone ↦ rw (gone, free_space) has
    | inr (r, found) ↦ rw (one_call id r w found) (
        subst
          (λ q.
            Has space_id q
              (run_call R content_hash chirpstack no_tenant mode (freeing (at id) id r.space_id) w))
          (follow_free (at id) id space_id r.space_id)
          (step_refines R content_hash chirpstack no_tenant mode space_id free
            (freeing (at id) id r.space_id) w has))
  ]

  all-free :
      (ids : List String) (space_id : String) (w : World R)
      → Has space_id free w
      → Has space_id free (all ids w)
  unfolding free_spaces
  all-free [] space_id w has = has
  all-free (id ∷ ids) space_id w has = all-free ids space_id (one id w) (one-free id space_id w has)

  all_freed :
      (ids : List String) (id : String) (r : ReservationRow) (state : SpaceState) (w : World R)
      → any (text_eq id) ids ≡ true
      → first (has_id id) rows ≡ some r
      → gets_lock (freeing (at id) id r.space_id) ≡ true
      → Has r.space_id state w
      → Has r.space_id free (all ids w)
  unfolding free_spaces
  all_freed [] id r state w listed found got has = ground (arith, listed)
  all_freed (i ∷ ids) id r state w listed found got has = elim (Bool-cases (text_eq id i)) [
    | inl here ↦
        let own : id ≡ i = (eq_iff id i).0 here in
        let now_free : Has r.space_id free (one id w) = rw (one_call id r w found) (
          subst
            (λ q.
              Has r.space_id q (
                run_call R content_hash chirpstack no_tenant mode (freeing (at id) id r.space_id)
                  w))
            (follow-freeing (at id) id r.space_id state got)
            (step_refines R content_hash chirpstack no_tenant mode r.space_id state
              (freeing (at id) id r.space_id) w has)) in
        all-free ids r.space_id (one i w) (subst (λ k. Has r.space_id free (one k w)) own now_free)
    | inr later ↦
        let (state', has') = one-HasState i r.space_id state w has in
        all_freed ids id r state' (one i w) (ground (arith, listed, later)) found got has'
  ]

module _ (R : QueueRedis) (content_hash : String → String → ℕ → String)
    (chirpstack : Downlink → DirectAnswer) (no_tenant : String) (mode : Delivery)
    (at : String → Moment) where
  -- One round of the expiry leaves no live reservation that is past its end. The space of each that it
  -- ends, if it is there and its lock is got, is then FREE, whatever its state was: also if a sensor
  -- has seen it OCCUPIED, it is in MAINTENANCE, or a later reservation has made it RESERVED.
  pub expiry_frees_the_space :
      (now : ℕ) (p : Platform R) (r : ReservationRow) (state : SpaceState)
      → first (has_id r.id) p.reservations ≡ some r
      → is_due now r ≡ true
      → gets_lock (freeing (at r.id) r.id r.space_id) ≡ true
      → HasState R content_hash chirpstack no_tenant mode r.space_id state p.parking
      → let p' = expiry_round R content_hash chirpstack no_tenant mode at now p in
        HasState R content_hash chirpstack no_tenant mode r.space_id free p'.parking
        × (tally (is_due now) p'.reservations ≡ 0)
  unfolding expiry_round expire_old_reservations
  expiry_frees_the_space now p r state found due got has =
      let r' : ReservationRow = record r { status = expired } in
      let moved =
        first-rewrite (has_id r.id) (is_due now) (λ q. record q { status = expired }) p.reservations
          (λ q. refl) in
      let found' : first (has_id r.id)
            (rewrite (is_due now) (λ q. record q { status = expired }) p.reservations)
          ≡ some r' =
        moved ∙ rw (found, due) refl in
      (
        all_freed R content_hash chirpstack no_tenant mode at _ (due_ids now p.reservations) r.id r'
            state p.parking (due_ids-has now r p.reservations found due) found' got has,
        none_due now p.reservations,
      )
