-- ===== src/Spool/Kept.antt =====
-- No pass of the worker loses a webhook, and a due webhook that can be processed is.
use smart_parking_platform.Prelude.{
  ℕ, ◌+◌, ◌≤◌, String, List, [], ◌∷◌, Option, none, some, Bool, true, false, ◌≡◌, refl, ap, sym,
  ◌∙◌, arith, ltb, leb, any, lookup, keys, sorted, lookup-insert, any-keys, any-sorted, text_eq,
  text_eq_refl, eq_iff, Bool-cases, inl, inr, subst,
}
use smart_parking_platform.Spool.Files.{Envelope, Spool, file_name, new_envelope, enqueue}
use smart_parking_platform.Spool.Worker.{
  attempt, process_file, process_files, process_pending_files,
}
use smart_parking_platform.Spool.Round.{
  Entry, entry, processed_is_gone, last_attempt_is_dead, retry_restores, due_file, early_file,
  missing_file, unreadable_file, process_file_elsewhere,
}

module _ (process : Envelope → Bool) where
  -- What may stand under the name of a file that was pending: the same file, nothing if it was
  -- processed, or nothing but a dead letter that counts one more attempt.
  pub data Kept (f : Option Envelope) (n : Entry) : Type 0 where
    still_pending : n.is_pending ≡ some f → n.is_processing ≡ none → Kept f n
    was_processed :
        (e : Envelope)
        → f ≡ some e
        → process e ≡ true
        → n.is_pending ≡ none
        → n.is_processing ≡ none
        → Kept f n
    was_buried :
        (e : Envelope)
        → f ≡ some e
        → process e ≡ false
        → n.is_pending ≡ none
        → n.is_processing ≡ none
        → n.is_dead ≡ some (some (record e { retry_count = e.retry_count + 1 }))
        → Kept f n

  attempt-Kept :
      (now : ℕ) (j : String) (e : Envelope) (s : Spool)
      → lookup j s.pending ≡ some (some e)
      → Kept (some e) (entry j (attempt process now j e s))
  attempt-Kept now j e s found = elim (Bool-cases (process e)) [
    | inl works ↦
        rw (processed_is_gone process now j e s works found) (was_processed e refl works refl refl)
    | inr fails ↦ elim (Bool-cases (leb 5 (e.retry_count + 1))) [
      | inl last ↦
          rw (last_attempt_is_dead process now j e s fails (ground (arith, last)) found)
            (was_buried e refl fails refl refl refl)
      | inr few ↦
          rw (retry_restores process now j e s fails (ground (arith, few)) found)
            (still_pending refl refl)
    ]
  ]

  pending-Kept :
      (now : ℕ) (j : String) (f : Option Envelope) (s : Spool)
      → lookup j s.pending ≡ some f
      → lookup j s.processing ≡ none
      → Kept f (entry j (process_file process now j s))
  pending-Kept now j none s found idle =
      rw (unreadable_file process now j s found) (still_pending found idle)
  pending-Kept now j (some e) s found idle = elim (Bool-cases (ltb now e.next_retry_at)) [
    | inl early ↦ rw (early_file process now j e s found early) (still_pending found idle)
    | inr due ↦ rw (due_file process now j e s found due) (attempt-Kept now j e s found)
  ]

  here-Kept :
      (now : ℕ) (j : String) (f : Option Envelope) (s : Spool)
      → Kept f (entry j s)
      → Kept f (entry j (process_file process now j s))
  here-Kept now j f s (still_pending found idle) = pending-Kept now j f s found idle
  here-Kept now j f s (was_processed e same works gone idle) =
      rw (missing_file process now j s gone) (was_processed e same works gone idle)
  here-Kept now j f s (was_buried e same fails gone idle dead) =
      rw (missing_file process now j s gone) (was_buried e same fails gone idle dead)

  round-Kept :
      (now : ℕ) (name j : String) (f : Option Envelope) (s : Spool)
      → Kept f (entry j s)
      → Kept f (entry j (process_file process now name s))
  round-Kept now name j f s h = elim (Bool-cases (text_eq name j)) [
    | inl here ↦ rw ((eq_iff name j).0 here) (here-Kept now j f s h)
    | inr other ↦ subst (Kept f) (sym (process_file_elsewhere process now name j s other)) h
  ]

  rounds-Kept :
      (now : ℕ) (names : List String) (j : String) (f : Option Envelope) (s : Spool)
      → Kept f (entry j s)
      → Kept f (entry j (process_files process now names s))
  unfolding process_files
  rounds-Kept now [] j f s h = h
  rounds-Kept now (name ∷ names) j f s h =
      rounds-Kept now names j f (process_file process now name s) (round-Kept now name j f s h)

  -- After a pass of the worker, a file that was pending (and not at the same time in processing) is
  -- pending as it was, or it was processed with success and is gone, or its processing failed and it
  -- is a dead letter with one more attempt; it is never left in the processing directory.
  pass_loses_nothing :
      (now : ℕ) (j : String) (f : Option Envelope) (s : Spool)
      → lookup j s.pending ≡ some f
      → lookup j s.processing ≡ none
      → Kept f (entry j (process_pending_files process now s))
  unfolding process_pending_files
  pass_loses_nothing now j f s found idle =
      rounds-Kept now (sorted (keys s.pending)) j f s (still_pending found idle)

module _ (process : Envelope → Bool) (now : ℕ) where
  stays_gone :
      (names : List String) (j : String) (s : Spool)
      → lookup j s.pending ≡ none
      → lookup j (process_files process now names s).pending ≡ none
  unfolding process_files
  stays_gone [] j s gone = gone
  stays_gone (name ∷ names) j s gone =
      stays_gone names j (process_file process now name s) (elim (Bool-cases (text_eq name j)) [
        | inl here ↦ rw ((eq_iff name j).0 here, missing_file process now j s gone) gone
        | inr other ↦
            ap (λ x. x.is_pending) (process_file_elsewhere process now name j s other) ∙ gone
      ])

  -- A due file that a pass lists is attempted: with success it is gone.
  pub reached :
      (names : List String) (j : String) (e : Envelope) (s : Spool)
      → any (text_eq j) names ≡ true
      → lookup j s.pending ≡ some (some e)
      → process e ≡ true
      → ltb now e.next_retry_at ≡ false
      → lookup j (process_files process now names s).pending ≡ none
  unfolding process_files
  reached [] j e s there found works due = ground (arith, there)
  reached (name ∷ names) j e s there found works due = elim (Bool-cases (text_eq j name)) [
    | inl here ↦
        let n : j ≡ name = (eq_iff j name).0 here in
        rw (← n) (
          stays_gone names j (process_file process now j s) (
            rw (due_file process now j e s found due)
              (ap (λ x. x.is_pending) (processed_is_gone process now j e s works found))))
    | inr other ↦
        let apart : text_eq name j ≡ false = ground (arith, other, eq_iff j name, eq_iff name j) in
        reached names j e (process_file process now name s) (ground (arith, there, other))
          (ap (λ x. x.is_pending) (process_file_elsewhere process now name j s apart) ∙ found) works
          due
  ]

  -- A webhook that is spooled is off the pending directory after the next pass, at that time or
  -- later, if it is then processed with success.
  spooled_webhook_is_processed :
      (id : String) (at : ℕ) (data_text device request : String) (metadata : List (String × String))
      (s : Spool)
      → at ≤ now
      → process (new_envelope id at data_text device request metadata) ≡ true
      → lookup
          (file_name id)
          (process_pending_files process now
            (enqueue id at data_text device request metadata s).1).pending
        ≡ none
  unfolding process_pending_files enqueue
  spooled_webhook_is_processed id at data_text device request metadata s late works =
      let e = new_envelope id at data_text device request metadata in
      let s' = (enqueue id at data_text device request metadata s).1 in
      let found : lookup (file_name id) s'.pending ≡ some (some e) =
        lookup-insert (file_name id) (file_name id) (some e) s.pending
        ∙ rw (text_eq_refl (file_name id)) refl in
      reached (sorted (keys s'.pending)) (file_name id) e s'
        (any-sorted (text_eq (file_name id)) (keys s'.pending)
          ∙ any-keys (file_name id) (some e) s'.pending found)
        found works (unfold new_envelope in ground (arith, late))
