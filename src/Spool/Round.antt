-- ===== src/Spool/Round.antt =====
-- What one round and one pass of the worker do to the file of a name.
use smart_parking_platform.Prelude.{
  ℕ, ◌+◌, ◌≤◌, ◌<◌, String, Option, none, some, Bool, true, false, ◌≡◌, refl, ap, ◌∙◌, arith, ltb,
  leb, lookup, lookup-insert, lookup-erase, text_eq, text_eq_refl, Bool-cases, Option-cases, inl,
  inr,
}
use smart_parking_platform.Spool.Files.{Envelope, Directory, Spool}
use smart_parking_platform.Spool.Worker.{
  moved, start_processing, back_to_pending, unlink_processing, write_pending, write_dead_letter,
  failed_attempt, attempt, process_file, max_retry_attempts,
}

-- What the three directories hold under a name.
pub record Entry : Type 0 where
  pub is_pending : Option (Option Envelope)
  pub is_processing : Option (Option Envelope)
  pub is_dead : Option (Option Envelope)

abbrev pub entry : String → Spool → Entry
entry name s = record {
  is_pending = lookup name s.pending;
  is_processing = lookup name s.processing;
  is_dead = lookup name s.dead_letter;
}

module _ (process : Envelope → Bool) (now : ℕ) where
  -- A processed webhook is gone.
  pub processed_is_gone :
      (name : String) (e : Envelope) (s : Spool)
      → process e ≡ true
      → lookup name s.pending ≡ some (some e)
      → entry name (attempt process now name e s)
        ≡ record { is_pending = none; is_processing = none; is_dead = lookup name s.dead_letter }
  unfolding attempt start_processing unlink_processing
  processed_is_gone name e s works found =
      simp (works, found, lookup-insert, lookup-erase, text_eq_refl)

  -- The last failed attempt moves the webhook, with its count, to the dead letters.
  pub last_attempt_is_dead :
      (name : String) (e : Envelope) (s : Spool)
      → process e ≡ false
      → 5 ≤ e.retry_count + 1
      → lookup name s.pending ≡ some (some e)
      → entry name (attempt process now name e s) ≡ record {
        is_pending = none;
        is_processing = none;
        is_dead = some (some (record e { retry_count = e.retry_count + 1 }));
      }
  unfolding attempt failed_attempt start_processing unlink_processing write_dead_letter
  last_attempt_is_dead name e s fails last found =
      let big : leb max_retry_attempts (e.retry_count + 1) ≡ true = ground (arith, last) in
      simp (fails, big, found, lookup-insert, lookup-erase, text_eq_refl)

  -- A failed attempt that is not the last leaves the file as it was.
  pub retry_restores :
      (name : String) (e : Envelope) (s : Spool)
      → process e ≡ false
      → e.retry_count + 1 < 5
      → lookup name s.pending ≡ some (some e)
      → entry name (attempt process now name e s) ≡ record {
        is_pending = some (some e);
        is_processing = none;
        is_dead = lookup name s.dead_letter;
      }
  unfolding attempt failed_attempt start_processing back_to_pending write_pending
  retry_restores name e s fails few found =
      let small : leb max_retry_attempts (e.retry_count + 1) ≡ false = ground (arith, few) in
      simp (fails, small, found, lookup-insert, lookup-erase, text_eq_refl)

  moved_elsewhere :
      (name j : String) (o : Option (Option Envelope)) (d : Directory)
      → text_eq name j ≡ false
      → lookup j (moved name o d) ≡ lookup j d
  moved_elsewhere name j none d other = refl
  moved_elsewhere name j (some f) d other = simp (lookup-insert, other)

  attempt_elsewhere :
      (name j : String) (e : Envelope) (s : Spool)
      → text_eq name j ≡ false
      → entry j (attempt process now name e s) ≡ entry j s
  unfolding attempt failed_attempt start_processing back_to_pending write_pending unlink_processing
      write_dead_letter
  attempt_elsewhere name j e s other = elim (Bool-cases (process e)) [
    | inl works ↦ simp (works, lookup-erase, moved_elsewhere, other)
    | inr fails ↦ elim (Bool-cases (leb max_retry_attempts (e.retry_count + 1))) [
      | inl last ↦ simp (fails, last, lookup-erase, lookup-insert, moved_elsewhere, other)
      | inr few ↦ simp (fails, few, lookup-erase, lookup-insert, moved_elsewhere, other)
    ]
  ]

  pub due_file :
      (name : String) (e : Envelope) (s : Spool)
      → lookup name s.pending ≡ some (some e)
      → ltb now e.next_retry_at ≡ false
      → process_file process now name s ≡ attempt process now name e s
  unfolding process_file
  due_file name e s found due = ground (arith, found, due)

  pub early_file :
      (name : String) (e : Envelope) (s : Spool)
      → lookup name s.pending ≡ some (some e)
      → ltb now e.next_retry_at ≡ true
      → process_file process now name s ≡ s
  unfolding process_file
  early_file name e s found early = ground (arith, found, early)

  pub missing_file :
      (name : String) (s : Spool)
      → lookup name s.pending ≡ none
      → process_file process now name s ≡ s
  unfolding process_file
  missing_file name s gone = ground (arith, gone)

  pub unreadable_file :
      (name : String) (s : Spool)
      → lookup name s.pending ≡ some none
      → process_file process now name s ≡ s
  unfolding process_file
  unreadable_file name s bad = ground (arith, bad)

  pub process_file_elsewhere :
      (name j : String) (s : Spool)
      → text_eq name j ≡ false
      → entry j (process_file process now name s) ≡ entry j s
  process_file_elsewhere name j s other = elim (Option-cases (lookup name s.pending)) [
    | inl gone ↦ ap (entry j) (missing_file name s gone)
    | inr (some e, found) ↦ elim (Bool-cases (ltb now e.next_retry_at)) [
      | inl early ↦ ap (entry j) (early_file name e s found early)
      | inr due ↦ ap (entry j) (due_file name e s found due) ∙ attempt_elsewhere name j e s other
    ]
    | inr (none, bad) ↦ ap (entry j) (unreadable_file name s bad)
  ]
