-- ===== src/Spool/Worker.antt =====
-- `_process_pending_files`: one pass of the worker over the pending files. The handler that the class
-- expects to be injected is a parameter, `process`; the stub of the source always fails.
use smart_parking_platform.Prelude.{
  ℕ, ◌+◌, ◌*◌, ◌^◌, min, String, List, [], ◌∷◌, Option, none, some, Bool, false, ltb, leb,
  if◌then◌else◌, lookup, insert, erase, keys, sorted,
}
use smart_parking_platform.Spool.Files.{Envelope, Directory, Spool}

abbrev pub max_retry_attempts : ℕ
max_retry_attempts = 5

abbrev pub initial_backoff_seconds : ℕ
initial_backoff_seconds = 2

abbrev pub max_backoff_seconds : ℕ
max_backoff_seconds = 300

abbrev pub second : ℕ
second = 1000000

-- `_process_envelope`, a stub in the source
abbrev pub process_envelope : Envelope → Bool
process_envelope e = false

unfoldable pub backoff_seconds : ℕ → ℕ
backoff_seconds retry_count = min (initial_backoff_seconds * 2 ^ retry_count) max_backoff_seconds

-- What is found under a name that was renamed.
abbrev pub moved : String → Option (Option Envelope) → Directory → Directory
moved name none d = d
moved name (some f) d = insert name f d

-- rename from one directory to another: what stood under the name there is replaced
unfoldable pub start_processing : String → Spool → Spool
start_processing name s = record s {
  pending = erase name s.pending;
  processing = moved name (lookup name s.pending) s.processing;
}

unfoldable pub back_to_pending : String → Spool → Spool
back_to_pending name s = record s {
  pending = moved name (lookup name s.processing) s.pending;
  processing = erase name s.processing;
}

unfoldable pub unlink_processing : String → Spool → Spool
unlink_processing name s = record s { processing = erase name s.processing }

unfoldable pub write_pending : String → Envelope → Spool → Spool
write_pending name e s = record s { pending = insert name (some e) s.pending }

unfoldable pub write_dead_letter : String → Envelope → Spool → Spool
write_dead_letter name e s = record s { dead_letter = insert name (some e) s.dead_letter }

-- The envelope of the next attempt.
unfoldable pub rescheduled : ℕ → Envelope → Envelope
rescheduled now e = record e {
  retry_count = e.retry_count + 1;
  next_retry_at = now + backoff_seconds (e.retry_count + 1) * second;
}

-- A failed attempt on a file that was renamed to `processing`.
unfoldable pub failed_attempt : ℕ → String → Envelope → Spool → Spool
failed_attempt now name e s =
    if leb max_retry_attempts (e.retry_count + 1)
    then unlink_processing name
        (write_dead_letter name (record e { retry_count = e.retry_count + 1 }) s)
    else back_to_pending name (write_pending name (rescheduled now e) s)

module _ (process : Envelope → Bool) where
  -- A file that is due.
  unfoldable pub attempt : ℕ → String → Envelope → Spool → Spool
  attempt now name e s =
      if process e
      then unlink_processing name (start_processing name s)
      else failed_attempt now name e (start_processing name s)

  -- One round of the loop. A file that is gone or unreadable raises, which is logged.
  unfoldable pub process_file : ℕ → String → Spool → Spool
  process_file now name s = elim (lookup name s.pending) [
    | none ↦ s
    | some none ↦ s
    | some (some e) ↦ if ltb now e.next_retry_at then s else attempt now name e s
  ]

  unfoldable pub process_files : ℕ → List String → Spool → Spool
  process_files now [] s = s
  process_files now (name ∷ names) s = process_files now names (process_file now name s)

  -- `_process_pending_files`
  unfoldable pub process_pending_files : ℕ → Spool → Spool
  process_pending_files now s = process_files now (sorted (keys s.pending)) s

  -- `_worker_loop`, at the times at which its passes run
  unfoldable pub worker_loop : List ℕ → Spool → Spool
  worker_loop [] s = s
  worker_loop (now ∷ times) s = worker_loop times (process_pending_files now s)
