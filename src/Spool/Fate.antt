-- ===== src/Spool/Fate.antt =====
-- What becomes of a webhook in the spool.
use smart_parking_platform.Prelude.{
  ℕ, ◌+◌, ◌<◌, String, List, [], ◌∷◌, Option, some, none, Bool, true, false, any-sorted, any-keys,
  ◌≡◌, refl, ap, ◌∙◌, ltb, lookup, keys, sorted, text_eq, eq_iff, Bool-cases, inl, inr,
}
use smart_parking_platform.Spool.Files.{Envelope, Spool}
use smart_parking_platform.Spool.Worker.{
  process_file, process_files, process_pending_files, worker_loop,
}
use smart_parking_platform.Spool.Round.{
  retry_restores, due_file, early_file, process_file_elsewhere,
}
use smart_parking_platform.Spool.Kept.{reached}

module _ (process : Envelope → Bool) where
  -- A webhook that fails and has attempts left stays as it is.
  abbrev pub Stays : String → Envelope → Option (Option Envelope) → Spool → Type 0
  Stays name e dead s = (lookup name s.pending ≡ some (some e)) × (lookup name s.dead_letter ≡ dead)

  round-Stays :
      (now : ℕ) (name j : String) (e : Envelope) (dead : Option (Option Envelope)) (s : Spool)
      → process e ≡ false
      → e.retry_count + 1 < 5
      → Stays j e dead s
      → Stays j e dead (process_file process now name s)
  round-Stays now name j e dead s fails few (found, letters) = elim (Bool-cases (text_eq name j)) [
    | inr other ↦
        let same = process_file_elsewhere process now name j s other in
        (ap (λ x. x.is_pending) same ∙ found, ap (λ x. x.is_dead) same ∙ letters)
    | inl here ↦
        let n : name ≡ j = (eq_iff name j).0 here in
        rw n (elim (Bool-cases (ltb now e.next_retry_at)) [
          | inl early ↦ rw (early_file process now j e s found early) (found, letters)
          | inr due ↦
              let same = retry_restores process now j e s fails few found in
              rw (due_file process now j e s found due)
                (ap (λ x. x.is_pending) same, ap (λ x. x.is_dead) same ∙ letters)
        ])
  ]

  rounds-Stays :
      (now : ℕ) (names : List String) (j : String) (e : Envelope) (dead : Option (Option Envelope))
      (s : Spool)
      → process e ≡ false
      → e.retry_count + 1 < 5
      → Stays j e dead s
      → Stays j e dead (process_files process now names s)
  unfolding process_files
  rounds-Stays now [] j e dead s fails few h = h
  rounds-Stays now (name ∷ names) j e dead s fails few h =
      rounds-Stays now names j e dead (process_file process now name s) fails few
        (round-Stays now name j e dead s fails few h)

  failing_webhook-Stays :
      (times : List ℕ) (name : String) (e : Envelope) (s : Spool)
      → process e ≡ false
      → e.retry_count + 1 < 5
      → lookup name s.pending ≡ some (some e)
      → Stays name e (lookup name s.dead_letter) (worker_loop process times s)
  unfolding worker_loop process_pending_files
  failing_webhook-Stays [] name e s fails few found = (found, refl)
  failing_webhook-Stays (now ∷ times) name e s fails few found =
      let names = sorted (keys s.pending) in
      let (found', letters) =
        rounds-Stays now names name e (lookup name s.dead_letter) s fails few (found, refl) in
      let (found'', letters') =
        failing_webhook-Stays times name e (process_files process now names s) fails few found' in
      (found'', letters' ∙ letters)

-- A webhook whose processing always fails, and which has more than one of its five attempts left, is
-- in the pending directory unchanged after any passes of the worker, with the attempts and the time
-- of the next one that it had, and no pass makes it a dead letter. It is not forgotten either: after
-- these passes, the first pass from that time on in which its processing succeeds takes it off the
-- pending directory.
pub failing_webhook_never_dies :
    (process process' : Envelope → Bool) (times : List ℕ) (later : ℕ) (name : String) (e : Envelope)
    (s : Spool)
    → process e ≡ false
    → process' e ≡ true
    → e.retry_count + 1 < 5
    → ltb later e.next_retry_at ≡ false
    → lookup name s.pending ≡ some (some e)
    → let s' = worker_loop process times s in
      (lookup name s'.pending ≡ some (some e))
      × (lookup name s'.dead_letter ≡ lookup name s.dead_letter)
      × (lookup name (process_pending_files process' later s').pending ≡ none)
unfolding process_pending_files
failing_webhook_never_dies process process' times later name e s fails works few due found =
    let s' = worker_loop process times s in
    let (found', letters) = failing_webhook-Stays process times name e s fails few found in
    let listed =
      any-sorted (text_eq name) (keys s'.pending) ∙ any-keys name (some e) s'.pending found' in
    (
      found',
      letters,
      reached process' later (sorted (keys s'.pending)) name e s' listed found' works due,
    )
