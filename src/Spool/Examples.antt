-- ===== src/Spool/Examples.antt =====
-- The theorems on the spool at concrete inputs.
use smart_parking_platform.Prelude.{◌∷◌, [], none, some, Bool, ◌≡◌, refl, lookup, arith, text_eq}
use smart_parking_platform.Spool.Files.{Envelope, Spool}
use smart_parking_platform.Spool.Worker.{process_envelope, process_pending_files, worker_loop}
use smart_parking_platform.Spool.Fate.{failing_webhook_never_dies}

abbrev empty_spool : Spool
empty_spool = record { pending = []; processing = []; dead_letter = [] }

abbrev uplink : Envelope
uplink = record {
  id = "w";
  device_eui = "E1";
  request_id = "req";
  enqueued_at = 10;
  retry_count = 0;
  next_retry_at = 10;
  webhook_data = "{}";
  metadata = [];
}

abbrev one_webhook : Spool
one_webhook = record empty_spool { pending = ("w.json", some uplink) ∷ [] }

abbrev accepts : Envelope → Bool
accepts e = text_eq e.device_eui "E1"

-- The stub of the source never succeeds; a handler that accepts the device would.
failing_webhook_never_dies_example :
    let s' = worker_loop process_envelope (20 ∷ 30 ∷ 40 ∷ 50 ∷ 60 ∷ 70 ∷ []) one_webhook in
    (lookup "w.json" s'.pending ≡ some (some uplink))
    × (lookup "w.json" s'.dead_letter ≡ none)
    × (lookup "w.json" (process_pending_files accepts 80 s').pending ≡ none)
unfolding lookup
failing_webhook_never_dies_example =
    failing_webhook_never_dies process_envelope accepts (20 ∷ 30 ∷ 40 ∷ 50 ∷ 60 ∷ 70 ∷ []) 80
      "w.json" uplink one_webhook refl refl (omega arith) refl refl
