-- ===== src/Spool/Files.antt =====
-- The envelopes and the three directories of WebhookSpool, and `enqueue`. Times are microseconds, and
-- a payload is the JSON text of it.
use smart_parking_platform.Prelude.{
  ℕ, String, text_append, List, [], ◌∷◌, Option, none, some, length, insert, Bool, true, false,
}

pub record Envelope : Type 0 where
  pub id : String
  pub device_eui : String
  pub request_id : String
  pub enqueued_at : ℕ
  pub retry_count : ℕ
  pub next_retry_at : ℕ
  pub webhook_data : String
  pub metadata : List (String × String)

-- The `*.json` files by their names; a file that does not hold an envelope is `none`.
abbrev pub Directory : Type 0
Directory = List (String × Option Envelope)

pub record Spool : Type 0 where
  pub pending : Directory
  pub processing : Directory
  pub dead_letter : Directory

-- f"{spool_id}.json"
abbrev pub file_name : String → String
file_name id = text_append id ".json"

unfoldable pub new_envelope :
    String → ℕ → String → String → String → List (String × String) → Envelope
new_envelope spool_id now webhook_data device_eui request_id metadata = record {
  id = spool_id;
  device_eui = device_eui;
  request_id = request_id;
  enqueued_at = now;
  retry_count = 0;
  next_retry_at = now;
  webhook_data = webhook_data;
  metadata = metadata;
}

-- `enqueue` with the generated id: the file appears under its name at once, by the renaming.
unfoldable pub enqueue :
    String → ℕ → String → String → String → List (String × String) → Spool → String × Spool
enqueue spool_id now webhook_data device_eui request_id metadata s = (
  spool_id,
  record s {
    pending =
        insert (file_name spool_id)
          (some (new_envelope spool_id now webhook_data device_eui request_id metadata)) s.pending;
  },
)

pub record Stats : Type 0 where
  pub pending_files : ℕ
  pub processing_files : ℕ
  pub dead_letter_files : ℕ

-- `get_stats`
unfoldable pub get_stats : Spool → Stats
get_stats s = record {
  pending_files = length s.pending;
  processing_files = length s.processing;
  dead_letter_files = length s.dead_letter;
}

-- `spool_webhook_on_error`: whether there was a spool, and the spool after it.
unfoldable pub spool_webhook_on_error :
    String → ℕ → String → String → String → String → String → Option Spool → Bool × Option Spool
spool_webhook_on_error spool_id now webhook_data device_eui request_id error error_type none =
    (false, none)
spool_webhook_on_error spool_id now webhook_data device_eui request_id error error_type (some s) = (
  true,
  some
      (enqueue spool_id now webhook_data device_eui request_id
        (("error", error) ∷ ("error_type", error_type) ∷ []) s).1,
)
