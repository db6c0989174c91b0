-- ===== src/Downlink/Types.antt =====
-- The data of src/downlink_queue.py: the command, the keys of Redis and what is kept under them.
-- Instants are milliseconds. A number that is stored as the text `str(n)`, and read back by `int`
-- or `float`, is kept as the number.
use smart_parking_platform.Prelude.{ℕ, String, Bool, true, false, Option, none, some, ◌==◌, text_eq}
use smart_parking_platform.Redis.{Redis}

pub record DownlinkCommand : Type 0 where
  pub id : String
  pub device_eui : String
  pub tenant_id : String
  pub gateway_id : Option String
  pub payload : String
  pub fport : ℕ
  pub confirmed : Bool
  pub content_hash : String
  pub created_at : ℕ
  pub attempts : ℕ
  pub last_error : Option String
  pub last_attempt_at : Option ℕ
  pub space_id : Option String
  pub trigger_source : Option String

pub data Metric : Type 0 where
  enqueued succeeded retried dead_lettered deduplicated coalesced : Metric

-- The keys, one constructor for each prefix. No prefix of the code begins another, so that two
-- formatted keys are one text only if they are one value here.
pub data Key : Type 0 where
  pending dead_letter latencies : Key
  cmd last_hash coalesce : String → Key
  metric : Metric → Key

-- What is pushed to the lists: a command id, the JSON text of a dead command with its time, a
-- latency.
pub data Item : Type 0 where
  cmd_id : String → Item
  dead : DownlinkCommand → ℕ → Item
  latency : ℕ → Item

-- The fields of the hash of a command; a field may be missing.
pub record CommandHash : Type 0 where
  pub id : Option String
  pub device_eui : Option String
  pub tenant_id : Option String
  pub gateway_id : Option String
  pub payload : Option String
  pub fport : Option ℕ
  pub confirmed : Option String
  pub content_hash : Option String
  pub created_at : Option ℕ
  pub attempts : Option ℕ
  pub last_error : Option String
  -- `some none` is the empty text
  pub last_attempt_at : Option (Option ℕ)
  pub space_id : Option String
  pub trigger_source : Option String

abbrev pub over {ℓ} : {A : Type ℓ} → Option A → Option A → Option A
over (some a) old = some a
over none old = old

-- HSET, field by field.
abbrev pub merge : CommandHash → CommandHash → CommandHash
merge new old = record {
  id = over new.id old.id;
  device_eui = over new.device_eui old.device_eui;
  tenant_id = over new.tenant_id old.tenant_id;
  gateway_id = over new.gateway_id old.gateway_id;
  payload = over new.payload old.payload;
  fport = over new.fport old.fport;
  confirmed = over new.confirmed old.confirmed;
  content_hash = over new.content_hash old.content_hash;
  created_at = over new.created_at old.created_at;
  attempts = over new.attempts old.attempts;
  last_error = over new.last_error old.last_error;
  last_attempt_at = over new.last_attempt_at old.last_attempt_at;
  space_id = over new.space_id old.space_id;
  trigger_source = over new.trigger_source old.trigger_source;
}

abbrev pub same_metric : Metric → Metric → Bool
same_metric enqueued enqueued = true
same_metric succeeded succeeded = true
same_metric retried retried = true
same_metric dead_lettered dead_lettered = true
same_metric deduplicated deduplicated = true
same_metric coalesced coalesced = true
same_metric _ _ = false

abbrev pub same_key : Key → Key → Bool
same_key pending pending = true
same_key dead_letter dead_letter = true
same_key latencies latencies = true
same_key (cmd a) (cmd b) = text_eq a b
same_key (last_hash a) (last_hash b) = text_eq a b
same_key (coalesce a) (coalesce b) = text_eq a b
same_key (metric a) (metric b) = same_metric a b
same_key _ _ = false

-- Only command ids are ever removed from a list.
abbrev pub same_item : Item → Item → Bool
same_item (cmd_id a) (cmd_id b) = text_eq a b
same_item (latency a) (latency b) = a == b
same_item _ _ = false

abbrev pub QueueRedis : Type 1
QueueRedis = Redis Key Item CommandHash same_key same_item merge
