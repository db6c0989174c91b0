-- ===== src/Downlink/Queue.antt =====
-- The operations of `DownlinkQueue`, over any Redis and any content hash. A command id (`uuid4`) and
-- the time are arguments. What only expires keys, logs or counts for Prometheus is left out.
use smart_parking_platform.Prelude.{
  ltb, ℕ, String, ◌+◌, ◌-◌, ◌*◌, ◌^◌, min, Bool, true, false, ◌||◌, not, Option, none, some,
  text_eq, truthy, text_or_none, leb, if◌then◌else◌,
}
use smart_parking_platform.Redis.{text_at, items_at, hash_at, head_of}
use smart_parking_platform.Downlink.Types
use smart_parking_platform.Downlink.Types.{
  DownlinkCommand, Metric, Key, Item, CommandHash, QueueRedis, cmd_id, dead, latency, enqueued,
  succeeded, retried, dead_lettered, deduplicated, coalesced,
}

abbrev pub max_attempts : ℕ
max_attempts = 5

-- What `enqueue` is called with.
pub record Request : Type 0 where
  pub device_eui : String
  pub payload : String
  pub fport : ℕ
  pub tenant_id : String
  pub confirmed : Bool
  pub gateway_id : Option String
  pub space_id : Option String
  pub trigger_source : Option String

-- `str(v) if v is not None else ""`
abbrev pub text_or_empty : Option String → String
text_or_empty none = ""
text_or_empty (some t) = t

abbrev pub bool_text : Bool → String
bool_text true = "True"
bool_text false = "False"

-- The mapping that `enqueue` stores.
unfoldable pub hash_of : DownlinkCommand → CommandHash
hash_of c = record {
  id = some c.id;
  device_eui = some c.device_eui;
  tenant_id = some c.tenant_id;
  gateway_id = some (text_or_empty c.gateway_id);
  payload = some c.payload;
  fport = some c.fport;
  confirmed = some (bool_text c.confirmed);
  content_hash = some c.content_hash;
  created_at = some c.created_at;
  attempts = some c.attempts;
  last_error = some (text_or_empty c.last_error);
  last_attempt_at = some c.last_attempt_at;
  space_id = some (text_or_empty c.space_id);
  trigger_source = some (text_or_empty c.trigger_source);
}

abbrev pub get_or {ℓ} : {A : Type ℓ} → Option A → A → A
get_or none d = d
get_or (some a) d = a

-- `cmd_data.get(k) or None`
abbrev pub non_empty : Option String → Option String
non_empty none = none
non_empty (some t) = text_or_none t

abbrev pub cmd_ttl_seconds : ℕ
cmd_ttl_seconds = 3600

-- The deserialisation in `dequeue`, with its defaults for missing fields.
unfoldable pub command_of : ℕ → String → CommandHash → DownlinkCommand
command_of now key_id h = record {
  id = get_or h.id key_id;
  device_eui = get_or h.device_eui "";
  tenant_id = get_or h.tenant_id "";
  gateway_id = non_empty h.gateway_id;
  payload = get_or h.payload "";
  fport = get_or h.fport 15;
  confirmed = text_eq (get_or h.confirmed "False") "True";
  content_hash = get_or h.content_hash "";
  created_at = get_or h.created_at now;
  attempts = get_or h.attempts 0;
  last_error = non_empty h.last_error;
  last_attempt_at = get_or h.last_attempt_at none;
  space_id = non_empty h.space_id;
  trigger_source = non_empty h.trigger_source;
}

unfoldable pub read_hash : ℕ → String → Option CommandHash → Option DownlinkCommand
read_hash now i none = none
read_hash now i (some h) = some (command_of now i h)

-- The three fields that `mark_failure` writes.
unfoldable pub failure_fields : DownlinkCommand → String → CommandHash
failure_fields c error = record {
  id = none;
  device_eui = none;
  tenant_id = none;
  gateway_id = none;
  payload = none;
  fport = none;
  confirmed = none;
  content_hash = none;
  created_at = none;
  attempts = some c.attempts;
  last_error = some error;
  last_attempt_at = some c.last_attempt_at;
  space_id = none;
  trigger_source = none;
}

-- `DownlinkCommand(…)` in `enqueue`
unfoldable pub new_command : String → ℕ → String → Request → DownlinkCommand
new_command new_id now digest q = record {
  id = new_id;
  device_eui = q.device_eui;
  tenant_id = q.tenant_id;
  gateway_id = q.gateway_id;
  payload = q.payload;
  fport = q.fport;
  confirmed = q.confirmed;
  content_hash = digest;
  created_at = now;
  attempts = 0;
  last_error = none;
  last_attempt_at = none;
  space_id = q.space_id;
  trigger_source = q.trigger_source;
}

abbrev pub backoff_base_seconds : ℕ
backoff_base_seconds = 2

abbrev pub backoff_max_seconds : ℕ
backoff_max_seconds = 60

-- The delay that `mark_failure` computes, and only logs.
unfoldable pub backoff_seconds : ℕ → ℕ
backoff_seconds attempts = min (backoff_base_seconds * 2 ^ (attempts - 1)) backoff_max_seconds

-- The command as `mark_failure` updates it in place.
unfoldable pub failed_once : ℕ → String → DownlinkCommand → DownlinkCommand
failed_once now error c = record c {
  attempts = c.attempts + 1;
  last_error = some error;
  last_attempt_at = some now;
}

-- `last_hash == content_hash`
unfoldable pub is_last : Option String → String → Bool
is_last none digest = false
is_last (some t) digest = text_eq t digest

module _ (R : QueueRedis) where
  open R use {Store, view, set, delete, rpush, lrem, lpop, hset, incr, ltrim}

  -- Remove the command that is tracked for the device, from the queue and from the hashes.
  unfoldable pub drop_existing : Option String → Store → Store
  drop_existing none s = s
  drop_existing (some old) s =
      if truthy old
      then incr (Types.metric coalesced)
          (delete (Types.cmd old) (lrem Types.pending (cmd_id old) s))
      else s

  unfoldable pub store_new : DownlinkCommand → Store → Store
  store_new c s = incr (Types.metric enqueued) (
      set (Types.coalesce c.device_eui) c.id
        (rpush Types.pending (cmd_id c.id) (hset (Types.cmd c.id) (hash_of c) s)))

  -- `enqueue`. The EXPIREs have no effect at once: that of the command is `expire_command`, those of
  -- the coalescing key (300 s) and of the last hash (3600 s) are left out.
  unfoldable pub enqueue :
      (String → String → ℕ → String) → String → ℕ → Request → Store → Option String × Store
  enqueue content_hash new_id now q s =
      let digest = content_hash q.device_eui q.payload q.fport in
      if is_last (text_at (view s (Types.last_hash q.device_eui))) digest
      then (none, incr (Types.metric deduplicated) s)
      else (
        some new_id,
        store_new (new_command new_id now digest q)
            (drop_existing (text_at (view s (Types.coalesce q.device_eui))) s),
      )

  -- EXPIRE dl:cmd:{id} CMD_TTL_SECONDS, set at `now`: what of the hash is there at `later`.
  unfoldable pub expire_command : String → ℕ → ℕ → Store → Store
  expire_command id now later s =
      if ltb later (now + cmd_ttl_seconds * 1000) then s else delete (Types.cmd id) s

  -- The command of a popped item; `none` where its hash is gone.
  unfoldable pub fetch_command : ℕ → Item → Store → Option DownlinkCommand
  fetch_command now (cmd_id i) s = read_hash now i (hash_at (view s (Types.cmd i)))
  fetch_command now _ s = none

  unfoldable pub popped : ℕ → Option Item → Store → Option DownlinkCommand × Store
  popped now none s = (none, s)
  popped now (some item) s = let s' = lpop Types.pending s in (fetch_command now item s', s')

  -- `dequeue`: BLPOP, then HGETALL; `none` if the queue is empty or the hash is gone.
  unfoldable pub dequeue : ℕ → Store → Option DownlinkCommand × Store
  unfolding popped fetch_command read_hash
  dequeue now s = popped now (head_of (items_at (view s Types.pending))) s

  unfoldable pub record_latency : ℕ → Store → Store
  record_latency ms s = ltrim Types.latencies 100 (rpush Types.latencies (latency ms) s)

  unfoldable pub mark_success : ℕ → DownlinkCommand → Store → Store
  mark_success now c s = record_latency (now - c.created_at) (
      incr (Types.metric succeeded) (
        delete (Types.coalesce c.device_eui)
          (delete (Types.cmd c.id) (set (Types.last_hash c.device_eui) c.content_hash s))))

  unfoldable pub move_to_dead_letter : ℕ → DownlinkCommand → Store → Store
  move_to_dead_letter now c s =
      delete (Types.coalesce c.device_eui)
        (delete (Types.cmd c.id) (rpush Types.dead_letter (dead c now) s))

  unfoldable pub requeued : String → DownlinkCommand → Store → Store
  requeued error c s =
      incr (Types.metric retried)
        (rpush Types.pending (cmd_id c.id) (hset (Types.cmd c.id) (failure_fields c error) s))

  unfoldable pub mark_failure :
      ℕ → String → Bool → DownlinkCommand → Store → DownlinkCommand × Store
  mark_failure now error requeue c s =
      let c' = failed_once now error c in
      if leb max_attempts c'.attempts || not requeue
      then (c', incr (Types.metric dead_lettered) (move_to_dead_letter now c' s))
      else (c', requeued error c' s)
