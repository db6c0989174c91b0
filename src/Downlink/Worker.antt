-- ===== src/Downlink/Worker.antt =====
-- `DownlinkWorker`: one command, and the loop. ChirpStack is a parameter: `none` is an accepted
-- downlink, `some text` an exception with that message.
use smart_parking_platform.Prelude.{
  ℕ, String, List, [], ◌∷◌, ◌++◌, Bool, true, Option, none, some, truthy, if◌then◌else◌,
}
use smart_parking_platform.Hex.{codes, from_hex}
use smart_parking_platform.Downlink.Types.{DownlinkCommand, QueueRedis}
use smart_parking_platform.Downlink.Queue.{dequeue, mark_success, mark_failure}
use smart_parking_platform.Downlink.Bucket.{Buckets, check_gateway_limit, check_tenant_limit}

-- A call of `queue_downlink`.
pub record Downlink : Type 0 where
  pub device_eui : String
  pub payload : List ℕ
  pub fport : ℕ
  pub confirmed : Bool

abbrev pub ChirpStack : Type 0
ChirpStack = Downlink → Option String

-- When the clock is read for one command: at the two limits, and when it is done.
pub record Times : Type 0 where
  pub gateway_at : ℕ
  pub tenant_at : ℕ
  pub done_at : ℕ

-- `str(e)` of the ValueError of `bytes.fromhex`
abbrev pub bad_hex : String
bad_hex = "non-hexadecimal number found in fromhex() arg"

abbrev pub downlink_of : DownlinkCommand → List ℕ → Downlink
downlink_of c bytes = record {
  device_eui = c.device_eui;
  payload = bytes;
  fport = c.fport;
  confirmed = c.confirmed;
}

-- `if cmd.gateway_id`: the empty text counts as none.
unfoldable pub gateway_answer : Option String → ℕ → Buckets → (Bool × Option ℕ) × Buckets
unfolding check_gateway_limit
gateway_answer none now b = ((true, none), b)
gateway_answer (some g) now b =
    if truthy g then check_gateway_limit g none now b else ((true, none), b)

module _ (R : QueueRedis) (chirpstack : ChirpStack) where
  open R use {Store}

  -- The worker's world: Redis, the buckets, and the downlinks that ChirpStack was asked for.
  pub record WorkerState : Type 0 where
    pub store : Store
    pub buckets : Buckets
    pub sent : List Downlink

  unfoldable pub give_up : ℕ → String → DownlinkCommand → WorkerState → WorkerState
  give_up now e c s = record s { store = (mark_failure R now e true c s.store).1 }

  unfoldable pub after_send : ℕ → DownlinkCommand → Option String → WorkerState → WorkerState
  unfolding give_up
  after_send now c none s = record s { store = mark_success R now c s.store }
  after_send now c (some e) s = give_up now e c s

  unfoldable pub send : ℕ → DownlinkCommand → Option (List ℕ) → WorkerState → WorkerState
  unfolding after_send
  send now c none s = give_up now bad_hex c s
  send now c (some bytes) s =
      after_send now c (chirpstack (downlink_of c bytes))
        (record s { sent = s.sent ++ downlink_of c bytes ∷ [] })

  -- `_process_command`
  unfoldable pub process_command : Times → DownlinkCommand → WorkerState → WorkerState
  unfolding give_up send
  process_command t c s =
      let (gw, b1) = gateway_answer c.gateway_id t.gateway_at s.buckets in
      let s1 : WorkerState = record s { buckets = b1 } in
      let (tn, b2) = check_tenant_limit c.tenant_id none t.tenant_at b1 in
      let s2 : WorkerState = record s { buckets = b2 } in
      if gw.0
      then (if tn.0
          then send t.done_at c (from_hex (codes c.payload)) s2
          else give_up t.done_at "Tenant rate limited" c s2)
      else give_up t.done_at "Gateway rate limited" c s1

  unfoldable pub handle : Times → Option DownlinkCommand → WorkerState → WorkerState
  unfolding process_command
  handle t none s = s
  handle t (some c) s = process_command t c s

  -- `_run_loop`, for the rounds until it is stopped.
  unfoldable pub run_loop : List Times → WorkerState → WorkerState
  unfolding handle
  run_loop [] s = s
  run_loop (t ∷ ts) s =
      let (taken, store') = dequeue R t.gateway_at s.store in
      run_loop ts (handle t taken (record s { store = store' }))
