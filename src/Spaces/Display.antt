-- ===== src/Spaces/Display.antt =====
-- `update_display`: the downlink for a new state, and the log of it. The queue is the one of
-- src/downlink_queue.py; without a queue ChirpStack is called, which is a parameter.
use smart_parking_platform.Prelude.{
  ℕ, ◌-◌, ◌/◌, String, List, [], ◌∷◌, ◌++◌, Option, none, some, Bool, true, false, ◌&&◌, truthy,
  text_eq, first, lookup, if◌then◌else◌, is_some,
}
use smart_parking_platform.Hex.{codes, from_hex}
use smart_parking_platform.Downlink.Types.{QueueRedis}
use smart_parking_platform.Downlink.Queue.{Request, enqueue}
use smart_parking_platform.Downlink.Worker.{Downlink, bad_hex}
use smart_parking_platform.Spaces.Types.{
  SpaceState, state_text, Space, DisplayDevice, Change, Actuation,
}

-- The answer of `queue_downlink`: the id of the queue item, or an exception.
pub data DirectAnswer : Type 0 where
  queued : Option String → DirectAnswer
  failed : String → DirectAnswer

-- How the manager was built: without ChirpStack, with it alone, or with the queue.
pub data Delivery : Type 0 where
  no_client direct durable : Delivery

-- What is read from outside in one call: the clock at its start and end, and a generated id.
pub record Reading : Type 0 where
  pub started : ℕ
  pub ended : ℕ
  pub new_id : String

-- What `update_display` is called with.
pub record Trigger : Type 0 where
  pub space_id : String
  pub display_eui : String
  pub previous_state : SpaceState
  pub new_state : SpaceState
  pub trigger_type : String
  pub trigger_source : String

-- The text of an id that may be NULL.
abbrev pub id_text : Option String → String
id_text none = "None"
id_text (some t) = t

module _ (R : QueueRedis) where
  open R use {Store}

  pub record World : Type 0 where
    pub spaces : List Space
    pub displays : List DisplayDevice
    pub changes : List Change
    pub actuations : List Actuation
    pub cache : String → Option String
    pub store : Store
    pub sent : List Downlink

  -- SELECT ... FROM display_devices WHERE dev_eui = $1 AND enabled = TRUE
  unfoldable pub fetch_display : String → World → Option DisplayDevice
  fetch_display eui w = first (λ d. text_eq d.dev_eui eui && d.enabled) w.displays

  -- SELECT tenant_id FROM spaces WHERE id = $1
  unfoldable pub fetch_space_info : String → World → Option Space
  fetch_space_info id w = first (λ s. text_eq s.id id) w.spaces

  -- The log of a downlink that was made.
  unfoldable pub log_sent :
      Reading → Trigger → DisplayDevice → String → Bool → Option String → World → World
  log_sent t q d payload sent queue_id w = record w {
    actuations =
        w.actuations
        ++ record {
          space_id = q.space_id;
          trigger_type = q.trigger_type;
          trigger_source = q.trigger_source;
          previous_state = q.previous_state;
          new_state = q.new_state;
          display_eui = q.display_eui;
          display_device_id = some d.id;
          display_code = some payload;
          fport = some d.fport;
          confirmed = d.confirmed_downlinks;
          downlink_sent = sent;
          downlink_queue_id = queue_id;
          downlink_error = none;
          response_time_ms = some ((t.ended - t.started) / 1000);
          created_at = t.started;
          sent_at = some t.ended;
        }
          ∷ [];
  }

  -- The log of an exception, with the port if it was read by then.
  unfoldable pub log_failed :
      Reading → Trigger → DisplayDevice → String → Option ℕ → String → World → World
  log_failed t q d payload fport error w = record w {
    actuations =
        w.actuations
        ++ record {
          space_id = q.space_id;
          trigger_type = q.trigger_type;
          trigger_source = q.trigger_source;
          previous_state = q.previous_state;
          new_state = q.new_state;
          display_eui = q.display_eui;
          display_device_id = some d.id;
          display_code = some payload;
          fport = fport;
          confirmed = false;
          downlink_sent = false;
          downlink_queue_id = none;
          downlink_error = some error;
          response_time_ms = none;
          created_at = t.started;
          sent_at = none;
        }
          ∷ [];
  }

  -- The request that is put in the queue.
  unfoldable pub queue_request : Trigger → DisplayDevice → String → String → Request
  queue_request q d payload tenant = record {
    device_eui = q.display_eui;
    payload = payload;
    fport = d.fport;
    tenant_id = tenant;
    confirmed = d.confirmed_downlinks;
    gateway_id = none;
    space_id = some q.space_id;
    trigger_source = some q.trigger_source;
  }

  module _ (content_hash : String → String → ℕ → String) (chirpstack : Downlink → DirectAnswer)
      (no_tenant : String) where
    -- The durable queue; a request that repeats the last one is logged as not sent. Without a row
    -- of the space the tenant is None, which Redis refuses with the text `no_tenant`.
    unfoldable pub through_queue :
        Reading → Trigger → DisplayDevice → String → Option Space → World → Bool × World
    through_queue t q d payload none w =
        (false, log_failed t q d payload (some d.fport) no_tenant w)
    through_queue t q d payload (some s) w =
        let (queue_id, store) =
          enqueue R content_hash t.new_id t.started
            (queue_request q d payload (id_text s.tenant_id)) w.store in
        (true, log_sent t q d payload (is_some queue_id) queue_id (record w { store = store }))

    abbrev pub call_of : Trigger → DisplayDevice → List ℕ → Downlink
    call_of q d bytes = record {
      device_eui = q.display_eui;
      payload = bytes;
      fport = d.fport;
      confirmed = d.confirmed_downlinks;
    }

    -- The call of ChirpStack without a queue.
    unfoldable pub directly :
        Reading → Trigger → DisplayDevice → String → List ℕ → World → Bool × World
    directly t q d payload bytes w =
        let w' = record w { sent = w.sent ++ call_of q d bytes ∷ [] } in
        elim (chirpstack (call_of q d bytes)) [
          | queued id ↦ (true, log_sent t q d payload true id w')
          | failed e ↦ (false, log_failed t q d payload (some d.fport) e w')
        ]

    -- A payload that was found for the state.
    unfoldable pub send_payload :
        Delivery → Reading → Trigger → DisplayDevice → String → World → Bool × World
    send_payload mode t q d payload w = elim (from_hex (codes payload)) [
      | none ↦ (false, log_failed t q d payload none bad_hex w)
      | some bytes ↦ elim mode [
        | no_client ↦ (false, w)
        | durable ↦ through_queue t q d payload (fetch_space_info q.space_id w) w
        | direct ↦ directly t q d payload bytes w
      ]
    ]

    -- `if not payload_hex`
    unfoldable pub state_payload : DisplayDevice → SpaceState → Option String
    state_payload d state = elim (lookup (state_text state) d.display_codes) [
      | none ↦ none
      | some p ↦ if truthy p then some p else none
    ]

    unfoldable pub update_device :
        Delivery → Reading → Trigger → DisplayDevice → World → Bool × World
    update_device mode t q d w = elim (state_payload d q.new_state) [
      | none ↦ (false, w)
      | some payload ↦ send_payload mode t q d payload w
    ]

    -- `update_display`
    unfoldable pub update_display : Delivery → Reading → Trigger → World → Bool × World
    update_display no_client t q w = (false, w)
    update_display direct t q w = elim (fetch_display q.display_eui w) [
      | none ↦ (false, w)
      | some d ↦ update_device direct t q d w
    ]
    update_display durable t q w = elim (fetch_display q.display_eui w) [
      | none ↦ (false, w)
      | some d ↦ update_device durable t q d w
    ]
