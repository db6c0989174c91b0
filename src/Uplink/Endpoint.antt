-- ===== src/Uplink/Endpoint.antt =====
-- `process_uplink`. The HMAC, `base64.b64decode` and `lower` are parameters.
use Prim.Native.Char.{code}
use smart_parking_platform.Prelude.{
  ℕ, String, text_append, List, [], ◌∷◌, Option, none, some, Bool, true, false, ◌&&◌, ◌||◌, ◌==◌,
  text_eq, truthy, first, is_some, if◌then◌else◌,
}
use smart_parking_platform.Hex.{codes}
use smart_parking_platform.Downlink.Types.{QueueRedis}
use smart_parking_platform.Downlink.Worker.{Downlink}
use smart_parking_platform.Spaces.Types.{
  SpaceState, state_text, Space, Update, returned, invalid_transition, lock_taken,
}
use smart_parking_platform.Spaces.Lock.{Lease}
use smart_parking_platform.Spaces.Display.{World, Reading, Delivery, DirectAnswer}
use smart_parking_platform.Spaces.Manager.{update_space_state}
use smart_parking_platform.Webhooks.Secrets.{
  SecretRow, allowed, unauthorized, server_error, verify_webhook_signature,
}
use smart_parking_platform.Devices.Eui.{normalize_deveui}
use smart_parking_platform.Devices.Handlers.{
  RxInfo, Webhook, SensorUplink, or_text, first_rx, Handler, DeviceHandlerRegistry, parse_uplink,
  get_handler, get_handler_by_class,
}
use smart_parking_platform.Uplink.Tables.{
  DeviceType, SensorDevice, OrphanDevice, SensorReading, get_or_create_device_type_by_profile,
  get_or_create_sensor_device, handler_class_of, handle_orphan_device, insert_sensor_reading,
  insert_telemetry,
}
use smart_parking_platform.Uplink.Confirm.{KuandoKeys, kuando_bytes}

-- What a request brings, and what is read from outside while it is processed.
pub record Arrival : Type 0 where
  pub webhook : Webhook
  pub signature : Option String
  pub body : String
  pub request_id : String
  pub new_type_id : String
  pub new_device_id : String
  pub now : ℕ
  pub again : ℕ
  pub first_seen : Option Lease
  pub second_seen : Option Lease
  pub reading : Reading

pub record ProcessingResult : Type 0 where
  pub status : String
  pub device_eui : String
  pub space_code : Option String
  pub state : Option String
  pub request_id : String

-- The characters of a normalized identifier.
abbrev pub letters : List (ℕ × String)
letters =
    (48, "0")
    ∷ (49, "1")
    ∷ (50, "2")
    ∷ (51, "3")
    ∷ (52, "4")
    ∷ (53, "5")
    ∷ (54, "6")
    ∷ (55, "7")
    ∷ (56, "8")
    ∷ (57, "9")
    ∷ (65, "A")
    ∷ (66, "B")
    ∷ (67, "C")
    ∷ (68, "D")
    ∷ (69, "E")
    ∷ (70, "F")
    ∷ (10, "\n")
    ∷ []

unfoldable pub letter : ℕ → String
letter c = elim (first (λ e. e.0 == c) letters) [ none ↦ "" | some e ↦ e.1 ]

unfoldable pub text_of : List ℕ → String
text_of [] = ""
text_of (c ∷ cs) = text_append (letter c) (text_of cs)

-- `startswith`
unfoldable pub starts_with : List ℕ → List ℕ → Bool
starts_with [] s = true
starts_with (c ∷ cs) [] = false
starts_with (c ∷ cs) (d ∷ ds) = c == d && starts_with cs ds

-- `.replace(' ', '_').replace('-', '_')`
unfoldable pub underscored : String → String
underscored String.[] = String.[]
underscored (String.◌∷◌ c s) =
    text_append (if code c == 32 || code c == 45 then "_" else String.◌∷◌ c String.[])
      (underscored s)

abbrev pub tenant_of : Option Space → Option String
tenant_of none = none
tenant_of (some s) = s.tenant_id

abbrev pub profile_of : Webhook → String
profile_of w = or_text w.profile_name "unknown"

abbrev pub payload_of : Webhook → Option String
payload_of w = if truthy (or_text w.payload "") then w.payload else none

abbrev pub plain_result : String → String → Option String → Arrival → ProcessingResult
plain_result status eui code a = record {
  status = status;
  device_eui = eui;
  space_code = code;
  state = none;
  request_id = a.request_id;
}

abbrev pub error_result : String → Arrival → ProcessingResult
error_result eui a = plain_result "error" eui none a

abbrev pub reading_of : String → Space → SpaceState → SensorUplink → Arrival → SensorReading
reading_of eui sp state u a = record {
  device_eui = eui;
  space_id = some sp.id;
  occupancy_state = some state;
  battery = u.battery;
  rssi = u.rssi;
  snr = u.snr;
  timestamp = u.timestamp;
  fcnt = a.webhook.fcnt;
  tenant_id = sp.tenant_id;
}

module _ (R : QueueRedis) where
  pub record Service : Type 0 where
    pub parking : World R
    pub secrets : List SecretRow
    pub registry : DeviceHandlerRegistry
    pub device_types : List DeviceType
    pub sensor_devices : List SensorDevice
    pub orphans : List OrphanDevice
    pub readings : List SensorReading
    pub kuando : KuandoKeys

  -- `get_space_by_sensor`
  unfoldable pub get_space_by_sensor : String → World R → Option Space
  get_space_by_sensor eui w =
      first
        (λ s.
          text_eq (or_text s.sensor_eui "") eui
          && (is_some s.sensor_eui && (elim s.deleted_at [ none ↦ true | some _ ↦ false ])))
        w.spaces

  -- The handler by the class in the database, or else by the profile.
  unfoldable pub choose_handler : String → String → Service → Option Handler × DeviceHandlerRegistry
  choose_handler eui profile s =
      let class = or_text (handler_class_of eui s.sensor_devices s.device_types) "" in
      elim (if truthy class then get_handler_by_class class s.registry else none) [
        | none ↦ get_handler profile s.registry
        | some h ↦ (some h, s.registry)
      ]

  module _ (content_hash : String → String → ℕ → String) (chirpstack : Downlink → DirectAnswer)
      (no_tenant : String) (mode : Delivery) (hmac : String → String → String)
      (decode : String → Option (List ℕ)) (lower : String → String) where
    -- The payload of a Kuando display.
    unfoldable pub kuando_step : String → Arrival → KuandoKeys → KuandoKeys
    kuando_step eui a keys =
        if starts_with (codes "202020") (codes eui) && truthy (or_text a.webhook.payload "")
        then elim (decode (or_text a.webhook.payload "")) [
          | none ↦ keys
          | some bytes ↦ kuando_bytes a.now a.request_id eui bytes keys
        ]
        else keys

    -- The device and its type, found or created.
    unfoldable pub discover : String → Arrival → Service → Service
    discover eui a s =
        let (t, types) =
          get_or_create_device_type_by_profile a.new_type_id
            (underscored (lower (profile_of a.webhook))) (profile_of a.webhook) "sensor"
            s.device_types in
        record s {
          kuando = kuando_step eui a s.kuando;
          device_types = types;
          sensor_devices = get_or_create_sensor_device a.new_device_id a.now eui t s.sensor_devices;
        }

    -- A device without a space.
    unfoldable pub track_orphan :
        String → RxInfo → Option SensorUplink → Arrival → Service → ProcessingResult × Service
    track_orphan eui rx uplink a s = (
      plain_result "orphan_device" eui none a,
      record s {
        orphans = handle_orphan_device a.now eui (payload_of a.webhook) rx.rssi rx.snr s.orphans;
        readings = elim uplink [
          | none ↦ s.readings
          | some u ↦ insert_telemetry a.now eui u s.readings
        ];
      },
    )

    -- What follows the update of the state: the reading, unless the update has raised.
    unfoldable pub after_update :
        String
        → Space
        → SpaceState
        → SensorUplink
        → Arrival
        → Update
        → Service
        → ProcessingResult × Service
    after_update eui sp state u a (returned r) s = (
      record {
        status = "success";
        device_eui = eui;
        space_code = some sp.code;
        state = some (state_text r.new_state);
        request_id = a.request_id;
      },
      record s { readings = insert_sensor_reading (reading_of eui sp state u a) s.readings },
    )
    after_update eui sp state u a (invalid_transition x y) s = (error_result eui a, s)
    after_update eui sp state u a lock_taken s = (error_result eui a, s)

    -- An occupancy for a space.
    unfoldable pub update_state :
        String → Space → SpaceState → SensorUplink → Arrival → Service → ProcessingResult × Service
    update_state eui sp state u a s =
        let (update, parking) =
          update_space_state R content_hash chirpstack no_tenant mode a.now a.again a.first_seen
            a.second_seen a.reading sp.id state "sensor_uplink" a.request_id s.parking in
        after_update eui sp state u a update (record s { parking = parking })

    -- A device with a space.
    unfoldable pub sense :
        String → Space → Option SensorUplink → Arrival → Service → ProcessingResult × Service
    sense eui sp none a s = (plain_result "no_occupancy_data" eui (some sp.code) a, s)
    sense eui sp (some u) a s = elim u.occupancy_state [
      | none ↦ (plain_result "no_occupancy_data" eui (some sp.code) a, s)
      | some state ↦ update_state eui sp state u a s
    ]

    abbrev pub uplink_from : Option Handler → Webhook → Option SensorUplink
    uplink_from none w = none
    uplink_from (some h) w = parse_uplink decode lower h w

    unfoldable pub dispatch :
        String
        → Option Space
        → RxInfo
        → Option SensorUplink
        → Arrival
        → Service
        → ProcessingResult × Service
    dispatch eui none rx uplink a s = track_orphan eui rx uplink a s
    dispatch eui (some sp) rx uplink a s = sense eui sp uplink a s

    -- A request that passed the signature.
    unfoldable pub accept : String → Option Space → Arrival → Service → ProcessingResult × Service
    accept eui space a s =
        let (handler, registry) = choose_handler eui (profile_of a.webhook) s in
        let s' = record s { registry = registry } in
        elim (first_rx a.webhook.rx_info) [
          | none ↦ (error_result eui a, s')
          | some rx ↦ dispatch eui space rx (uplink_from handler a.webhook) a (discover eui a s')
        ]

    unfoldable pub with_device : String → Arrival → Service → ProcessingResult × Service
    with_device eui a s =
        let space = get_space_by_sensor eui s.parking in
        elim (verify_webhook_signature hmac a.signature (tenant_of space) a.body s.secrets) [
          | allowed ↦ accept eui space a s
          | unauthorized ↦ (error_result eui a, s)
          | server_error ↦ (error_result eui a, s)
        ]

    -- `process_uplink`
    unfoldable pub process_uplink : Arrival → Service → ProcessingResult × Service
    process_uplink a s =
        if truthy (or_text a.webhook.dev_eui "")
        then elim (normalize_deveui (codes (or_text a.webhook.dev_eui ""))) [
          | none ↦ (error_result "unknown" a, s)
          | some cs ↦ with_device (text_of cs) a s
        ]
        else (error_result "unknown" a, s)
