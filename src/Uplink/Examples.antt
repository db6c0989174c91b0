-- ===== src/Uplink/Examples.antt =====
-- The theorems on the endpoint at concrete inputs, over the Redis in memory.
use smart_parking_platform.Prelude.{
  ℕ, String, text_append, List, [], ◌∷◌, Option, none, some, ◌≡◌, refl,
}
use smart_parking_platform.Hex.{codes}
use smart_parking_platform.Redis.{absent, memory}
use smart_parking_platform.Downlink.Types.{
  Key, Item, CommandHash, QueueRedis, same_key, same_item, merge,
}
use smart_parking_platform.Downlink.Worker.{Downlink}
use smart_parking_platform.Spaces.Types.{free, Space}
use smart_parking_platform.Spaces.Display.{DirectAnswer, queued, durable}
use smart_parking_platform.Webhooks.Secrets.{is_ascii, is_current, new_secret, fetch_secret}
use smart_parking_platform.Devices.Eui.{matches, upper_text, normalize_deveui}
use smart_parking_platform.Devices.Handlers.{Webhook, empty_registry}
use smart_parking_platform.Uplink.Tables.{SensorReading}
use smart_parking_platform.Uplink.Endpoint.{
  Arrival, Service, error_result, process_uplink, text_of, letter, get_space_by_sensor,
}
use smart_parking_platform.Uplink.Guard.{
  forged_uplink_changes_nothing, replayed_frame_moves_the_space,
}

abbrev in_memory : QueueRedis
in_memory = memory Key Item CommandHash same_key same_item merge

abbrev digest : String → String → ℕ → String
digest eui payload fport = payload

abbrev chirpstack : Downlink → DirectAnswer
chirpstack d = queued (some "q")

abbrev sign : String → String → String
sign secret body = text_append secret body

-- The one payload of the examples: a car.
abbrev decode : String → Option (List ℕ)
decode s = some (1 ∷ 36 ∷ [])

abbrev same : String → String
same s = s

abbrev bay : Space
bay = record {
  id = "s1";
  code = "A1";
  state = free;
  sensor_eui = some "E8E1E1000103C3F8";
  display_eui = none;
  tenant_id = some "t";
  updated_at = 0;
  deleted_at = none;
}

abbrev service : Service in_memory
service = record {
  parking = record {
    spaces = bay ∷ [];
    displays = [];
    changes = [];
    actuations = [];
    cache = λ key. none;
    store = λ k. absent;
    sent = [];
  };
  secrets = new_secret "t" "k" 1 ∷ [];
  registry = empty_registry;
  device_types = [];
  sensor_devices = [];
  orphans = [];
  readings = [];
  kuando = record { last_uplink = []; pending_downlink = [] };
}

abbrev frame : Webhook
frame = record {
  dev_eui = some "e8e1e1000103c3f8";
  device_name = none;
  profile_name = some "browan_tbms100_motion";
  rx_info = none;
  payload = some "ASQ=";
  time = some 3;
  fcnt = some 7;
}

abbrev forged : Arrival
forged = record {
  webhook = frame;
  signature = some "x{}";
  body = "{}";
  request_id = "r";
  new_type_id = "dt";
  new_device_id = "sd";
  now = 10;
  again = 11;
  first_seen = none;
  second_seen = none;
  reading = record { started = 11; ended = 12; new_id = "c1" };
}

forged_uplink_changes_nothing_example :
    process_uplink in_memory digest chirpstack "none" durable sign decode same forged service
    ≡ (error_result (text_of (codes "E8E1E1000103C3F8")) forged, service)
unfolding normalize_deveui matches upper_text get_space_by_sensor text_of letter is_ascii
    fetch_secret is_current new_secret
forged_uplink_changes_nothing_example =
    forged_uplink_changes_nothing in_memory digest chirpstack "none" durable sign decode same forged
      service (codes "E8E1E1000103C3F8") bay "x{}" "t" (new_secret "t" "k" 1) refl refl refl refl
      refl refl refl refl refl

abbrev seen : SensorReading
seen = record {
  device_eui = "E8E1E1000103C3F8";
  space_id = some "s1";
  occupancy_state = some free;
  battery = none;
  rssi = none;
  snr = none;
  timestamp = 1;
  fcnt = some 7;
  tenant_id = some "t";
}

replayed_frame_moves_the_space_example :
    (process_uplink in_memory digest chirpstack "none" durable sign decode same
      (record forged { signature = none })
      (record service { readings = seen ∷ [] })).1.parking
    ≡ (process_uplink in_memory digest chirpstack "none" durable sign decode same
        (record forged { signature = none })
        service).1.parking
replayed_frame_moves_the_space_example =
    replayed_frame_moves_the_space in_memory digest chirpstack "none" durable sign decode same
      (record forged { signature = none }) service (seen ∷ [])
