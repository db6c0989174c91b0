-- ===== src/Uplink/Tables.antt =====
-- The rows that an uplink reads and writes: src/database.py and src/orphan_devices.py.
use smart_parking_platform.Prelude.{
  ℕ, ◌+◌, String, text_append, List, [], ◌∷◌, ◌++◌, Option, none, some, Bool, true, false, ◌&&◌,
  ◌==◌, text_eq, first, any, rewrite, if◌then◌else◌,
}
use smart_parking_platform.Reservations.Types.{ℤ}
use smart_parking_platform.Spaces.Types.{SpaceState}
use smart_parking_platform.Devices.Handlers.{SensorUplink}

-- A row of device_types; its JSON columns are not modelled.
pub record DeviceType : Type 0 where
  pub id : String
  pub type_code : String
  pub category : String
  pub name : String
  pub status : String
  pub chirpstack_profile_name : String
  pub handler_class : Option String

pub record SensorDevice : Type 0 where
  pub id : String
  pub dev_eui : String
  pub device_type : String
  pub device_type_id : String
  pub device_model : String
  pub status : String
  pub enabled : Bool
  pub last_seen_at : ℕ

pub record OrphanDevice : Type 0 where
  pub dev_eui : String
  pub first_seen : ℕ
  pub last_seen : ℕ
  pub uplink_count : ℕ
  pub last_payload : Option String
  pub last_rssi : Option ℤ
  pub last_snr : Option ℤ
  pub assigned_to_space_id : Option String
  pub assigned_at : Option ℕ

pub record SensorReading : Type 0 where
  pub device_eui : String
  pub space_id : Option String
  pub occupancy_state : Option SpaceState
  pub battery : Option ℕ
  pub rssi : Option ℤ
  pub snr : Option ℤ
  pub timestamp : ℕ
  pub fcnt : Option ℕ
  pub tenant_id : Option String

-- `get_or_create_device_type_by_profile`, with the generated id, and what `lower` and `replace` make
-- of the profile.
unfoldable pub get_or_create_device_type_by_profile :
    String → String → String → String → List DeviceType → DeviceType × List DeviceType
get_or_create_device_type_by_profile new_id code profile category rows =
    let row : DeviceType = record {
      id = new_id;
      type_code = text_append "orphan_" code;
      category = category;
      name = text_append "ORPHAN: " profile;
      status = "orphan";
      chirpstack_profile_name = profile;
      handler_class = none;
    } in
    elim (first (λ r. text_eq r.chirpstack_profile_name profile) rows) [
      | none ↦ (row, rows ++ row ∷ [])
      | some r ↦ (r, rows)
    ]

-- `get_or_create_sensor_device`, whose model is the type code
unfoldable pub get_or_create_sensor_device :
    String → ℕ → String → DeviceType → List SensorDevice → List SensorDevice
get_or_create_sensor_device new_id now eui t rows =
    if any (λ r. text_eq r.dev_eui eui) rows
    then rewrite (λ r. text_eq r.dev_eui eui) (λ r. record r { last_seen_at = now }) rows
    else rows
      ++ record {
        id = new_id;
        dev_eui = eui;
        device_type = "orphan";
        device_type_id = t.id;
        device_model = t.type_code;
        status = "orphan";
        enabled = true;
        last_seen_at = now;
      }
        ∷ []

-- `get_sensor_device_by_deveui`: the handler class of the device's type, if both are there
unfoldable pub handler_class_of : String → List SensorDevice → List DeviceType → Option String
handler_class_of eui devices types = elim (first (λ d. text_eq d.dev_eui eui) devices) [
  | none ↦ none
  | some d ↦ elim (first (λ t. text_eq t.id d.device_type_id) types) [
    | none ↦ none
    | some t ↦ t.handler_class
  ]
]

-- `handle_orphan_device`: the upsert
unfoldable pub handle_orphan_device :
    ℕ → String → Option String → Option ℤ → Option ℤ → List OrphanDevice → List OrphanDevice
handle_orphan_device now eui payload rssi snr rows =
    if any (λ r. text_eq r.dev_eui eui) rows
    then rewrite (λ r. text_eq r.dev_eui eui)
        (λ r. record r {
          last_seen = now;
          uplink_count = r.uplink_count + 1;
          last_payload = payload;
          last_rssi = rssi;
          last_snr = snr;
        })
        rows
    else rows
      ++ record {
        dev_eui = eui;
        first_seen = now;
        last_seen = now;
        uplink_count = 1;
        last_payload = payload;
        last_rssi = rssi;
        last_snr = snr;
        assigned_to_space_id = none;
        assigned_at = none;
      }
        ∷ []

-- `assign_orphan_device`
unfoldable pub assign_orphan_device :
    ℕ → String → String → List OrphanDevice → Bool × List OrphanDevice
assign_orphan_device now eui space_id rows = (
  any (λ r. text_eq r.dev_eui eui) rows,
  rewrite (λ r. text_eq r.dev_eui eui)
      (λ r. record r { assigned_to_space_id = some space_id; assigned_at = some now }) rows,
)

abbrev pub same_text : Option String → Option String → Bool
same_text (some a) (some b) = text_eq a b
same_text _ _ = false

abbrev pub same_number : Option ℕ → Option ℕ → Bool
same_number (some a) (some b) = a == b
same_number _ _ = false

-- ON CONFLICT (tenant_id, device_eui, fcnt) WHERE fcnt IS NOT NULL: NULLs are never equal.
unfoldable pub conflicts : SensorReading → SensorReading → Bool
conflicts q r =
    same_text q.tenant_id r.tenant_id
    && (text_eq q.device_eui r.device_eui && same_number q.fcnt r.fcnt)

-- `insert_sensor_reading`: the INSERT, which does nothing on a conflict
unfoldable pub insert_sensor_reading : SensorReading → List SensorReading → List SensorReading
insert_sensor_reading r rows = if any (conflicts r) rows then rows else rows ++ r ∷ []

-- `insert_telemetry`
unfoldable pub insert_telemetry :
    ℕ → String → SensorUplink → List SensorReading → List SensorReading
insert_telemetry now eui u rows =
    rows
    ++ record {
      device_eui = eui;
      space_id = none;
      occupancy_state = u.occupancy_state;
      battery = u.battery;
      rssi = u.rssi;
      snr = u.snr;
      timestamp = now;
      fcnt = none;
      tenant_id = none;
    }
      ∷ []
