-- ===== src/Display/Types.antt =====
-- The data of src/display_state_machine.py, and the tables that it reads (migrations/006).
-- Instants are microseconds since the epoch, the resolution of Python's `datetime`.
use smart_parking_platform.Prelude.{ℕ, String, List, Bool, true, false, Option, none}

pub data SensorState : Type 0 where
  occupied vacant unknown : SensorState

pub data AdminOverrideType : Type 0 where
  blocked out_of_service : AdminOverrideType

pub data ReservationStatus : Type 0 where
  pending confirmed cancelled expired active completed no_show : ReservationStatus

pub record DisplayPolicy : Type 0 where
  pub id : String
  pub tenant_id : String
  pub name : String
  pub reserved_soon_threshold_sec : ℕ
  pub sensor_unknown_timeout_sec : ℕ
  pub debounce_window_sec : ℕ
  pub occupied_color : String
  pub free_color : String
  pub reserved_color : String
  pub reserved_soon_color : String
  pub blocked_color : String
  pub out_of_service_color : String
  pub blink_reserved_soon : Bool
  pub blink_pattern_ms : ℕ
  pub allow_sensor_override : Bool

-- `DisplayPolicy(id=…, tenant_id=…, name=…)`: the other fields have the class's defaults.
unfoldable pub policy_with_defaults : String → String → String → DisplayPolicy
policy_with_defaults policy_id tenant label = record {
  id = policy_id;
  tenant_id = tenant;
  name = label;
  reserved_soon_threshold_sec = 900;
  sensor_unknown_timeout_sec = 60;
  debounce_window_sec = 10;
  occupied_color = "FF0000";
  free_color = "00FF00";
  reserved_color = "FFA500";
  reserved_soon_color = "FFFF00";
  blocked_color = "808080";
  out_of_service_color = "800080";
  blink_reserved_soon = false;
  blink_pattern_ms = 500;
  allow_sensor_override = true;
}

-- `rssi` and `snr` are carried by the reading and never read.
pub record SensorReading : Type 0 where
  pub state : SensorState
  pub timestamp : ℕ

pub record DebounceState : Type 0 where
  pub space_id : String
  pub last_sensor_state : Option SensorState
  pub last_sensor_timestamp : Option ℕ
  pub pending_sensor_state : Option SensorState
  pub pending_since : Option ℕ
  pub pending_count : ℕ
  pub stable_sensor_state : Option SensorState
  pub stable_since : Option ℕ
  pub last_display_state : Option String
  pub last_display_color : Option String
  pub last_display_blink : Bool

-- `DebounceState(space_id=space_id)`
unfoldable pub new_debounce_state : String → DebounceState
new_debounce_state space = record {
  space_id = space;
  last_sensor_state = none;
  last_sensor_timestamp = none;
  pending_sensor_state = none;
  pending_since = none;
  pending_count = 0;
  stable_sensor_state = none;
  stable_since = none;
  last_display_state = none;
  last_display_color = none;
  last_display_blink = false;
}

-- The reason is kept as data: the code only logs and returns the text made of it.
pub data Reason : Type 0 where
  override_out_of_service override_blocked active_reservation : Reason
  starts_in : ℕ → Reason
  sensor_occupied sensor_vacant : Reason
  holding : ℕ → Reason
  no_sensor_data fallback_no_data : Reason

pub record DisplayCommand : Type 0 where
  pub state : String
  pub color : Option String
  pub blink : Bool
  pub priority_level : ℕ
  pub reason : Reason

-- The columns of `sensor_debounce_state`, the enumerations as texts.
pub record DebounceRow : Type 0 where
  pub space_id : String
  pub last_sensor_state : Option String
  pub last_sensor_timestamp : Option ℕ
  pub pending_sensor_state : Option String
  pub pending_since : Option ℕ
  pub pending_count : Option ℕ
  pub stable_sensor_state : Option String
  pub stable_since : Option ℕ
  pub last_display_state : Option String
  pub last_display_color : Option String
  pub last_display_blink : Bool

pub record PolicyRow : Type 0 where
  pub policy : DisplayPolicy
  pub is_active : Bool

pub record OverrideRow : Type 0 where
  pub space_id : String
  pub override_type : AdminOverrideType
  pub start_time : ℕ
  pub end_time : Option ℕ
  pub is_active : Bool

pub record ReservationRow : Type 0 where
  pub space_id : String
  pub status : ReservationStatus
  pub start_time : ℕ
  pub end_time : ℕ

-- A row of `spaces`, as the recomputation reads it.
pub record SpaceRow : Type 0 where
  pub id : String
  pub tenant_id : String
  pub deleted_at : Option ℕ

-- The database, and the two dictionaries of a `DisplayStateMachine`.
pub record World : Type 0 where
  pub debounce_rows : String → Option DebounceRow
  pub policies : List PolicyRow
  pub overrides : List OverrideRow
  pub reservations : List ReservationRow
  pub spaces : List SpaceRow
  pub policy_cache : String → Option (DisplayPolicy × ℕ)
  pub policy_cache_time : String → Option ℕ
