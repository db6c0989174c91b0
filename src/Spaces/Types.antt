-- ===== src/Spaces/Types.antt =====
-- The rows and results of StateManager. Times are microseconds.
use smart_parking_platform.Prelude.{ℕ, String, List, Option, some, none, Bool, true, false, truthy}

pub data SpaceState : Type 0 where
  free occupied reserved maintenance : SpaceState

-- `state.value`
unfoldable pub state_text : SpaceState → String
state_text free = "FREE"
state_text occupied = "OCCUPIED"
state_text reserved = "RESERVED"
state_text maintenance = "MAINTENANCE"

abbrev pub same_state : SpaceState → SpaceState → Bool
same_state free free = true
same_state occupied occupied = true
same_state reserved reserved = true
same_state maintenance maintenance = true
same_state _ _ = false

pub record Space : Type 0 where
  pub id : String
  pub code : String
  pub state : SpaceState
  pub sensor_eui : Option String
  pub display_eui : Option String
  pub tenant_id : Option String
  pub updated_at : ℕ
  pub deleted_at : Option ℕ

pub record DisplayDevice : Type 0 where
  pub id : String
  pub dev_eui : String
  pub display_codes : List (String × String)
  pub fport : ℕ
  pub confirmed_downlinks : Bool
  pub enabled : Bool

-- A row of state_changes.
pub record Change : Type 0 where
  pub space_id : String
  pub previous_state : SpaceState
  pub new_state : SpaceState
  pub source : String
  pub request_id : String
  pub timestamp : ℕ

-- A row of actuations.
pub record Actuation : Type 0 where
  pub space_id : String
  pub trigger_type : String
  pub trigger_source : String
  pub previous_state : SpaceState
  pub new_state : SpaceState
  pub display_eui : String
  pub display_device_id : Option String
  pub display_code : Option String
  pub fport : Option ℕ
  pub confirmed : Bool
  pub downlink_sent : Bool
  pub downlink_queue_id : Option String
  pub downlink_error : Option String
  pub response_time_ms : Option ℕ
  pub created_at : ℕ
  pub sent_at : Option ℕ

pub record StateUpdateResult : Type 0 where
  pub success : Bool
  pub previous_state : Option SpaceState
  pub new_state : SpaceState
  pub display_updated : Bool
  pub error : Option String

-- What `update_space_state` does: return, or raise a StateTransitionError, for the transition or
-- because the lock is taken.
pub data Update : Type 0 where
  returned : StateUpdateResult → Update
  invalid_transition : SpaceState → SpaceState → Update
  lock_taken : Update

-- Python's truth of an optional text.
abbrev pub given : Option String → Bool
given none = false
given (some s) = truthy s
