-- ===== src/Policies/Types.antt =====
-- The rows with the columns that only the router reads, the requests and the answers.
use smart_parking_platform.Prelude.{ℕ, String, List, Option, Bool, map}
use smart_parking_platform.Display.Types.{AdminOverrideType, PolicyRow, OverrideRow, World}

-- A row of display_policies.
pub record StoredPolicy : Type 0 where
  pub row : PolicyRow
  pub description : Option String
  pub created_at : ℕ
  pub updated_at : Option ℕ

-- A row of space_admin_overrides.
pub record StoredOverride : Type 0 where
  pub id : String
  pub row : OverrideRow
  pub tenant_id : String
  pub reason : Option String
  pub notes : Option String
  pub created_at : ℕ

-- The tables, the version keys of Redis, and the rest of what a DisplayStateMachine reads and keeps.
pub record PolicyTables : Type 0 where
  pub tenants : List String
  pub policies : List StoredPolicy
  pub overrides : List StoredOverride
  pub versions : String → ℕ
  pub machine : World

-- The policies and the overrides as the computation of displays sees them.
unfoldable pub display_world : PolicyTables → World
display_world db = record db.machine {
  policies = map (λ p. p.row) db.policies;
  overrides = map (λ o. o.row) db.overrides;
}

pub record DisplayPolicyCreate : Type 0 where
  pub name : String
  pub description : Option String
  pub reserved_soon_threshold_sec : ℕ
  pub sensor_unknown_timeout_sec : ℕ
  pub debounce_window_sec : ℕ
  pub occupied_color : String
  pub free_color : String
  pub reserved_color : String
  pub reserved_soon_color : String
  pub blocked_color : String
  pub out_of_service_color : String
  pub blink_reserved_soon : Bool
  pub blink_pattern_ms : ℕ
  pub allow_sensor_override : Bool

pub record DisplayPolicyUpdate : Type 0 where
  pub name : Option String
  pub description : Option String
  pub reserved_soon_threshold_sec : Option ℕ
  pub sensor_unknown_timeout_sec : Option ℕ
  pub debounce_window_sec : Option ℕ
  pub occupied_color : Option String
  pub free_color : Option String
  pub reserved_color : Option String
  pub reserved_soon_color : Option String
  pub blocked_color : Option String
  pub out_of_service_color : Option String
  pub blink_reserved_soon : Option Bool
  pub blink_pattern_ms : Option ℕ
  pub allow_sensor_override : Option Bool

pub record AdminOverrideCreate : Type 0 where
  pub space_id : String
  pub override_type : AdminOverrideType
  pub start_time : Option ℕ
  pub end_time : Option ℕ
  pub reason : Option String
  pub notes : Option String

-- The answers without their messages and the code of the space.
pub record PolicyCreated : Type 0 where
  pub id : String
  pub tenant_id : String
  pub name : String
  pub created_at : ℕ

pub record OverrideCreated : Type 0 where
  pub id : String
  pub space_id : String
  pub override_type : AdminOverrideType
  pub created_at : ℕ
