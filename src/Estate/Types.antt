-- ===== src/Estate/Types.antt =====
-- The rows of sites and spaces, the requests and the answers. Times are microseconds; a coordinate
-- is a whole number of hundred-millionths of a degree, the scale of its column.
use smart_parking_platform.Prelude.{ℕ, zero, suc, String, List, [], ◌∷◌, Option, none, some, Bool}
use smart_parking_platform.Reservations.Types.{ℤ, pos, negsuc, JsonValue}
use smart_parking_platform.Spaces.Types.{SpaceState}

abbrev pub JsonObject : Type 0
JsonObject = List (String × JsonValue)

-- A row of sites.
pub record Site : Type 0 where
  pub id : String
  pub tenant_id : String
  pub name : String
  pub timezone : String
  pub location : Option JsonObject
  pub metadata : Option JsonObject
  pub is_active : Bool
  pub created_at : ℕ
  pub updated_at : ℕ

-- A row of spaces.
pub record ParkingSpace : Type 0 where
  pub id : String
  pub name : String
  pub code : String
  pub building : Option String
  pub floor : Option String
  pub zone : Option String
  pub gps_latitude : Option ℤ
  pub gps_longitude : Option ℤ
  pub sensor_eui : Option String
  pub display_eui : Option String
  pub state : SpaceState
  pub site_id : String
  pub tenant_id : String
  pub metadata : Option JsonObject
  pub created_at : ℕ
  pub updated_at : ℕ
  pub deleted_at : Option ℕ

-- The devices are known by their dev_eui. `has_eui_trigger` says whether trg_spaces_eui_upper of
-- migrations/008_critical_fixes.sql stands, which no later migration drops.
pub record Tables : Type 0 where
  pub has_eui_trigger : Bool
  pub sites : List Site
  pub spaces : List ParkingSpace
  pub sensor_devices : List String
  pub display_devices : List String

pub record SiteCreate : Type 0 where
  pub name : String
  pub timezone : String
  pub location : Option JsonObject
  pub metadata : Option JsonObject
  pub is_active : Bool

pub record SiteUpdate : Type 0 where
  pub name : Option String
  pub timezone : Option String
  pub location : Option JsonObject
  pub metadata : Option JsonObject
  pub is_active : Option Bool

pub record SiteResponse : Type 0 where
  pub id : String
  pub tenant_id : String
  pub name : String
  pub timezone : String
  pub location : Option JsonObject
  pub metadata : JsonObject
  pub is_active : Bool
  pub created_at : ℕ
  pub updated_at : ℕ
  pub spaces_count : ℕ

-- The requests after Pydantic's validation, which leaves the EUIs in upper case.
pub record SpaceCreate : Type 0 where
  pub name : String
  pub code : String
  pub building : Option String
  pub floor : Option String
  pub zone : Option String
  pub gps_latitude : Option ℤ
  pub gps_longitude : Option ℤ
  pub sensor_eui : Option String
  pub display_eui : Option String
  pub state : SpaceState
  pub site_id : String
  pub metadata : Option JsonObject

pub record SpaceUpdate : Type 0 where
  pub name : Option String
  pub code : Option String
  pub building : Option String
  pub floor : Option String
  pub zone : Option String
  pub sensor_eui : Option String
  pub display_eui : Option String
  pub state : Option SpaceState
  pub metadata : Option JsonObject

-- What the endpoints answer about a space.
pub record SpaceView : Type 0 where
  pub id : String
  pub name : String
  pub code : String
  pub building : Option String
  pub floor : Option String
  pub zone : Option String
  pub state : SpaceState
  pub site_id : String
  pub site_name : Option String
  pub tenant_id : String
  pub sensor_eui : Option String
  pub display_eui : Option String
  pub gps_latitude : Option ℤ
  pub gps_longitude : Option ℤ
  pub metadata : Option JsonObject
  pub created_at : ℕ
  pub updated_at : ℕ
  pub deleted_at : Option ℕ

pub record SpacesList : Type 0 where
  pub spaces : List SpaceView
  pub count : ℕ

-- The filters of a list of spaces, which with the tenant are the keys of cache_key_data.
pub record ListFilters : Type 0 where
  pub building : Option String
  pub floor : Option String
  pub zone : Option String
  pub state : Option SpaceState
  pub site_id : Option String
  pub include_deleted : Bool

pub record SpaceStats : Type 0 where
  pub free_count : ℕ
  pub occupied_count : ℕ
  pub reserved_count : ℕ
  pub maintenance_count : ℕ
  pub total : ℕ

-- `value` where the request gives one, else what the row has
abbrev pub or_kept {ℓ} : {A : Type ℓ} → A → Option A → A
or_kept old none = old
or_kept old (some new) = new

-- the same for a column that may be NULL
abbrev pub or_kept_null {ℓ} : {A : Type ℓ} → Option A → Option A → Option A
or_kept_null old none = old
or_kept_null old (some new) = some new

-- An object that is given and is not empty, as in `json.dumps(x) if x else None`.
unfoldable pub dumped : Option JsonObject → Option JsonObject
dumped none = none
dumped (some []) = none
dumped (some (e ∷ es)) = some (e ∷ es)

-- Python's truth of a number, as in `float(x) if x else None`
unfoldable pub coordinate : Option ℤ → Option ℤ
coordinate none = none
coordinate (some (pos zero)) = none
coordinate (some (pos (suc n))) = some (pos (suc n))
coordinate (some (negsuc n)) = some (negsuc n)
