-- ===== src/Estate/Spaces.antt =====
-- The endpoints of src/routers/spaces_tenanted.py but for the list. A handler is one step on the
-- tables. `json_codec` says whether the driver takes a dict for a jsonb column, and `upper` is
-- Python's str.upper.
use smart_parking_platform.Prelude.{
  ℕ, ◌+◌, String, text_eq, List, [], ◌∷◌, ◌++◌, Option, none, some, Bool, true, ◌&&◌, ◌||◌, not,
  if◌then◌else◌, first, any, tally, is_some,
}
use smart_parking_platform.Access.Types.{Outcome, pass, http_error}
use smart_parking_platform.Spaces.Types.{
  SpaceState, free, occupied, reserved, maintenance, same_state,
}
use smart_parking_platform.Estate.Types.{
  JsonObject, ParkingSpace, Tables, SpaceCreate, SpaceUpdate, SpaceView, SpaceStats, or_kept,
  or_kept_null, coordinate,
}
use smart_parking_platform.Estate.Sites.{is_live, written}
use smart_parking_platform.Estate.Rows.{
  insert_space, own_live_space, active_site, store_space, is_eui,
}

-- LEFT JOIN sites ON s.site_id = sites.id
unfoldable pub site_name : ParkingSpace → Tables → Option String
site_name s db = elim (first (λ t. text_eq t.id s.site_id) db.sites) [
  | none ↦ none
  | some t ↦ some t.name
]

unfoldable pub space_view : Option String → ParkingSpace → SpaceView
space_view site s = record {
  id = s.id;
  name = s.name;
  code = s.code;
  building = s.building;
  floor = s.floor;
  zone = s.zone;
  state = s.state;
  site_id = s.site_id;
  site_name = site;
  tenant_id = s.tenant_id;
  sensor_eui = s.sensor_eui;
  display_eui = s.display_eui;
  gps_latitude = coordinate s.gps_latitude;
  gps_longitude = coordinate s.gps_longitude;
  metadata = s.metadata;
  created_at = s.created_at;
  updated_at = s.updated_at;
  deleted_at = s.deleted_at;
}

-- `get_space`
unfoldable pub get_space : String → String → Tables → Outcome SpaceView
get_space id tenant db = elim (first (own_live_space id tenant) db.spaces) [
  | none ↦ http_error 404
  | some s ↦ pass (space_view (site_name s db) s)
]

-- The row to insert; the trigger sets its tenant.
unfoldable pub new_space : String → ℕ → SpaceCreate → ParkingSpace
new_space new_id now q = record {
  id = new_id;
  name = q.name;
  code = q.code;
  building = q.building;
  floor = q.floor;
  zone = q.zone;
  gps_latitude = q.gps_latitude;
  gps_longitude = q.gps_longitude;
  sensor_eui = q.sensor_eui;
  display_eui = q.display_eui;
  state = q.state;
  site_id = q.site_id;
  tenant_id = "";
  metadata = q.metadata;
  created_at = now;
  updated_at = now;
  deleted_at = none;
}

-- SELECT id FROM spaces WHERE tenant_id = $1 AND site_id = $2 AND code = $3 AND deleted_at IS NULL
unfoldable pub code_taken : String → String → String → Tables → Bool
code_taken tenant site code db =
    any
      (λ s.
        text_eq s.tenant_id tenant
        && (text_eq s.site_id site && (text_eq s.code code && is_live s)))
      db.spaces

-- A dict cannot be the argument of a jsonb column without a codec.
unfoldable pub argument_fits : Bool → Option JsonObject → Bool
argument_fits json_codec none = true
argument_fits json_codec (some x) = json_codec

-- The INSERT of `create_space`.
unfoldable pub inserted : Bool → ParkingSpace → Tables → Outcome SpaceView × Tables
inserted json_codec s db =
    if not (argument_fits json_codec s.metadata)
    then (http_error 500, db)
    else elim (insert_space s db) [
      | none ↦ (http_error 500, db)
      | some (r, db') ↦ (pass (space_view none r), db')
    ]

-- `create_space`
unfoldable pub create_space :
    Bool → String → ℕ → SpaceCreate → String → Tables → Outcome SpaceView × Tables
create_space json_codec new_id now q tenant db =
    if not (any (λ s. active_site q.site_id s && text_eq s.tenant_id tenant) db.sites)
    then (http_error 400, db)
    else if code_taken tenant q.site_id q.code db
    then (http_error 400, db)
    else inserted json_codec (new_space new_id now q) db

-- Whether update_fields is empty.
unfoldable pub no_space_fields : SpaceUpdate → Bool
no_space_fields u = not (
    is_some u.name
    || (is_some u.code
        || (is_some u.building
            || (is_some u.floor
                || (is_some u.zone
                    || (is_some u.sensor_eui
                        || (is_some u.display_eui || (is_some u.state || is_some u.metadata))))))))

-- SET of the fields that are given, and updated_at
unfoldable pub updated_space : ℕ → SpaceUpdate → ParkingSpace → ParkingSpace
updated_space now u s = record s {
  name = or_kept s.name u.name;
  code = or_kept s.code u.code;
  building = or_kept_null s.building u.building;
  floor = or_kept_null s.floor u.floor;
  zone = or_kept_null s.zone u.zone;
  sensor_eui = or_kept_null s.sensor_eui u.sensor_eui;
  display_eui = or_kept_null s.display_eui u.display_eui;
  state = or_kept s.state u.state;
  metadata = or_kept_null s.metadata u.metadata;
  updated_at = now;
}

-- `update_space`
unfoldable pub update_space :
    Bool → String → ℕ → SpaceUpdate → String → Tables → Outcome SpaceView × Tables
update_space json_codec id now u tenant db = elim (first (own_live_space id tenant) db.spaces) [
  | none ↦ (http_error 404, db)
  | some s ↦
      if no_space_fields u
      then (http_error 400, db)
      else if not (argument_fits json_codec u.metadata)
      then (http_error 500, db)
      else written (space_view none (updated_space now u s)) db
          (store_space (updated_space now u s) db)
]

-- UPDATE ... SET ... WHERE id = $1 AND tenant_id = $2 AND deleted_at IS NULL, 404 where no row is met
unfoldable pub change_space :
    String → String → (ParkingSpace → ParkingSpace) → Tables → Outcome SpaceView × Tables
change_space id tenant f db = elim (first (own_live_space id tenant) db.spaces) [
  | none ↦ (http_error 404, db)
  | some s ↦ written (space_view none (f s)) db (store_space (f s) db)
]

abbrev pub mark_deleted : ℕ → ParkingSpace → ParkingSpace
mark_deleted now s = record s { deleted_at = some now; updated_at = now }

-- `delete_space`; the answer 204 has no body.
unfoldable pub delete_space : String → ℕ → String → Tables → Outcome SpaceView × Tables
delete_space id now tenant db = change_space id tenant (mark_deleted now) db

-- INSERT ... ON CONFLICT (dev_eui) DO NOTHING, where the device is not known
unfoldable pub with_device : String → List String → List String
with_device eui devices = if any (text_eq eui) devices then devices else devices ++ eui ∷ []

abbrev pub set_sensor : ℕ → Option String → ParkingSpace → ParkingSpace
set_sensor now eui s = record s { sensor_eui = eui; updated_at = now }

abbrev pub set_display : ℕ → Option String → ParkingSpace → ParkingSpace
set_display now eui s = record s { display_eui = eui; updated_at = now }

-- `assign_sensor_to_space`. The device stays even where the space is then not found.
unfoldable pub assign_sensor :
    (String → String) → String → ℕ → String → String → Tables → Outcome SpaceView × Tables
assign_sensor upper id now eui tenant db =
    if is_eui (upper eui)
    then change_space id tenant (set_sensor now (some (upper eui)))
        (record db { sensor_devices = with_device (upper eui) db.sensor_devices })
    else (http_error 400, db)

-- `assign_display_to_space`
unfoldable pub assign_display :
    (String → String) → String → ℕ → String → String → Tables → Outcome SpaceView × Tables
assign_display upper id now eui tenant db =
    if is_eui (upper eui)
    then change_space id tenant (set_display now (some (upper eui)))
        (record db { display_devices = with_device (upper eui) db.display_devices })
    else (http_error 400, db)

-- `unassign_sensor_from_space`
unfoldable pub unassign_sensor : String → ℕ → String → Tables → Outcome SpaceView × Tables
unassign_sensor id now tenant db = change_space id tenant (set_sensor now none) db

-- `unassign_display_from_space`
unfoldable pub unassign_display : String → ℕ → String → Tables → Outcome SpaceView × Tables
unassign_display id now tenant db = change_space id tenant (set_display now none) db

-- the WHERE of the statistics
unfoldable pub counted : String → Option String → SpaceState → ParkingSpace → Bool
counted tenant site state s =
    text_eq s.tenant_id tenant
    && ((elim site [ none ↦ true | some id ↦ text_eq s.site_id id ])
        && (is_live s && same_state s.state state))

-- `get_space_stats`: the counts of GROUP BY state, and their sum
unfoldable pub get_space_stats : Option String → String → Tables → SpaceStats
get_space_stats site tenant db =
    let count : SpaceState → ℕ = λ state. tally (counted tenant site state) db.spaces in
    record {
      free_count = count free;
      occupied_count = count occupied;
      reserved_count = count reserved;
      maintenance_count = count maintenance;
      total = count free + count occupied + count reserved + count maintenance;
    }
