-- ===== src/Estate/Blocked.antt =====
-- The tables of spaces under the trigger trg_spaces_eui_upper, which migrations/008 creates and no
-- later migration drops.
use smart_parking_platform.Prelude.{ℕ, String, none, some, true, ◌≡◌, arith, first}
use smart_parking_platform.Access.Types.{http_error}
use smart_parking_platform.Estate.Types.{ParkingSpace, Tables}
use smart_parking_platform.Estate.Sites.{written}
use smart_parking_platform.Estate.Rows.{store_space, own_live_space}
use smart_parking_platform.Estate.Spaces.{delete_space, change_space, mark_deleted}
use smart_parking_platform.Estate.Steps

pub store_space-blocked :
    (s : ParkingSpace) (db : Tables) → db.has_eui_trigger ≡ true → store_space s db ≡ none
unfolding store_space
store_space-blocked s db h = ground (arith, h)

pub delete_space-blocked :
    (id tenant : String) (now : ℕ) (db : Tables) (s : ParkingSpace)
    → db.has_eui_trigger ≡ true
    → first (own_live_space id tenant) db.spaces ≡ some s
    → delete_space id now tenant db ≡ (http_error 500, db)
unfolding delete_space change_space written
delete_space-blocked id tenant now db s h found =
    ground (arith, found, store_space-blocked (mark_deleted now s) db h)

-- The same spaces, and the trigger still there.
abbrev Frozen : Tables → Tables → Type 0
Frozen db db' = (db'.spaces ≡ db.spaces) × (db'.has_eui_trigger ≡ true)
