-- ===== src/Estate/Rows.antt =====
-- The table of spaces: the constraints and the triggers of the migrations 001, 002, 003 and 008.
-- `none` is the database's refusal.
use smart_parking_platform.Prelude.{
  ℕ, String, text_eq, List, [], ◌∷◌, ◌++◌, Option, none, some, Bool, true, false, ◌&&◌, ◌||◌, not,
  leb, ◌==◌, if◌then◌else◌, first, any, rewrite, length,
}
use smart_parking_platform.Hex.{codes}
use smart_parking_platform.Estate.Types.{Site, ParkingSpace, Tables}
use smart_parking_platform.Estate.Sites.{is_live}

-- Equality in a unique index: NULL equals nothing.
unfoldable pub same_text : Option String → Option String → Bool
same_text (some a) (some b) = text_eq a b
same_text _ _ = false

-- PRIMARY KEY (id)
abbrev pub same_id : ParkingSpace → ParkingSpace → Bool
same_id a b = text_eq a.id b.id

-- unique_tenant_site_space_code ON spaces(tenant_id, site_id, code) WHERE deleted_at IS NULL
unfoldable pub codes_clash : ParkingSpace → ParkingSpace → Bool
codes_clash a b =
    (is_live a && is_live b)
    && (text_eq a.tenant_id b.tenant_id && (text_eq a.site_id b.site_id && text_eq a.code b.code))

-- unique_sensor_eui UNIQUE (sensor_eui), which has no WHERE
unfoldable pub sensors_clash : ParkingSpace → ParkingSpace → Bool
unfolding same_text
sensors_clash a b = same_text a.sensor_eui b.sensor_eui

-- uq_spaces_display_eui ON spaces(display_eui) WHERE display_eui IS NOT NULL AND deleted_at IS NULL
unfoldable pub displays_clash : ParkingSpace → ParkingSpace → Bool
unfolding same_text
displays_clash a b = (is_live a && is_live b) && same_text a.display_eui b.display_eui

-- Two rows that cannot stand in the table together.
unfoldable pub spaces_clash : ParkingSpace → ParkingSpace → Bool
spaces_clash a b = same_id a b || (codes_clash a b || (sensors_clash a b || displays_clash a b))

-- '0123456789ABCDEF'
abbrev pub is_upper_digit : ℕ → Bool
is_upper_digit c = (leb b'0' c && leb c b'9') || (leb b'A' c && leb c b'F')

unfoldable pub all_upper_digits : List ℕ → Bool
all_upper_digits [] = true
all_upper_digits (c ∷ cs) = is_upper_digit c && all_upper_digits cs

-- 16 upper-case hexadecimal digits
unfoldable pub is_eui : String → Bool
unfolding all_upper_digits
is_eui eui = length (codes eui) == 16 && all_upper_digits (codes eui)

unfoldable pub null_or_eui : Option String → Bool
null_or_eui none = true
null_or_eui (some eui) = is_eui eui

-- chk_spaces_eui_hex
unfoldable pub euis_fit : ParkingSpace → Bool
euis_fit s = null_or_eui s.sensor_eui && null_or_eui s.display_eui

-- SELECT tenant_id FROM sites WHERE id = $1 AND is_active = true
abbrev pub active_site : String → Site → Bool
active_site id s = text_eq s.id id && s.is_active

-- INSERT INTO spaces of a row without a tenant: the trigger spaces_sync_tenant_id takes the tenant
-- of the site. trg_spaces_eui_upper raises for every row: its function reads NEW.dev_eui, a column
-- that spaces has not.
unfoldable pub insert_space : ParkingSpace → Tables → Option (ParkingSpace × Tables)
insert_space s db =
    if db.has_eui_trigger then none else (elim (first (active_site s.site_id) db.sites) [
      | none ↦ none
      | some site ↦
          let r = record s { tenant_id = site.tenant_id } in
          if not (euis_fit r) || any (λ t. spaces_clash t r) db.spaces
          then none
          else some (r, record db { spaces = db.spaces ++ r ∷ [] })
    ])

-- WHERE id = $1 AND tenant_id = $2
abbrev pub own_space : String → String → ParkingSpace → Bool
own_space id tenant s = text_eq s.id id && text_eq s.tenant_id tenant

-- WHERE id = $1 AND tenant_id = $2 AND deleted_at IS NULL
abbrev pub own_live_space : String → String → ParkingSpace → Bool
own_live_space id tenant s = own_space id tenant s && is_live s

-- The UPDATE that makes `s` of the row with its id and its tenant, under the same triggers.
unfoldable pub store_space : ParkingSpace → Tables → Option Tables
store_space s db =
    if db.has_eui_trigger
      || (not (euis_fit s) || any (λ t. not (same_id t s) && spaces_clash t s) db.spaces)
    then none
    else some (record db { spaces = rewrite (own_space s.id s.tenant_id) (λ _. s) db.spaces })
