-- ===== src/Estate/Sites.antt =====
-- The endpoints of src/routers/sites.py. A handler is one step on the tables.
-- `json_codec` says whether a jsonb column comes back from the driver as a dict.
use smart_parking_platform.Prelude.{
  ℕ, String, text_eq, List, [], ◌∷◌, ◌++◌, Option, none, some, Bool, false, ◌&&◌, ◌||◌, not, ltb,
  if◌then◌else◌, keep, first, any, tally, rewrite, text_leb, map, is_some,
}
use smart_parking_platform.Access.Types.{Outcome, pass, http_error}
use smart_parking_platform.Estate.Types.{
  JsonObject, Site, ParkingSpace, Tables, SiteCreate, SiteUpdate, SiteResponse, or_kept, dumped,
}

abbrev pub is_live : ParkingSpace → Bool
is_live s = not (is_some s.deleted_at)

-- COUNT(*) of the spaces of a site WHERE deleted_at IS NULL
unfoldable pub spaces_count : String → Tables → ℕ
spaces_count site db = tally (λ s. text_eq s.site_id site && is_live s) db.spaces

-- WHERE id = $1 AND tenant_id = $2
abbrev pub own_site : String → String → Site → Bool
own_site id tenant s = text_eq s.id id && text_eq s.tenant_id tenant

-- WHERE tenant_id = $1 AND name = $2
abbrev pub named_site : String → String → Site → Bool
named_site tenant name s = text_eq s.tenant_id tenant && text_eq s.name name

-- `x if isinstance(x, dict) else None`
unfoldable pub location_shown : Bool → Option JsonObject → Option JsonObject
location_shown codec x = if codec then x else none

-- `x if isinstance(x, dict) else {}`
unfoldable pub metadata_shown : Bool → Option JsonObject → JsonObject
metadata_shown codec none = []
metadata_shown codec (some x) = if codec then x else []

unfoldable pub site_response : Bool → Site → ℕ → SiteResponse
site_response codec s count = record {
  id = s.id;
  tenant_id = s.tenant_id;
  name = s.name;
  timezone = s.timezone;
  location = location_shown codec s.location;
  metadata = metadata_shown codec s.metadata;
  is_active = s.is_active;
  created_at = s.created_at;
  updated_at = s.updated_at;
  spaces_count = count;
}

-- ORDER BY name
unfoldable pub insert_by_name : Site → List Site → List Site
insert_by_name s [] = s ∷ []
insert_by_name s (t ∷ ts) =
    let rest = insert_by_name s ts in if text_leb s.name t.name then s ∷ t ∷ ts else t ∷ rest

unfoldable pub by_name : List Site → List Site
by_name [] = []
by_name (s ∷ ss) = insert_by_name s (by_name ss)

-- `list_sites`
unfoldable pub list_sites : Bool → String → Bool → Tables → List SiteResponse
list_sites codec tenant include_inactive db =
    map (λ s. site_response codec s (spaces_count s.id db))
      (by_name
        (keep (λ s. text_eq s.tenant_id tenant && (include_inactive || s.is_active)) db.sites))

-- `get_site`
unfoldable pub get_site : Bool → String → String → Tables → Outcome SiteResponse
get_site codec id tenant db = elim (first (own_site id tenant) db.sites) [
  | none ↦ http_error 404
  | some s ↦ pass (site_response codec s (spaces_count id db))
]

-- PRIMARY KEY (id) and UNIQUE (tenant_id, name)
unfoldable pub sites_clash : Site → Site → Bool
sites_clash s t = text_eq s.id t.id || named_site t.tenant_id t.name s

unfoldable pub new_site : String → ℕ → String → SiteCreate → Site
new_site new_id now tenant q = record {
  id = new_id;
  tenant_id = tenant;
  name = q.name;
  timezone = q.timezone;
  location = dumped q.location;
  metadata = dumped q.metadata;
  is_active = q.is_active;
  created_at = now;
  updated_at = now;
}

-- The INSERT, which a constraint may refuse.
unfoldable pub insert_site : Site → Tables → Option Tables
insert_site s db =
    if any (λ t. sites_clash t s) db.sites
    then none
    else some (record db { sites = db.sites ++ s ∷ [] })

-- What the handlers answer after a write, 500 where the database refused it.
unfoldable pub written : {A : Type 0} → A → Tables → Option Tables → Outcome A × Tables
written answer db none = (http_error 500, db)
written answer db (some db') = (pass answer, db')

-- `create_site`
unfoldable pub create_site :
    Bool → String → ℕ → SiteCreate → String → Tables → Outcome SiteResponse × Tables
create_site codec new_id now q tenant db =
    if any (named_site tenant q.name) db.sites
    then (http_error 409, db)
    else written (site_response codec (new_site new_id now tenant q) 0) db
        (insert_site (new_site new_id now tenant q) db)

-- The UPDATE of a row, which a constraint may refuse.
unfoldable pub store_site : Site → Tables → Option Tables
store_site s db =
    if any (λ t. not (text_eq t.id s.id) && sites_clash t s) db.sites
    then none
    else some (record db { sites = rewrite (own_site s.id s.tenant_id) (λ _. s) db.sites })

-- Whether update_fields is empty.
unfoldable pub no_site_fields : SiteUpdate → Bool
no_site_fields u = not (
    is_some u.name
    || (is_some u.timezone || (is_some u.location || (is_some u.metadata || is_some u.is_active))))

-- A column of an object that is given: the object, or NULL where it is empty.
unfoldable pub redumped : Option JsonObject → Option JsonObject → Option JsonObject
redumped old none = old
redumped old (some x) = dumped (some x)

-- SET of the fields that are given, and the trigger on updated_at.
unfoldable pub updated_site : ℕ → SiteUpdate → Site → Site
updated_site now u s = record s {
  name = or_kept s.name u.name;
  timezone = or_kept s.timezone u.timezone;
  location = redumped s.location u.location;
  metadata = redumped s.metadata u.metadata;
  is_active = or_kept s.is_active u.is_active;
  updated_at = now;
}

-- SELECT ... WHERE tenant_id = $1 AND name = $2 AND id != $3, if a name is given
unfoldable pub name_taken : String → String → Option String → Tables → Bool
name_taken id tenant none db = false
name_taken id tenant (some name) db =
    any (λ s. named_site tenant name s && not (text_eq s.id id)) db.sites

-- `update_site`
unfoldable pub update_site :
    Bool → String → ℕ → SiteUpdate → String → Tables → Outcome SiteResponse × Tables
update_site codec id now u tenant db = elim (first (own_site id tenant) db.sites) [
  | none ↦ (http_error 404, db)
  | some s ↦
      if name_taken id tenant u.name db
      then (http_error 409, db)
      else if no_site_fields u
      then (http_error 400, db)
      else written (site_response codec (updated_site now u s) (spaces_count id db)) db
          (store_site (updated_site now u s) db)
]

-- `delete_site`: 204 is `pass tt`.
unfoldable pub delete_site : String → ℕ → Bool → String → Tables → Outcome Unit × Tables
delete_site id now force tenant db = elim (first (own_site id tenant) db.sites) [
  | none ↦ (http_error 404, db)
  | some s ↦ if not force && ltb 0 (spaces_count id db) then (http_error 409, db) else (
    pass tt,
    record db {
      sites =
          rewrite (λ t. text_eq t.id id) (λ t. record t { is_active = false; updated_at = now })
            db.sites;
    },
  )
]
