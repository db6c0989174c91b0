-- ===== src/Estate/Listing.antt =====
-- `list_spaces` of src/routers/spaces_tenanted.py, which answers from the cache where it can, and
-- the calls that invalidate the cache. `digest` is the MD5 of the key data, as hexadecimal digits.
use smart_parking_platform.Prelude.{
  ℕ, String, text_eq, text_append, List, [], ◌∷◌, Option, none, some, Bool, true, false, ◌&&◌, ◌||◌,
  if◌then◌else◌, keep, map, length, text_leb,
}
use smart_parking_platform.Access.Types.{
  UserRole, platform_admin, TenantContext, Outcome, pass, http_error,
}
use smart_parking_platform.Spaces.Types.{SpaceState, same_state}
use smart_parking_platform.Estate.Types.{ParkingSpace, Tables, SpaceView, SpacesList, ListFilters}
use smart_parking_platform.Estate.Sites.{is_live}
use smart_parking_platform.Estate.Rows.{same_text}
use smart_parking_platform.Estate.Spaces.{
  space_view, site_name, create_space, update_space, delete_space,
}
use smart_parking_platform.Estate.Cache.{CacheServer, invalidate_space_cache}
use smart_parking_platform.Estate.Calls.{Call, post_space, patch_space, remove_space, run_call}

-- A condition `column = $n`, if a value is asked for.
unfoldable pub asked : Option String → Option String → Bool
unfolding same_text
asked none column = true
asked (some value) column = same_text column (some value)

unfoldable pub state_asked : Option SpaceState → SpaceState → Bool
state_asked none state = true
state_asked (some wanted) state = same_state state wanted

-- The WHERE clause.
unfoldable pub matches_filters : Bool → String → ListFilters → ParkingSpace → Bool
unfolding asked state_asked
matches_filters every_tenant tenant f s =
    (every_tenant || text_eq s.tenant_id tenant)
    && (asked f.building s.building
        && (asked f.floor s.floor
            && (asked f.zone s.zone
                && (state_asked f.state s.state
                    && (asked f.site_id (some s.site_id) && (f.include_deleted || is_live s))))))

-- ORDER BY code, name, by code points
unfoldable pub comes_before : ParkingSpace → ParkingSpace → Bool
comes_before a b = if text_eq a.code b.code then text_leb a.name b.name else text_leb a.code b.code

unfoldable pub insert_by_code : ParkingSpace → List ParkingSpace → List ParkingSpace
insert_by_code s [] = s ∷ []
insert_by_code s (t ∷ ts) =
    let rest = insert_by_code s ts in if comes_before s t then s ∷ t ∷ ts else t ∷ rest

unfoldable pub by_code : List ParkingSpace → List ParkingSpace
by_code [] = []
by_code (s ∷ ss) = insert_by_code s (by_code ss)

-- What the database answers.
unfoldable pub fetch_spaces : Bool → String → ListFilters → Tables → SpacesList
fetch_spaces every_tenant tenant f db =
    let rows = by_code (keep (matches_filters every_tenant tenant f) db.spaces) in
    record { spaces = map (λ s. space_view (site_name s db) s) rows; count = length rows }

abbrev pub platform_tenant : String
platform_tenant = "00000000-0000-0000-0000-000000000000"

abbrev pub has_platform_role : Option UserRole → Bool
has_platform_role (some platform_admin) = true
has_platform_role _ = false

-- is_platform_admin
unfoldable pub is_platform_admin : TenantContext → Bool
is_platform_admin c = has_platform_role c.user_role && text_eq c.tenant_id platform_tenant

-- The key of the cache: the tenant and the filters, and not the role.
unfoldable pub cache_key : (String → ListFilters → String) → String → ListFilters → String
cache_key digest tenant f = text_append "spaces:list:" (digest tenant f)

-- The answer and what the cache then holds.
unfoldable pub list_spaces :
    (digest : String → ListFilters → String) (glob : String → String → Bool)
    (server : CacheServer SpacesList glob)
    → ℕ
    → TenantContext
    → ListFilters
    → Tables
    → server.Store
    → SpacesList × server.Store
list_spaces digest glob server now c f db s =
    let key = cache_key digest c.tenant_id f in
    elim (server.get now key s) [
      | some cached ↦ (cached, s)
      | none ↦
          let result = fetch_spaces (is_platform_admin c) c.tenant_id f db in
          (result, server.setex now key 60 result s)
    ]

-- The tables and the cache under one call. A handler that answers without an error invalidates the
-- cache, if it is one of the three that do.
module _ (glob : String → String → Bool) (server : CacheServer SpacesList glob) where
  unfoldable pub on_success :
      Outcome SpaceView → String → Option String → server.Store → server.Store
  on_success (pass v) tenant space s = invalidate_space_cache glob server tenant space s
  on_success (http_error n) tenant space s = s

  unfoldable pub serve_cache : Bool → String → Call → Tables → server.Store → server.Store
  serve_cache codec tenant (post_space new_id now q) db s =
      on_success (create_space codec new_id now q tenant db).0 tenant none s
  serve_cache codec tenant (patch_space id now u) db s =
      on_success (update_space codec id now u tenant db).0 tenant (some id) s
  serve_cache codec tenant (remove_space id now) db s =
      on_success (delete_space id now tenant db).0 tenant (some id) s
  serve_cache codec tenant _ db s = s

  unfoldable pub serve_calls :
      Bool
      → (String → String)
      → List (String × Call)
      → Tables
      → server.Store
      → Tables × server.Store
  serve_calls codec upper [] db s = (db, s)
  serve_calls codec upper (c ∷ cs) db s =
      serve_calls codec upper cs (run_call codec upper c.0 c.1 db) (serve_cache codec c.0 c.1 db s)
