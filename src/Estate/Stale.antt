-- ===== src/Estate/Stale.antt =====
-- What the cached lists of spaces show after the table has changed.
use smart_parking_platform.Prelude.{
  ℕ, ◌+◌, ◌≤◌, ◌<◌, String, text_eq_refl, List, [], ◌∷◌, Option, none, some, Bool, true, false,
  ◌&&◌, ◌≡◌, refl, ◌∙◌, arith, any, All,
}
use smart_parking_platform.Hex.{codes, is_hex}
use smart_parking_platform.Access.Types.{Outcome, pass, http_error, TenantContext}
use smart_parking_platform.Estate.Types.{Tables, SpaceView, SpacesList, ListFilters}
use smart_parking_platform.Estate.Cache.{
  CacheServer, TakesDashes, dash, is_uuid, null_or_uuid, any-codes_append, invalidation_spares,
}
use smart_parking_platform.Estate.Calls.{
  Call, post_site, patch_site, remove_site, post_space, patch_space, remove_space, put_sensor,
  put_display, take_sensor, take_display, run_call,
}
use smart_parking_platform.Estate.Listing.{
  cache_key, list_spaces, fetch_spaces, is_platform_admin, on_success, serve_cache, serve_calls,
}

unfoldable pub all_hex : List ℕ → Bool
all_hex [] = true
all_hex (c ∷ cs) = is_hex c && all_hex cs

-- hexdigest
abbrev pub IsHexDigest : (String → ListFilters → String) → Type 0
IsHexDigest digest = (t : String) (f : ListFilters) → all_hex (codes (digest t f)) ≡ true

-- The ids that a call names are UUIDs.
unfoldable pub names_uuids : String × Call → Bool
names_uuids (tenant, patch_space id now u) = is_uuid tenant && is_uuid id
names_uuids (tenant, remove_space id now) = is_uuid tenant && is_uuid id
names_uuids (tenant, _) = is_uuid tenant

hex_has_no_dash : (cs : List ℕ) → all_hex cs ≡ true → any dash cs ≡ false
unfolding all_hex
hex_has_no_dash [] h = refl
hex_has_no_dash (c ∷ cs) h = ground (arith, h, hex_has_no_dash cs)

module _ (digest : String → ListFilters → String) (glob : String → String → Bool)
    (server : CacheServer SpacesList glob) (hex : IsHexDigest digest)
    (dashes : TakesDashes glob) where
  no_dash_in_key : (t : String) (f : ListFilters) → any dash (codes (cache_key digest t f)) ≡ false
  unfolding cache_key
  no_dash_in_key t f = ground (
    arith,
    any-codes_append dash "spaces:list:" (digest t f),
    hex_has_no_dash (codes (digest t f)) (hex t f),
  )

  module _ (t : String) (f : ListFilters) (now : ℕ) where
    on_success-kept :
        (o : Outcome SpaceView) (tenant : String) (space : Option String) (s : server.Store)
        → is_uuid tenant ≡ true
        → null_or_uuid space ≡ true
        → server.get now (cache_key digest t f) (on_success glob server o tenant space s)
          ≡ server.get now (cache_key digest t f) s
    unfolding on_success
    on_success-kept (pass v) tenant space s own known =
        invalidation_spares glob server dashes tenant space now (cache_key digest t f) s own known
          (no_dash_in_key t f)
    on_success-kept (http_error n) tenant space s own known = refl

    serve_cache-kept :
        (codec : Bool) (tenant : String) (c : Call) (db : Tables) (s : server.Store)
        → names_uuids (tenant, c) ≡ true
        → server.get now (cache_key digest t f) (serve_cache glob server codec tenant c db s)
          ≡ server.get now (cache_key digest t f) s
    unfolding serve_cache names_uuids
    serve_cache-kept codec tenant (post_space new_id at q) db s h =
        on_success-kept _ tenant none s h refl
    serve_cache-kept codec tenant (patch_space id at u) db s h =
        on_success-kept _ tenant (some id) s (ground (arith, h)) (ground (arith, h))
    serve_cache-kept codec tenant (remove_space id at) db s h =
        on_success-kept _ tenant (some id) s (ground (arith, h)) (ground (arith, h))
    serve_cache-kept codec tenant (post_site new_id at q) db s h = refl
    serve_cache-kept codec tenant (patch_site id at u) db s h = refl
    serve_cache-kept codec tenant (remove_site id at force) db s h = refl
    serve_cache-kept codec tenant (put_sensor id at eui) db s h = refl
    serve_cache-kept codec tenant (put_display id at eui) db s h = refl
    serve_cache-kept codec tenant (take_sensor id at) db s h = refl
    serve_cache-kept codec tenant (take_display id at) db s h = refl

    serve_calls-kept :
        (codec : Bool) (upper : String → String) (cs : List (String × Call)) (db : Tables)
        (s : server.Store)
        → All (λ c. names_uuids c ≡ true) cs
        → server.get now (cache_key digest t f) (serve_calls glob server codec upper cs db s).1
          ≡ server.get now (cache_key digest t f) s
    unfolding serve_calls
    serve_calls-kept codec upper [] db s h = refl
    serve_calls-kept codec upper (c ∷ cs) db s h =
        serve_calls-kept codec upper cs (run_call codec upper c.0 c.1 db)
          (serve_cache glob server codec c.0 c.1 db s) h.1
        ∙ serve_cache-kept codec c.0 c.1 db s h.0

  -- A list of spaces that the cache did not have is answered again, as it was, to every request of
  -- the same tenant with the same filters in the next 60 seconds, whatever the role that asks, and
  -- whatever spaces were created, changed and deleted in between. The ids are UUIDs, the digest is
  -- hexadecimal, and a glob pattern takes its dashes as they are.
  pub cached_list_outlives_calls :
      (codec : Bool) (upper : String → String) (cs : List (String × Call)) (c c' : TenantContext)
      (f : ListFilters) (now later : ℕ) (db : Tables) (s : server.Store)
      → server.get now (cache_key digest c.tenant_id f) s ≡ none
      → All (λ call. names_uuids call ≡ true) cs
      → c'.tenant_id ≡ c.tenant_id
      → now ≤ later
      → later < now + 60000000
      → let after =
          serve_calls glob server codec upper cs db
            (list_spaces digest glob server now c f db s).1 in
        (list_spaces digest glob server later c' f after.0 after.1).0
        ≡ fetch_spaces (is_platform_admin c) c.tenant_id f db
  unfolding list_spaces
  cached_list_outlives_calls codec upper cs c c' f now later db s missed uuids same order soon =
      let key = cache_key digest c.tenant_id f in
      let result = fetch_spaces (is_platform_admin c) c.tenant_id f db in
      let kept =
        serve_calls-kept c.tenant_id f later codec upper cs db (server.setex now key 60 result s)
          uuids in
      let held = server.get-setex now later 60 key key result s order in
      let found : server.get later key
            (serve_calls glob server codec upper cs db (server.setex now key 60 result s)).1
          ≡ some result =
        kept ∙ held ∙ ground (arith, text_eq_refl key, soon) in
      rw (same, missed, list_spaces) (rw (found, list_spaces) refl)
