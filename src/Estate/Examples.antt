-- ===== src/Estate/Examples.antt =====
-- The theorems on sites and spaces at concrete inputs.
use smart_parking_platform.Prelude.{
  ℕ, String, List, [], ◌∷◌, Option, none, some, Bool, true, false, ◌||◌, not, ◌≡◌, ◌≢◌, refl,
  text_eq, ltb, ◌+◌, ◌*◌, if◌then◌else◌, any, arith,
}
use smart_parking_platform.Hex.{codes}
use smart_parking_platform.Access.Types.{pass, http_error, TenantContext, operator, jwt}
use smart_parking_platform.Spaces.Types.{free}
use smart_parking_platform.Estate.Types.{
  Site, ParkingSpace, Tables, SiteCreate, SpaceCreate, SpacesList, ListFilters, SpaceView,
}
use smart_parking_platform.Estate.Cache.{CacheServer, TakesDashes, dash, uuid_chars}
use smart_parking_platform.Estate.Calls.{
  Call, post_site, remove_site, post_space, remove_space, put_sensor, run_calls,
}
use smart_parking_platform.Estate.Sites.{sites_clash, written}
use smart_parking_platform.Estate.Rows.{
  spaces_clash, codes_clash, sensors_clash, displays_clash, same_text, euis_fit, null_or_eui,
  is_eui, all_upper_digits, insert_space, store_space,
}
use smart_parking_platform.Estate.Spaces.{
  create_space, delete_space, get_space, space_view, new_space, site_name, mark_deleted,
  change_space, assign_sensor, code_taken, argument_fits, inserted,
}
use smart_parking_platform.Estate.Sound.{IsSound, has_home, run_calls-IsSound}
use smart_parking_platform.Estate.Isolation.{SeesSame, others_change_nothing}
use smart_parking_platform.Estate.Deleted.{holds_deleted, deleted_space_keeps_its_sensor}
use smart_parking_platform.Estate.Lost.{deleted_sensor_is_lost}
use smart_parking_platform.Estate.Lifecycle.{
  Shows, created_space_is_read_back, eui_trigger_decides_deletion,
}
use smart_parking_platform.Estate.Listing.{
  list_spaces, fetch_spaces, is_platform_admin, serve_calls,
}
use smart_parking_platform.Estate.Stale.{
  IsHexDigest, all_hex, names_uuids, cached_list_outlives_calls,
}

abbrev acme : String
acme = "0a000000-0000-4000-8000-000000000001"

abbrev zenith : String
zenith = "0a000000-0000-4000-8000-000000000002"

abbrev site_of : String → String → Site
site_of id tenant = record {
  id = id;
  tenant_id = tenant;
  name = "North";
  timezone = "UTC";
  location = none;
  metadata = none;
  is_active = true;
  created_at = 1;
  updated_at = 1;
}

abbrev space_in : String → String → String → Option String → Option ℕ → ParkingSpace
space_in id site tenant sensor deleted = record {
  id = id;
  name = "Bay";
  code = "A1";
  building = none;
  floor = none;
  zone = none;
  gps_latitude = none;
  gps_longitude = none;
  sensor_eui = sensor;
  display_eui = none;
  state = free;
  site_id = site;
  tenant_id = tenant;
  metadata = none;
  created_at = 1;
  updated_at = 1;
  deleted_at = deleted;
}

abbrev eui : String
eui = "0004A30B001A2B3C"

-- A deleted space with a sensor, a live one with its code, and a space of another tenant.
abbrev town : Tables
town = record {
  sites = site_of "s1" acme ∷ site_of "s2" zenith ∷ [];
  spaces =
      space_in "p1" "s1" acme (some eui) (some 5)
      ∷ space_in "p2" "s1" acme none none
      ∷ space_in "p3" "s2" zenith none none
      ∷ [];
  has_eui_trigger = false;
  sensor_devices = [];
  display_devices = [];
}

town-IsSound : IsSound town
unfolding sites_clash spaces_clash codes_clash sensors_clash displays_clash same_text has_home
    euis_fit null_or_eui is_eui all_upper_digits
town-IsSound = record {
  sites_apart = ((refl, tt), (tt, tt));
  spaces_apart = ((refl, (refl, tt)), ((refl, tt), (tt, tt)));
  at_home = (refl, (refl, (refl, tt)));
  euis_are_fit = (refl, (refl, (refl, tt)));
}

abbrev bay_request : SpaceCreate
bay_request = record {
  name = "New bay";
  code = "B7";
  building = none;
  floor = some "2";
  zone = none;
  gps_latitude = none;
  gps_longitude = none;
  sensor_eui = none;
  display_eui = none;
  state = free;
  site_id = "s1";
  metadata = none;
}

abbrev annex : SiteCreate
annex = record {
  name = "Annex";
  timezone = "UTC";
  location = none;
  metadata = none;
  is_active = true;
}

abbrev acme_calls : List (String × Call)
acme_calls =
    (acme, post_site "s3" 6 annex)
    ∷ (acme, post_space "p4" 7 bay_request)
    ∷ (acme, remove_space "p3" 8)
    ∷ (acme, put_sensor "p2" 9 eui)
    ∷ (acme, remove_site "s1" 10 true)
    ∷ []

run_calls-IsSound_example : IsSound (run_calls false (λ s. s) acme_calls town)
run_calls-IsSound_example = run_calls-IsSound false (λ s. s) acme_calls town town-IsSound

others_change_nothing_example : SeesSame zenith town (run_calls false (λ s. s) acme_calls town)
others_change_nothing_example =
    others_change_nothing false (λ s. s) zenith acme_calls town town-IsSound
      (refl, (refl, (refl, (refl, (refl, tt)))))

deleted_space_keeps_its_sensor_example :
    (assign_sensor (λ s. s) "p2" 11 eui acme (run_calls false (λ s. s) acme_calls town)).0
    ≢ pass (space_view none (space_in "p2" "s1" acme (some eui) none))
unfolding holds_deleted same_text
deleted_space_keeps_its_sensor_example =
    deleted_space_keeps_its_sensor false (λ s. s) acme_calls town "p2" eui acme 11
      (space_view none (space_in "p2" "s1" acme (some eui) none)) town-IsSound refl

abbrev sensed : ParkingSpace
sensed = space_in "p1" "s1" acme (some eui) none

abbrev sensed_town : Tables
sensed_town = record town { spaces = sensed ∷ [] }

sensed_town-IsSound : IsSound sensed_town
unfolding sites_clash has_home euis_fit null_or_eui is_eui all_upper_digits
sensed_town-IsSound = record {
  sites_apart = town-IsSound.sites_apart;
  spaces_apart = (tt, tt);
  at_home = (refl, tt);
  euis_are_fit = (refl, tt);
}

deleted_sensor_is_lost_example :
    (assign_sensor
      (λ s. s)
      "p4"
      20
      eui
      acme
      (run_calls false
        (λ s. s)
        ((acme, post_space "p4" 9 bay_request) ∷ [])
        (delete_space "p1" 8 acme sensed_town).1)).0
    ≢ pass (space_view none (space_in "p4" "s1" acme (some eui) none))
unfolding delete_space change_space written store_space euis_fit null_or_eui is_eui all_upper_digits
deleted_sensor_is_lost_example =
    deleted_sensor_is_lost false (λ s. s) ((acme, post_space "p4" 9 bay_request) ∷ []) sensed_town
      "p1" "p4" eui acme acme 8 20 sensed
      (space_view none (space_in "p4" "s1" acme (some eui) none))
      (space_view none (mark_deleted 8 sensed)) sensed_town-IsSound refl refl refl

abbrev bay : ParkingSpace
bay = record (new_space "p4" 7 bay_request) { tenant_id = acme }

created_space_is_read_back_example :
    Shows bay_request "p4" acme 7 (space_view none bay)
    × ((u : SpaceView) × (get_space "p4" acme (create_space false "p4" 7 bay_request acme town).1
          ≡ pass u)
        × Shows bay_request "p4" acme 7 u)
unfolding create_space code_taken argument_fits inserted insert_space new_space euis_fit null_or_eui
    spaces_clash codes_clash sensors_clash displays_clash same_text
created_space_is_read_back_example =
    created_space_is_read_back false "p4" 7 bay_request acme town (space_view none bay) town-IsSound
      refl

-- The tables after all migrations.
abbrev migrated_town : Tables
migrated_town = record town { has_eui_trigger = true }

migrated_town-IsSound : IsSound migrated_town
migrated_town-IsSound = record {
  sites_apart = town-IsSound.sites_apart;
  spaces_apart = town-IsSound.spaces_apart;
  at_home = town-IsSound.at_home;
  euis_are_fit = town-IsSound.euis_are_fit;
}

eui_trigger_decides_deletion_example :
    ((delete_space "p2" 12 acme migrated_town).0 ≡ http_error 500)
    × (get_space "p2" acme (delete_space "p2" 12 acme migrated_town).1
        ≡ pass (
            space_view
              (site_name (space_in "p2" "s1" acme none none) migrated_town)
              (space_in "p2" "s1" acme none none)))
eui_trigger_decides_deletion_example =
    eui_trigger_decides_deletion "p2" acme 12 migrated_town (space_in "p2" "s1" acme none none)
      migrated_town-IsSound refl

-- A glob by which a pattern with a dash matches every text with one.
abbrev wide_glob : String → String → Bool
wide_glob p k = not (any dash (codes p)) || any dash (codes k)

wide_glob-TakesDashes : TakesDashes wide_glob
wide_glob-TakesDashes p k plain has hit = ground (arith, has, hit)

abbrev memory : CacheServer SpacesList wide_glob
memory = record {
  Store = ℕ → String → Option SpacesList;
  get = λ now k s. s now k;
  setex = λ now k ttl v s later j.
      if text_eq k j then if ltb later (now + ttl * 1000000) then some v else none else s later j;
  delete_pattern = λ p s now j. if wide_glob p j then none else s now j;
  get-setex = λ now later ttl k j v s order. refl;
  get-delete_pattern = λ now p j s. refl;
}

abbrev digest : String → ListFilters → String
digest t f = "d41d8cd98f00b204e9800998ecf8427e"

digest-IsHexDigest : IsHexDigest digest
unfolding all_hex
digest-IsHexDigest t f = refl

abbrev no_filters : ListFilters
no_filters = record {
  building = none;
  floor = none;
  zone = none;
  state = none;
  site_id = none;
  include_deleted = false;
}

abbrev reader : TenantContext
reader = record {
  tenant_id = acme;
  tenant_name = "Acme";
  tenant_slug = "acme";
  user_id = some "u1";
  user_role = some operator;
  api_key_id = none;
  api_key_scopes = none;
  source = jwt;
}

abbrev in_between : List (String × Call)
in_between =
    (acme, remove_space "0a000000-0000-4000-8000-0000000000f2" 8)
    ∷ (acme, post_space "p4" 9 bay_request)
    ∷ []

cached_list_outlives_calls_example :
    let after =
      serve_calls wide_glob memory false
        (λ s. s)
        in_between
        town
        (list_spaces digest wide_glob memory 7 reader no_filters town (λ _ _. none)).1 in
    (list_spaces digest wide_glob memory 30000000 reader no_filters after.0 after.1).0
    ≡ fetch_spaces (is_platform_admin reader) acme no_filters town
unfolding names_uuids uuid_chars
cached_list_outlives_calls_example =
    cached_list_outlives_calls digest wide_glob memory digest-IsHexDigest wide_glob-TakesDashes
      false (λ s. s) in_between reader reader no_filters 7 30000000 town (λ _ _. none) refl
      (refl, (refl, tt)) refl (omega arith) (omega arith)
