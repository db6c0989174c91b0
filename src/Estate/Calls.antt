-- ===== src/Estate/Calls.antt =====
-- Requests to the two routers, as steps on the tables.
use smart_parking_platform.Prelude.{ℕ, String, List, [], ◌∷◌, Bool}
use smart_parking_platform.Estate.Types.{Tables, SiteCreate, SiteUpdate, SpaceCreate, SpaceUpdate}
use smart_parking_platform.Estate.Sites.{create_site, update_site, delete_site}
use smart_parking_platform.Estate.Spaces.{
  create_space, update_space, delete_space, assign_sensor, assign_display, unassign_sensor,
  unassign_display,
}

-- The arguments of the handlers, the tenant left out: new ids and times come first.
pub data Call : Type 0 where
  post_site : String → ℕ → SiteCreate → Call
  patch_site : String → ℕ → SiteUpdate → Call
  remove_site : String → ℕ → Bool → Call
  post_space : String → ℕ → SpaceCreate → Call
  patch_space : String → ℕ → SpaceUpdate → Call
  remove_space : String → ℕ → Call
  put_sensor : String → ℕ → String → Call
  put_display : String → ℕ → String → Call
  take_sensor : String → ℕ → Call
  take_display : String → ℕ → Call

-- The driver and str.upper, which are not the repository's code.
module _ (json_codec : Bool) (upper : String → String) where
  unfoldable pub run_call : String → Call → Tables → Tables
  run_call tenant (post_site new_id now q) db = (create_site json_codec new_id now q tenant db).1
  run_call tenant (patch_site id now u) db = (update_site json_codec id now u tenant db).1
  run_call tenant (remove_site id now force) db = (delete_site id now force tenant db).1
  run_call tenant (post_space new_id now q) db = (create_space json_codec new_id now q tenant db).1
  run_call tenant (patch_space id now u) db = (update_space json_codec id now u tenant db).1
  run_call tenant (remove_space id now) db = (delete_space id now tenant db).1
  run_call tenant (put_sensor id now eui) db = (assign_sensor upper id now eui tenant db).1
  run_call tenant (put_display id now eui) db = (assign_display upper id now eui tenant db).1
  run_call tenant (take_sensor id now) db = (unassign_sensor id now tenant db).1
  run_call tenant (take_display id now) db = (unassign_display id now tenant db).1

  -- Calls of any tenants, one after the other.
  unfoldable pub run_calls : List (String × Call) → Tables → Tables
  run_calls [] db = db
  run_calls (c ∷ cs) db = run_calls cs (run_call c.0 c.1 db)
