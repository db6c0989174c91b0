-- ===== src/Policies/Examples.antt =====
-- The theorems on policies and overrides at concrete inputs.
use smart_parking_platform.Prelude.{◌≤◌, [], ◌∷◌, none, some, true, false, ◌≡◌, refl, arith}
use smart_parking_platform.Access.Types.{pass, http_error}
use smart_parking_platform.Display.Types
use smart_parking_platform.Display.Types.{DisplayCommand, World}
use smart_parking_platform.Display.Policy.{no_client}
use smart_parking_platform.Display.Compute.{still_open}
use smart_parking_platform.Policies.Types.{
  PolicyTables, DisplayPolicyCreate, DisplayPolicyUpdate, AdminOverrideCreate, PolicyCreated,
  OverrideCreated,
}
use smart_parking_platform.Policies.Endpoints.{
  Setup, create_display_policy, insert_policy, new_policy,
}
use smart_parking_platform.Policies.Changes.{
  create_admin_override, get_computed_display_state, start_or_now,
}
use smart_parking_platform.Policies.Calls.{
  post_policy, patch_policy, post_override, remove_override, run_calls,
}
use smart_parking_platform.Policies.Replace.{created_policy_is_never_replaced}
use smart_parking_platform.Policies.Governs.{spares}
use smart_parking_platform.Policies.Overrides.{override_decides_the_display}

abbrev setup : Setup
setup = record { has_machine = true; has_redis = true; reply = no_client; fails = λ _. false }

abbrev lot : World
lot = record {
  debounce_rows = λ _. none;
  policies = [];
  overrides = [];
  reservations = [];
  spaces = record { id = "s"; tenant_id = "t"; deleted_at = none } ∷ [];
  policy_cache = λ _. none;
  policy_cache_time = λ _. none;
}

abbrev tables : PolicyTables
tables = record {
  tenants = "t" ∷ [];
  policies = [];
  overrides = [];
  versions = λ _. 0;
  machine = lot;
}

abbrev request : DisplayPolicyCreate
request = record {
  name = "Night";
  description = none;
  reserved_soon_threshold_sec = 600;
  sensor_unknown_timeout_sec = 60;
  debounce_window_sec = 10;
  occupied_color = "FF0000";
  free_color = "00FF00";
  reserved_color = "FFA500";
  reserved_soon_color = "FFFF00";
  blocked_color = "808080";
  out_of_service_color = "800080";
  blink_reserved_soon = true;
  blink_pattern_ms = 500;
  allow_sensor_override = true;
}

abbrev renamed : DisplayPolicyUpdate
renamed = record {
  name = some "Day";
  description = none;
  reserved_soon_threshold_sec = none;
  sensor_unknown_timeout_sec = none;
  debounce_window_sec = none;
  occupied_color = none;
  free_color = none;
  reserved_color = none;
  reserved_soon_color = none;
  blocked_color = none;
  out_of_service_color = none;
  blink_reserved_soon = none;
  blink_pattern_ms = none;
  allow_sensor_override = none;
}

abbrev closed : AdminOverrideCreate
closed = record {
  space_id = "s";
  override_type = Types.blocked;
  start_time = none;
  end_time = some 1000;
  reason = some "works";
  notes = none;
}

abbrev made : PolicyCreated
made = record { id = "p1"; tenant_id = "t"; name = "Night"; created_at = 5 }

created_policy_is_never_replaced_example :
    let db' =
      run_calls setup
        (patch_policy "p1" 6 renamed ∷ post_override "o1" 7 closed ∷ [])
        (create_display_policy setup "p1" 5 request "t" tables).1 in
    create_display_policy setup "p2" 8 request "t" db' ≡ (http_error 500, db')
unfolding create_display_policy insert_policy new_policy
created_policy_is_never_replaced_example =
    created_policy_is_never_replaced setup "p1" "p2" 5 8 request request "t" tables made
      (patch_policy "p1" 6 renamed ∷ post_override "o1" 7 closed ∷ []) refl

abbrev override_answer : OverrideCreated
override_answer = record {
  id = "o1";
  space_id = "s";
  override_type = Types.blocked;
  created_at = 7;
}

override_decides_the_display_example :
    (c : DisplayCommand) × (get_computed_display_state 900 "s" (
        run_calls setup
          (post_policy "p1" 8 request "t" ∷ remove_override "o2" ∷ [])
          (create_admin_override setup "o1" 7 closed tables).1)
      ≡ pass (c ∷ []))
    × (c.priority_level ≤ 2)
    × (c.state ≡ "MAINTENANCE")
unfolding create_admin_override start_or_now still_open spares
override_decides_the_display_example =
    override_decides_the_display setup "o1" 7 900 closed tables override_answer
      (post_policy "p1" 8 request "t" ∷ remove_override "o2" ∷ []) refl (omega arith) refl
      (refl, (refl, tt))
