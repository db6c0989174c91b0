-- ===== src/Display/Examples.antt =====
-- The theorems on the display at concrete inputs.
use smart_parking_platform.Prelude.{
  ◌*◌, ℕ, String, List, [], ◌∷◌, Bool, true, false, Option, none, some, ◌≡◌, refl, All, map,
}
use smart_parking_platform.Display.Types
use smart_parking_platform.Display.Types.{
  PolicyRow, occupied, vacant, DisplayPolicy, SensorReading, DebounceState, DisplayCommand,
  OverrideRow, World, new_debounce_state, policy_with_defaults,
}
use smart_parking_platform.Display.Policy.{no_client}
use smart_parking_platform.Display.Compute.{sensor_rules, default_row, compute_display_state}
use smart_parking_platform.Display.Machine.{debounce}
use smart_parking_platform.Display.Stall.{Event, process_all, sensors_never_reach_the_display}
use smart_parking_platform.Display.Priority.{prescribed_level, compute_display_state-levels}

abbrev second : ℕ
second = 1000000

abbrev policy : DisplayPolicy
unfolding policy_with_defaults
policy = policy_with_defaults "p" "t" "P"

abbrev reading_at : ℕ → SensorReading
reading_at n = record { state = occupied; timestamp = n }

-- A space that was vacant for long.
abbrev was_vacant : DebounceState
was_vacant = record {
  space_id = "s";
  last_sensor_state = some vacant;
  last_sensor_timestamp = some 0;
  pending_sensor_state = none;
  pending_since = none;
  pending_count = 0;
  stable_sensor_state = some vacant;
  stable_since = some 0;
  last_display_state = none;
  last_display_color = none;
  last_display_blink = false;
}

abbrev first_pending : DebounceState
first_pending = record was_vacant {
  pending_sensor_state = some occupied;
  pending_since = some 100;
  pending_count = 1;
}

first_reading : debounce 100 policy occupied was_vacant ≡ some (false, first_pending)
unfolding debounce
first_reading = refl

abbrev empty_world : World
empty_world = record {
  debounce_rows = λ _. none;
  policies = [];
  overrides = [];
  reservations = [];
  spaces = [];
  policy_cache = λ _. none;
  policy_cache_time = λ _. none;
}

abbrev occupied_at : ℕ → Event
occupied_at n = record {
  now = n;
  reply = no_client;
  space = "s";
  tenant = "t";
  reading = reading_at n;
}

abbrev three_readings : List Event
three_readings = occupied_at 1 ∷ occupied_at second ∷ occupied_at (2 * second) ∷ []

sensors_never_reach_the_display_example :
    (results : List (Bool × Option DisplayCommand)) × (w' : World) × (process_all three_readings
        empty_world
      ≡ some (results, w'))
    × All (λ r. r ≡ (false, none)) results
    × ((now : ℕ) (p : DisplayPolicy) (space : String)
        → sensor_rules now p (w'.debounce_rows space) ≡ default_row p)
sensors_never_reach_the_display_example =
    sensors_never_reach_the_display three_readings empty_world (λ _. refl)

abbrev blocked_world : World
blocked_world = record empty_world {
  overrides =
      record {
        space_id = "s";
        override_type = Types.blocked;
        start_time = 3;
        end_time = some 9;
        is_active = true;
      }
      ∷ [];
}

compute_display_state-levels_example :
    map (λ c. c.priority_level) (compute_display_state 5 "s" "t" blocked_world)
    ≡ prescribed_level 5 "s" "t" blocked_world ∷ []
compute_display_state-levels_example = compute_display_state-levels 5 "s" "t" blocked_world

blocked_level : map (λ c. c.priority_level) (compute_display_state 5 "s" "t" blocked_world) ≡ 2 ∷ []
unfolding compute_display_state
blocked_level = refl
