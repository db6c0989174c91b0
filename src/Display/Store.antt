-- ===== src/Display/Store.antt =====
-- Loading and saving of debounce states: `_get_debounce_state` and `_save_debounce_state`.
use smart_parking_platform.Prelude.{ℕ, String, Option, none, some, text_eq, truthy, if◌then◌else◌}
use smart_parking_platform.Display.Types.{
  SensorState, occupied, vacant, unknown, DebounceState, DebounceRow, World, new_debounce_state,
}

-- The value of the enumeration, the text that is stored.
unfoldable pub value : SensorState → String
value occupied = "occupied"
value vacant = "vacant"
value unknown = "unknown"

-- `SensorState(text)`; `none` is the ValueError of a text that is no value.
unfoldable pub from_value : String → Option SensorState
from_value t =
    if text_eq t "occupied"
    then some occupied
    else if text_eq t "vacant"
    then some vacant
    else if text_eq t "unknown"
    then some unknown
    else none

abbrev pub bind {ℓ κ} : {A : Type ℓ} {B : Type κ} → Option A → (A → Option B) → Option B
bind none f = none
bind (some a) f = f a

-- `SensorState(x) if x else None`
unfoldable pub read_state : Option String → Option (Option SensorState)
unfolding from_value
read_state none = some none
read_state (some t) = if truthy t then bind (from_value t) (λ s. some (some s)) else some none

-- `state.value if state else None`
unfoldable pub write_state : Option SensorState → Option String
unfolding value
write_state none = none
write_state (some s) = some (value s)

abbrev or_zero : Option ℕ → ℕ
or_zero none = 0
or_zero (some n) = n

-- A row as a state; `none` is a ValueError.
unfoldable pub load_row : DebounceRow → Option DebounceState
unfolding read_state
load_row row = bind (read_state row.last_sensor_state) λ last.
    bind (read_state row.pending_sensor_state) λ waiting.
      bind (read_state row.stable_sensor_state) λ stable. some (record {
        space_id = row.space_id;
        last_sensor_state = last;
        last_sensor_timestamp = row.last_sensor_timestamp;
        pending_sensor_state = waiting;
        pending_since = row.pending_since;
        pending_count = or_zero row.pending_count;
        stable_sensor_state = stable;
        stable_since = row.stable_since;
        last_display_state = row.last_display_state;
        last_display_color = row.last_display_color;
        last_display_blink = row.last_display_blink;
      })

unfoldable pub load_or_new : String → Option DebounceRow → Option DebounceState
unfolding load_row new_debounce_state
load_or_new space none = some (new_debounce_state space)
load_or_new space (some row) = load_row row

-- `_get_debounce_state`
unfoldable pub get_debounce_state : String → World → Option DebounceState
unfolding load_or_new
get_debounce_state space w = load_or_new space (w.debounce_rows space)

unfoldable pub save_row : DebounceState → DebounceRow
unfolding write_state
save_row d = record {
  space_id = d.space_id;
  last_sensor_state = write_state d.last_sensor_state;
  last_sensor_timestamp = d.last_sensor_timestamp;
  pending_sensor_state = write_state d.pending_sensor_state;
  pending_since = d.pending_since;
  pending_count = some d.pending_count;
  stable_sensor_state = write_state d.stable_sensor_state;
  stable_since = d.stable_since;
  last_display_state = d.last_display_state;
  last_display_color = d.last_display_color;
  last_display_blink = d.last_display_blink;
}

-- `_save_debounce_state`: the upsert on `space_id`. The foreign key to spaces is left out, so that the
-- space is taken to be there; the times come back as the instants that they were.
unfoldable pub save_debounce_state : DebounceState → World → World
unfolding save_row
save_debounce_state d w = record w {
  debounce_rows =
      λ space. if text_eq d.space_id space then some (save_row d) else w.debounce_rows space;
}
