-- ===== src/Display/Machine.antt =====
-- Debouncing: `DisplayStateMachine.process_sensor_reading`.
use smart_parking_platform.Prelude.{
  ℕ, String, ◌+◌, ◌*◌, Bool, true, false, Option, none, some, leb, if◌then◌else◌,
}
use smart_parking_platform.Datetime.{naive, aware, time_between}
use smart_parking_platform.Display.Types.{
  SensorState, occupied, vacant, unknown, DisplayPolicy, SensorReading, DebounceState,
  DisplayCommand, World,
}
use smart_parking_platform.Display.Store.{bind, get_debounce_state, save_debounce_state}
use smart_parking_platform.Display.Policy.{VersionReply, get_display_policy}
use smart_parking_platform.Display.Compute.{second, compute_display_command}

-- `x == reading.state`, where `x` may be None
unfoldable pub is_state : Option SensorState → SensorState → Bool
is_state (some occupied) occupied = true
is_state (some vacant) vacant = true
is_state (some unknown) unknown = true
is_state _ _ = false

-- A second reading within the window.
unfoldable pub confirm : ℕ → SensorState → DebounceState → Bool × DebounceState
confirm now s d =
    if leb 2 (d.pending_count + 1)
    then (
      true,
      record d {
        stable_sensor_state = some s;
        stable_since = some now;
        pending_sensor_state = none;
        pending_since = none;
        pending_count = 0;
      },
    )
    else (false, record d { pending_count = d.pending_count + 1 })

unfoldable pub restart : ℕ → SensorState → DebounceState → DebounceState
restart now s d = record d {
  pending_sensor_state = some s;
  pending_since = some now;
  pending_count = 1;
}

-- `now - pending_since` raises a TypeError, here `none`, where `pending_since` is None, and where it
-- is a datetime, too: that of the row has a time zone, and `now` has none.
unfoldable pub same_pending : ℕ → ℕ → SensorState → DebounceState → Option (Bool × DebounceState)
unfolding confirm restart
same_pending now window s d = elim d.pending_since [
  | none ↦ none
  | some since ↦ elim (time_between (naive now) (aware since)) [
    | none ↦ none
    | some time_diff ↦
        if leb time_diff (window * second)
        then some (confirm now s d)
        else some (false, restart now s d)
  ]
]

-- The nested tests of the method.
unfoldable pub debounce :
    ℕ → DisplayPolicy → SensorState → DebounceState → Option (Bool × DebounceState)
unfolding is_state same_pending restart
debounce now p s d =
    if is_state d.last_sensor_state s
    then some (false, record d { pending_sensor_state = none; pending_count = 0 })
    else if is_state d.pending_sensor_state s
    then same_pending now p.debounce_window_sec s d
    else some (false, restart now s d)

-- `# Update last reading`
unfoldable pub update_last : SensorReading → DebounceState → DebounceState
update_last reading d = record d {
  last_sensor_state = some reading.state;
  last_sensor_timestamp = some reading.timestamp;
}

-- The end of the method: persist, and compute the display if the stable state changed.
unfoldable pub finish :
    ℕ
    → VersionReply
    → String
    → String
    → Bool
    → DebounceState
    → World
    → (Bool × Option DisplayCommand) × World
unfolding compute_display_command save_debounce_state
finish now reply space tenant changed d w =
    let saved = save_debounce_state d w in
    if changed
    then (let (command, w') = compute_display_command now reply space tenant saved in
        let shown = record d {
          last_display_state = some command.state;
          last_display_color = command.color;
          last_display_blink = command.blink;
        } in
        ((true, some command), save_debounce_state shown w'))
    else ((false, none), saved)

-- `process_sensor_reading`, with one reading of the clock; `none` is an exception.
unfoldable pub process_sensor_reading :
    ℕ
    → VersionReply
    → String
    → String
    → SensorReading
    → World
    → Option ((Bool × Option DisplayCommand) × World)
unfolding get_debounce_state get_display_policy debounce update_last finish
process_sensor_reading now reply space tenant reading w = bind (get_debounce_state space w) λ d.
    let (p, w') = get_display_policy now reply tenant w in
    bind (debounce now p reading.state d)
      λ (changed, d'). some (finish now reply space tenant changed (update_last reading d') w')
