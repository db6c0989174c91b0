-- ===== src/Display/Compute.antt =====
-- The SQL function `compute_display_state` of migrations/006_display_state_machine.sql, statement
-- by statement, and the methods that call it.
use smart_parking_platform.Prelude.{
  ℕ, String, List, [], ◌∷◌, ◌+◌, ◌-◌, ◌*◌, Bool, true, false, ◌&&◌, Option, none, some, first, keep,
  ltb, leb, text_eq, if◌then◌else◌,
}
use smart_parking_platform.Display.Types
use smart_parking_platform.Display.Types.{
  SensorState, AdminOverrideType, ReservationStatus, DisplayPolicy, DebounceRow, DisplayCommand,
  OverrideRow, ReservationRow, SpaceRow, World, override_out_of_service, override_blocked,
  active_reservation, starts_in, sensor_occupied, sensor_vacant, holding, no_sensor_data,
  fallback_no_data, policy_with_defaults,
}
use smart_parking_platform.Display.Policy.{VersionReply, active_policy, get_display_policy}

abbrev pub second : ℕ
second = 1000000

unfoldable pub same_override : AdminOverrideType → AdminOverrideType → Bool
same_override Types.blocked Types.blocked = true
same_override Types.out_of_service Types.out_of_service = true
same_override _ _ = false

-- (end_time IS NULL OR end_time > v_now)
unfoldable pub still_open : ℕ → Option ℕ → Bool
still_open now none = true
still_open now (some t) = ltb now t

-- The WHERE clause of the two override queries.
unfoldable pub override_holds : ℕ → String → AdminOverrideType → OverrideRow → Bool
unfolding same_override still_open
override_holds now space kind o =
    text_eq o.space_id space
    && (o.is_active
        && (same_override o.override_type kind
            && (leb o.start_time now && still_open now o.end_time)))

-- status IN ('pending', 'confirmed')
unfoldable pub is_live : ReservationStatus → Bool
is_live Types.pending = true
is_live Types.confirmed = true
is_live _ = false

unfoldable pub reserved_now : ℕ → String → ReservationRow → Bool
unfolding is_live
reserved_now now space r =
    text_eq r.space_id space && (is_live r.status && (leb r.start_time now && ltb now r.end_time))

unfoldable pub reserved_soon : ℕ → ℕ → String → ReservationRow → Bool
unfolding is_live
reserved_soon threshold now space r =
    text_eq r.space_id space
    && (is_live r.status && (ltb now r.start_time && leb r.start_time (now + threshold * second)))

-- ORDER BY start_time ASC LIMIT 1
unfoldable pub earliest : List ReservationRow → Option ReservationRow
earliest [] = none
earliest (r ∷ rs) = elim (earliest rs) [
  | none ↦ some r
  | some q ↦ if leb r.start_time q.start_time then some r else some q
]

-- The policy of the function: the active one, or the literal row.
unfoldable pub sql_policy : String → World → DisplayPolicy
unfolding active_policy policy_with_defaults
sql_policy tenant w = elim (active_policy tenant w.policies) [
  | none ↦ policy_with_defaults "" tenant "default"
  | some p ↦ p
]

-- v_now - v_sensor.stable_since <= timeout; false where stable_since is NULL
unfoldable pub is_fresh : ℕ → ℕ → Option ℕ → Bool
is_fresh now timeout none = false
is_fresh now timeout (some since) = leb (now - since) (timeout * second)

unfoldable pub default_row : DisplayPolicy → DisplayCommand
default_row p = record {
  state = "FREE";
  color = some p.free_color;
  blink = false;
  priority_level = 7;
  reason = no_sensor_data;
}

-- Rules 6 and 7, for a sensor row that decided nothing.
unfoldable pub hold_row : DisplayPolicy → DebounceRow → DisplayCommand
unfolding default_row
hold_row p row = elim row.last_display_state [
  | none ↦ default_row p
  | some shown ↦ record {
    state = shown;
    color = row.last_display_color;
    blink = row.last_display_blink;
    priority_level = 6;
    reason = holding p.sensor_unknown_timeout_sec;
  }
]

-- The stable state of a fresh row; a text other than the two decides nothing.
unfoldable pub fresh_row : DisplayPolicy → DebounceRow → Option String → DisplayCommand
unfolding hold_row
fresh_row p row none = hold_row p row
fresh_row p row (some t) =
    if text_eq t "occupied"
    then record {
      state = "OCCUPIED";
      color = some p.occupied_color;
      blink = false;
      priority_level = 5;
      reason = sensor_occupied;
    }
    else if text_eq t "vacant"
    then record {
      state = "FREE";
      color = some p.free_color;
      blink = false;
      priority_level = 5;
      reason = sensor_vacant;
    }
    else hold_row p row

-- Rules 5 to 7.
unfoldable pub sensor_rules : ℕ → DisplayPolicy → Option DebounceRow → DisplayCommand
unfolding is_fresh fresh_row default_row
sensor_rules now p none = default_row p
sensor_rules now p (some row) =
    if is_fresh now p.sensor_unknown_timeout_sec row.stable_since
    then fresh_row p row row.stable_sensor_state
    else hold_row p row

unfoldable pub maintenance : String → ℕ → Types.Reason → DisplayCommand
maintenance c level why = record {
  state = "MAINTENANCE";
  color = some c;
  blink = false;
  priority_level = level;
  reason = why;
}

unfoldable pub reserved : String → Bool → ℕ → Types.Reason → DisplayCommand
reserved c b level why = record {
  state = "RESERVED";
  color = some c;
  blink = b;
  priority_level = level;
  reason = why;
}

-- Rules 3 to 7.
unfoldable pub reservation_rules : ℕ → String → DisplayPolicy → World → DisplayCommand
unfolding reserved_now reserved_soon reserved sensor_rules
reservation_rules now space p w = elim (earliest (keep (reserved_now now space) w.reservations)) [
  | some r ↦ reserved p.reserved_color false 3 active_reservation
  | none ↦
      elim (earliest
        (keep (reserved_soon p.reserved_soon_threshold_sec now space) w.reservations)) [
          | some r ↦
              reserved p.reserved_soon_color p.blink_reserved_soon 4
                (starts_in (r.start_time - now))
          | none ↦ sensor_rules now p (w.debounce_rows space)
        ]
]

-- The function: one row, by the first rule that applies.
unfoldable pub compute_display_state : ℕ → String → String → World → List DisplayCommand
unfolding override_holds sql_policy maintenance reservation_rules
compute_display_state now space tenant w =
    let p = sql_policy tenant w in
    elim (first (override_holds now space Types.out_of_service) w.overrides) [
      | some o ↦ maintenance p.out_of_service_color 1 override_out_of_service ∷ []
      | none ↦ elim (first (override_holds now space Types.blocked) w.overrides) [
        | some o ↦ maintenance p.blocked_color 2 override_blocked ∷ []
        | none ↦ reservation_rules now space p w ∷ []
      ]
    ]

-- `compute_display_command`: the first row, or the fallback.
unfoldable pub compute_display_command :
    ℕ → VersionReply → String → String → World → DisplayCommand × World
unfolding compute_display_state get_display_policy
compute_display_command now reply space tenant w = elim (compute_display_state now space tenant w) [
  | c ∷ _ ↦ (c, w)
  | [] ↦
      let (p, w') = get_display_policy now reply tenant w in
      (
        record {
          state = "FREE";
          color = some p.free_color;
          blink = false;
          priority_level = 7;
          reason = fallback_no_data;
        },
        w',
      )
]

-- SELECT id FROM spaces WHERE tenant_id = $1 AND deleted_at IS NULL
unfoldable pub live_space : String → SpaceRow → Bool
live_space tenant s =
    text_eq s.tenant_id tenant && elim s.deleted_at [ none ↦ true | some _ ↦ false ]

-- The loop of `force_recompute_all_spaces`; a space fails where the query raises, which `fails`
-- says. The computed commands are only logged.
unfoldable pub recompute_loop :
    ℕ → VersionReply → String → (String → Bool) → List SpaceRow → ℕ → World → ℕ × World
unfolding compute_display_command
recompute_loop now reply tenant fails [] recomputed w = (recomputed, w)
recompute_loop now reply tenant fails (s ∷ rest) recomputed w =
    let w' = if fails s.id then w else (compute_display_command now reply s.id tenant w).1 in
    recompute_loop now reply tenant fails rest (if fails s.id then recomputed else recomputed + 1)
      w'

unfoldable pub force_recompute_all_spaces :
    ℕ → VersionReply → String → (String → Bool) → World → ℕ × World
unfolding live_space recompute_loop
force_recompute_all_spaces now reply tenant fails w =
    recompute_loop now reply tenant fails (keep (live_space tenant) w.spaces) 0 w
