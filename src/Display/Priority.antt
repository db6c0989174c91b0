-- ===== src/Display/Priority.antt =====
-- The order of the rules of `compute_display_state`.
use smart_parking_platform.Prelude.{
  ℕ, String, List, [], ◌∷◌, Bool, false, ◌||◌, ◌&&◌, Option, none, some, ◌≡◌, refl, map, any, keep,
  is_some, first-any, arith, text_eq, if◌then◌else◌,
}
use smart_parking_platform.Display.Types
use smart_parking_platform.Display.Types.{
  DisplayPolicy, DisplayCommand, DebounceRow, ReservationRow, World,
}
use smart_parking_platform.Display.Compute.{
  override_holds, reserved_now, reserved_soon, earliest, sql_policy, is_fresh, sensor_rules,
  compute_display_state,
}

-- Whether each rule applies, read off the tables.
module _ (now : ℕ) (space tenant : String) (w : World) where
  abbrev pub out_of_service_applies : Bool
  out_of_service_applies = any (override_holds now space Types.out_of_service) w.overrides

  abbrev pub blocked_applies : Bool
  blocked_applies = any (override_holds now space Types.blocked) w.overrides

  abbrev pub reserved_now_applies : Bool
  reserved_now_applies = any (reserved_now now space) w.reservations

  abbrev pub reserved_soon_applies : Bool
  reserved_soon_applies =
      any (reserved_soon (sql_policy tenant w).reserved_soon_threshold_sec now space) w.reservations

  -- A fresh stable state, occupied or vacant.
  abbrev pub sensor_decides : Option DebounceRow → Bool
  sensor_decides none = false
  sensor_decides (some row) =
      is_fresh now (sql_policy tenant w).sensor_unknown_timeout_sec row.stable_since
      && elim row.stable_sensor_state [
        | none ↦ false
        | some t ↦ text_eq t "occupied" || text_eq t "vacant"
      ]

  abbrev pub display_held : Option DebounceRow → Bool
  display_held none = false
  display_held (some row) = is_some row.last_display_state

  -- The level that the rules prescribe: that of the first one that applies.
  abbrev pub prescribed_level : ℕ
  prescribed_level =
      if out_of_service_applies
      then 1
      else if blocked_applies
      then 2
      else if reserved_now_applies
      then 3
      else if reserved_soon_applies
      then 4
      else if sensor_decides (w.debounce_rows space)
      then 5
      else if display_held (w.debounce_rows space)
      then 6
      else 7

earliest-keep :
    (p : ReservationRow → Bool) (rs : List ReservationRow)
    → is_some (earliest (keep p rs)) ≡ any p rs
unfolding earliest
earliest-keep p [] = refl
earliest-keep p (r ∷ rs) = ground (arith, earliest-keep p rs)

sensor_rules-level :
    (now : ℕ) (space tenant : String) (w : World) (o : Option DebounceRow)
    → (sensor_rules now (sql_policy tenant w) o).priority_level ≡ (
        if sensor_decides now space tenant w o
        then 5
        else if display_held now space tenant w o
        then 6
        else 7)
unfolding sensor_rules
sensor_rules-level now space tenant w o = ground arith

-- The function returns exactly one row, and its level is that of the first rule, in the documented
-- order, that applies to the tables.
pub compute_display_state-levels :
    (now : ℕ) (space tenant : String) (w : World)
    → map (λ c. c.priority_level) (compute_display_state now space tenant w)
      ≡ prescribed_level now space tenant w ∷ []
unfolding compute_display_state
compute_display_state-levels now space tenant w = ground (
  arith,
  first-any (override_holds now space Types.out_of_service) w.overrides,
  first-any (override_holds now space Types.blocked) w.overrides,
  earliest-keep (reserved_now now space) w.reservations,
  earliest-keep (reserved_soon (sql_policy tenant w).reserved_soon_threshold_sec now space)
      w.reservations,
  sensor_rules-level now space tenant w (w.debounce_rows space),
)
