-- ===== src/Display/Stall.antt =====
-- How the debouncing behaves over several readings.
use smart_parking_platform.Prelude.{
  ℕ, String, List, [], ◌∷◌, Bool, false, Option, none, some, ◌≡◌, refl, sym, ◌∙◌, subst, ◌⊎◌, inl,
  inr, All, Bool-cases, arith, text_eq, eq_iff, if◌then◌else◌,
}
use smart_parking_platform.Display.Types.{
  new_debounce_state, SensorState, DisplayPolicy, SensorReading, DebounceState, DebounceRow,
  DisplayCommand, World,
}
use smart_parking_platform.Display.Store.{bind, save_row, load_or_new, save_debounce_state}
use smart_parking_platform.Display.Policy.{VersionReply, get_display_policy}
use smart_parking_platform.Display.Compute.{sensor_rules, default_row}
use smart_parking_platform.Display.Machine.{
  is_state, restart, debounce, update_last, process_sensor_reading,
}
use smart_parking_platform.Display.RoundTrip.{load_row-save_row}

-- The pending state is absent or is that of the last reading.
abbrev pub IsSettled : DebounceState → Type 0
IsSettled d = (d.pending_sensor_state ≡ none) ⊎ (d.pending_sensor_state ≡ d.last_sensor_state)

-- What a settled state becomes.
pub settle : ℕ → SensorState → DebounceState → DebounceState
unfolding restart is_state
settle now s d =
    if is_state d.last_sensor_state s
    then record d { pending_sensor_state = none; pending_count = 0 }
    else restart now s d

pub debounce-settled :
    (now : ℕ) (p : DisplayPolicy) (s : SensorState) (d : DebounceState)
    → IsSettled d
    → debounce now p s d ≡ some (false, settle now s d)
unfolding debounce settle
debounce-settled now p s d h = ground arith

pub update_last-IsSettled :
    (now : ℕ) (p : DisplayPolicy) (reading : SensorReading) (d d' : DebounceState) (b : Bool)
    → debounce now p reading.state d ≡ some (b, d')
    → IsSettled (update_last reading d')
unfolding debounce update_last
update_last-IsSettled now p reading d d' b h = ground arith

-- Whatever state a first reading meets, if it is processed at all, then the reading that follows
-- it, with any value, at any time and under any policy, is processed, confirms nothing and leaves
-- the stable state as it was.
following_reading_never_confirms :
    (now later : ℕ) (p q : DisplayPolicy) (first next : SensorReading) (d d' : DebounceState)
    (b : Bool)
    → debounce now p first.state d ≡ some (b, d')
    → (d'' : DebounceState) × (debounce later q next.state (update_last first d')
        ≡ some (false, d''))
      × (d''.stable_sensor_state ≡ d'.stable_sensor_state)
      × (d''.stable_since ≡ d'.stable_since)
following_reading_never_confirms now later p q first next d d' b h = (
  settle later next.state (update_last first d'),
  debounce-settled later q next.state (update_last first d')
      (update_last-IsSettled now p first d d' b h),
  unfold settle update_last in ground arith,
  unfold settle update_last in ground arith,
)

-- A state that was never confirmed, of the space that it is stored for.
pub record IsIdle (space : String) (d : DebounceState) : Type 0 where
  pub owner : d.space_id ≡ space
  pub settled : IsSettled d
  pub no_stable : d.stable_sensor_state ≡ none
  pub no_since : d.stable_since ≡ none
  pub no_display : d.last_display_state ≡ none

abbrev pub RowIsIdle : String → Option DebounceRow → Type 0
RowIsIdle space none = Unit
RowIsIdle space (some row) = (d : DebounceState) × (row ≡ save_row d) × IsIdle space d

-- Every row of the debounce table is one.
abbrev pub WorldIsIdle : World → Type 0
WorldIsIdle w = (space : String) → RowIsIdle space (w.debounce_rows space)

load_or_new-IsIdle :
    (space : String) (o : Option DebounceRow)
    → RowIsIdle space o
    → (d : DebounceState) × (load_or_new space o ≡ some d) × IsIdle space d
unfolding load_or_new
load_or_new-IsIdle space none h = (
  new_debounce_state space,
  refl,
  unfold new_debounce_state in
      record {
        owner = refl;
        settled = inl refl;
        no_stable = refl;
        no_since = refl;
        no_display = refl;
      },
)
load_or_new-IsIdle space (some row) h = (h.0, rw h.1 (load_row-save_row h.0), h.2)

settle-IsIdle :
    (now : ℕ) (space : String) (reading : SensorReading) (d : DebounceState)
    → IsIdle space d
    → IsIdle space (update_last reading (settle now reading.state d))
unfolding settle update_last
settle-IsIdle now space reading d h = ground arith

save-WorldIsIdle :
    (space : String) (d : DebounceState) (w : World)
    → IsIdle space d
    → WorldIsIdle w
    → WorldIsIdle (save_debounce_state d w)
unfolding save_debounce_state
save-WorldIsIdle space d w h idle other = elim (Bool-cases (text_eq d.space_id other)) [
  | inl same ↦
      rw same (d, refl, subst (λ s. IsIdle s d) (sym h.owner ∙ (eq_iff d.space_id other).0 same) h)
  | inr differs ↦ rw differs (idle other)
]

debounce_rows-get_display_policy :
    (now : ℕ) (reply : VersionReply) (tenant : String) (w : World)
    → (get_display_policy now reply tenant w).1.debounce_rows ≡ w.debounce_rows
unfolding get_display_policy
debounce_rows-get_display_policy now reply tenant w = ground arith

policy-WorldIsIdle :
    (now : ℕ) (reply : VersionReply) (tenant : String) (w : World)
    → WorldIsIdle w
    → WorldIsIdle (get_display_policy now reply tenant w).1
policy-WorldIsIdle now reply tenant w h = λ space. rw debounce_rows-get_display_policy (h space)

-- The world after a reading of an idle world.
process-idle :
    (now : ℕ) (reply : VersionReply) (space tenant : String) (reading : SensorReading) (w : World)
    → WorldIsIdle w
    → (w' : World) × (process_sensor_reading now reply space tenant reading w
        ≡ some ((false, none), w'))
      × WorldIsIdle w'
unfolding process_sensor_reading
process-idle now reply space tenant reading w h =
    let (d, loaded, good) = load_or_new-IsIdle space (w.debounce_rows space) (h space) in
    let w' = (get_display_policy now reply tenant w).1 in
    let d' = update_last reading (settle now reading.state d) in
    (
      save_debounce_state d' w',
      rw loaded (
          rw
            (debounce-settled now (get_display_policy now reply tenant w).0 reading.state d
              good.settled)
            refl),
      save-WorldIsIdle space d' w' (settle-IsIdle now space reading d good)
          (policy-WorldIsIdle now reply tenant w h),
    )

-- A reading and the circumstances of its processing.
pub record Event : Type 0 where
  pub now : ℕ
  pub reply : VersionReply
  pub space : String
  pub tenant : String
  pub reading : SensorReading

-- The calls for a sequence of readings, in order: their results, and the world after them; `none`
-- if a call raises.
unfoldable pub process_all :
    List Event → World → Option (List (Bool × Option DisplayCommand) × World)
process_all [] w = some ([], w)
process_all (e ∷ es) w =
    bind (process_sensor_reading e.now e.reply e.space e.tenant e.reading w)
      λ (result, w'). bind (process_all es w') λ (results, w''). some (result ∷ results, w'')

process_all-idle :
    (es : List Event) (w : World)
    → WorldIsIdle w
    → (results : List (Bool × Option DisplayCommand)) × (w' : World) × (process_all es w
        ≡ some (results, w'))
      × All (λ r. r ≡ (false, none)) results
      × WorldIsIdle w'
unfolding process_all
process_all-idle [] w h = ([], w, refl, tt, h)
process_all-idle (e ∷ es) w h =
    let (w', done, idle) = process-idle e.now e.reply e.space e.tenant e.reading w h in
    let (results, w'', ran, quiet, idle') = process_all-idle es w' idle in
    ((false, none) ∷ results, w'', rw (done, ran), (refl, quiet), idle')

sensor_rules-idle :
    (now : ℕ) (p : DisplayPolicy) (space : String) (o : Option DebounceRow)
    → RowIsIdle space o
    → sensor_rules now p o ≡ default_row p
unfolding sensor_rules save_row
sensor_rules-idle now p space none h = refl
sensor_rules-idle now p space (some row) h = rw (h.1, h.2.no_since, h.2.no_display)

-- From an empty debounce table, whatever readings arrive for whatever spaces, times and tenants:
-- no call raises, every call reports that nothing changed and returns no command, and afterwards
-- the sensor rules of the display computation (5 to 7) give the default row for every space, under
-- every policy and at every time.
pub sensors_never_reach_the_display :
    (es : List Event) (w : World)
    → ((space : String) → w.debounce_rows space ≡ none)
    → (results : List (Bool × Option DisplayCommand)) × (w' : World) × (process_all es w
        ≡ some (results, w'))
      × All (λ r. r ≡ (false, none)) results
      × ((now : ℕ) (p : DisplayPolicy) (space : String)
          → sensor_rules now p (w'.debounce_rows space) ≡ default_row p)
sensors_never_reach_the_display es w empty =
    let (results, w', ran, quiet, idle) = process_all-idle es w (λ space. rw (empty space) tt) in
    (
      results,
      w',
      ran,
      quiet,
      λ now p space. sensor_rules-idle now p space (w'.debounce_rows space) (idle space),
    )
