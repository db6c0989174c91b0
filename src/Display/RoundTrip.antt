-- ===== src/Display/RoundTrip.antt =====
-- What a debounce state is after it has been written to its row and read again.
use smart_parking_platform.Prelude.{Option, none, some, ◌≡◌, refl}
use smart_parking_platform.Display.Types.{SensorState, occupied, vacant, unknown, DebounceState}
use smart_parking_platform.Display.Store.{read_state, write_state, load_row, save_row}

pub read_state-write_state : (o : Option SensorState) → read_state (write_state o) ≡ some o
unfolding read_state write_state
read_state-write_state none = refl
read_state-write_state (some occupied) = refl
read_state-write_state (some vacant) = refl
read_state-write_state (some unknown) = refl

pub load_row-save_row : (d : DebounceState) → load_row (save_row d) ≡ some d
unfolding load_row save_row
load_row-save_row d = simp read_state-write_state
