-- ===== src/Spaces/Manager.antt =====
-- `update_space_state`, with the lock and the display.
use smart_parking_platform.Prelude.{
  ℕ, String, List, [], ◌∷◌, ◌++◌, Option, none, some, Bool, true, false, ◌&&◌, ◌||◌, text_eq,
  text_append, first, any, rewrite, if◌then◌else◌,
}
use smart_parking_platform.Downlink.Types.{QueueRedis}
use smart_parking_platform.Downlink.Worker.{Downlink}
use smart_parking_platform.Spaces.Types.{
  SpaceState, free, occupied, reserved, maintenance, same_state, Space, Update, returned,
  invalid_transition, lock_taken, given,
}
use smart_parking_platform.Spaces.Lock.{Lease, acquire_lock}
use smart_parking_platform.Spaces.Display.{
  World, Reading, Trigger, Delivery, DirectAnswer, update_display, id_text,
}

-- VALID_TRANSITIONS
unfoldable pub valid_transitions : SpaceState → List SpaceState
valid_transitions free = occupied ∷ reserved ∷ maintenance ∷ []
valid_transitions occupied = free ∷ maintenance ∷ []
valid_transitions reserved = occupied ∷ free ∷ maintenance ∷ []
valid_transitions maintenance = free ∷ []

-- `is_valid_transition`
unfoldable pub is_valid_transition : SpaceState → SpaceState → String → Bool
is_valid_transition current new source =
    if text_eq source "manual" then true else any (same_state new) (valid_transitions current)

-- `get_space`: SELECT * FROM spaces WHERE id = $1 AND deleted_at IS NULL
unfoldable pub is_live_space : String → Space → Bool
is_live_space id s = text_eq s.id id && elim s.deleted_at [ none ↦ true | some _ ↦ false ]

-- The keys that `invalidate_cache` deletes.
unfoldable pub is_cached_key : String → String → Bool
is_cached_key id key =
    text_eq key (text_append "space:" id)
    || (text_eq key (text_append "space:" (text_append id ":state")) || text_eq key "spaces:all")

module _ (R : QueueRedis) where
  unfoldable pub get_space : String → World R → Option Space
  get_space id w = first (is_live_space id) w.spaces

  unfoldable pub invalidate_cache : String → World R → World R
  invalidate_cache id w = record w {
    cache = λ key. if is_cached_key id key then none else w.cache key;
  }

  -- UPDATE spaces SET state = $1, updated_at = NOW() WHERE id = $2
  unfoldable pub set_state : String → SpaceState → ℕ → World R → World R
  set_state id new now w = record w {
    spaces =
        rewrite (λ s. text_eq s.id id) (λ s. record s { state = new; updated_at = now }) w.spaces;
  }

  -- INSERT INTO state_changes
  unfoldable pub record_change :
      String → SpaceState → SpaceState → String → String → ℕ → World R → World R
  record_change id current new source request now w = record w {
    changes =
        w.changes
        ++ record {
          space_id = id;
          previous_state = current;
          new_state = new;
          source = source;
          request_id = request;
          timestamp = now;
        }
          ∷ [];
  }

  module _ (content_hash : String → String → ℕ → String) (chirpstack : Downlink → DirectAnswer)
      (no_tenant : String) (mode : Delivery) where
    abbrev pub trigger_of : String → Space → SpaceState → String → String → Trigger
    trigger_of id s new source request = record {
      space_id = id;
      display_eui = id_text s.display_eui;
      previous_state = s.state;
      new_state = new;
      trigger_type = source;
      trigger_source = request;
    }

    -- `if space.display_eui`
    unfoldable pub show :
        Reading → String → Space → SpaceState → String → String → World R → Bool × World R
    show t id s new source request w =
        let shown =
          update_display R content_hash chirpstack no_tenant mode t
            (trigger_of id s new source request) w in
        if given s.display_eui then shown else (false, w)

    unfoldable pub result_of : SpaceState → SpaceState → Bool → Update
    result_of current new display_updated = returned (record {
      success = true;
      previous_state = some current;
      new_state = new;
      display_updated = display_updated;
      error = none;
    })

    -- A valid change: the row, the log, the cache, the display.
    unfoldable pub change_state :
        Reading → String → Space → SpaceState → String → String → World R → Update × World R
    change_state t id s new source request w =
        let w' =
          invalidate_cache id (
            record_change id s.state new source request t.started (set_state id new t.started w)) in
        let (shown, w'') = show t id s new source request w' in (result_of s.state new shown, w'')

    -- What happens to a space that is there.
    unfoldable pub update_found :
        Reading → String → Space → SpaceState → String → String → World R → Update × World R
    update_found t id s new source request w =
        if same_state s.state new
        then (result_of s.state new false, w)
        else if is_valid_transition s.state new source
        then change_state t id s new source request w
        else (invalid_transition s.state new, w)

    -- The result for a space that is not there.
    abbrev pub not_found : SpaceState → Update
    not_found new = returned (record {
      success = false;
      previous_state = none;
      new_state = new;
      display_updated = false;
      error = some "Space not found";
    })

    -- The body under the lock.
    unfoldable pub update_locked :
        Reading → String → SpaceState → String → String → World R → Update × World R
    update_locked t id new source request w = elim (get_space id w) [
      | none ↦ (not_found new, w)
      | some s ↦ update_found t id s new source request w
    ]

    -- `update_space_state` where no call of the database or of Redis raises, with the key of the lock
    -- as the two tries see it. Faults has the calls that raise.
    unfoldable pub update_space_state :
        ℕ
        → ℕ
        → Option Lease
        → Option Lease
        → Reading
        → String
        → SpaceState
        → String
        → String
        → World R
        → Update × World R
    update_space_state now again first second t id new source request w =
        elim (acquire_lock now again first second) [
          | none ↦ (lock_taken, w)
          | some l ↦ update_locked t id new source request w
        ]
