-- ===== src/Spaces/Faults.antt =====
-- `update_space_state` where the database or Redis raises under the lock: `except Exception` turns
-- that into a result. A statement that raises has done nothing, and what was executed before it
-- stands, since each execute commits by itself.
use smart_parking_platform.Prelude.{
  ℕ, String, [], ◌∷◌, ◌++◌, Option, none, some, Bool, true, false, ◌≡◌, text_eq, text_append,
  if◌then◌else◌,
}
use smart_parking_platform.Downlink.Types.{QueueRedis}
use smart_parking_platform.Downlink.Worker.{Downlink}
use smart_parking_platform.Spaces.Types.{
  SpaceState, same_state, Space, Update, returned, invalid_transition, lock_taken,
}
use smart_parking_platform.Spaces.Lock.{acquire_lock}
use smart_parking_platform.Spaces.Display.{World, Delivery, DirectAnswer}
use smart_parking_platform.Spaces.Manager.{
  is_valid_transition, get_space, set_state, record_change, result_of, not_found,
}
use smart_parking_platform.Spaces.Refinement.{Call, HasState}

-- The call that raises: the SELECT, the UPDATE, the INSERT, or one of the three DELETEs of
-- `invalidate_cache`.
pub data Fault : Type 0 where
  in_select in_update in_insert in_space_key in_state_key in_all_key : Fault

-- StateUpdateResult(success=False, ..., error=str(e))
abbrev pub failed : Option SpaceState → SpaceState → String → Update
failed previous new error = returned (record {
  success = false;
  previous_state = previous;
  new_state = new;
  display_updated = false;
  error = some error;
})

module _ (R : QueueRedis) (content_hash : String → String → ℕ → String)
    (chirpstack : Downlink → DirectAnswer) (no_tenant : String) (mode : Delivery) where
  unfoldable pub delete_key : String → World R → World R
  delete_key key w = record w { cache = λ k. if text_eq k key then none else w.cache k }

  abbrev pub updated : Call → World R → World R
  updated c w = set_state R c.space_id c.new_state c.reading.started w

  abbrev pub recorded : Call → Space → World R → World R
  recorded c s w =
      record_change R c.space_id s.state c.new_state c.source c.request_id c.reading.started
        (updated c w)

  -- What stands of a valid change when a call raises.
  unfoldable pub before_fault : Fault → Call → Space → World R → World R
  before_fault in_select c s w = w
  before_fault in_update c s w = w
  before_fault in_insert c s w = updated c w
  before_fault in_space_key c s w = recorded c s w
  before_fault in_state_key c s w = delete_key (text_append "space:" c.space_id) (recorded c s w)
  before_fault in_all_key c s w =
      delete_key (text_append "space:" (text_append c.space_id ":state"))
        (delete_key (text_append "space:" c.space_id) (recorded c s w))

  -- A space that is there: without a change nothing is called that could raise.
  unfoldable pub fail_found : Fault → String → Call → Space → World R → Update × World R
  fail_found f e c s w =
      if same_state s.state c.new_state
      then (result_of R content_hash chirpstack no_tenant mode s.state c.new_state false, w)
      else if is_valid_transition s.state c.new_state c.source
      then (failed (some s.state) c.new_state e, before_fault f c s w)
      else (invalid_transition s.state c.new_state, w)

  unfoldable pub fail_locked : Fault → String → Call → World R → Update × World R
  fail_locked in_select e c w = (failed none c.new_state e, w)
  fail_locked f e c w = elim (get_space R c.space_id w) [
    | none ↦ (not_found R content_hash chirpstack no_tenant mode c.new_state, w)
    | some s ↦ fail_found f e c s w
  ]

  -- `update_space_state`, where the call `f` raises with the text `e`.
  unfoldable pub update_with_fault : Fault → String → Call → World R → Update × World R
  update_with_fault f e c w = elim (acquire_lock c.now c.again c.first_seen c.second_seen) [
    | none ↦ (lock_taken, w)
    | some l ↦ fail_locked f e c w
  ]

  -- Whether the UPDATE, and whether the INSERT, comes before what raises.
  abbrev is_updated : Fault → Bool
  is_updated in_select = false
  is_updated in_update = false
  is_updated _ = true

  abbrev is_recorded : Fault → Bool
  is_recorded in_select = false
  is_recorded in_update = false
  is_recorded in_insert = false
  is_recorded _ = true

  abbrev is_deleted : Fault → Bool
  is_deleted in_state_key = true
  is_deleted in_all_key = true
  is_deleted _ = false

  -- previous_state of the result
  abbrev pub known : Fault → SpaceState → Option SpaceState
  known in_select current = none
  known _ current = some current

  -- What stands of a change from the state of `s`, as far as it came.
  pub record Stands (f : Fault) (c : Call) (s : Space) (w w' : World R) : Type 0 where
    pub space_stands :
        HasState R content_hash chirpstack no_tenant mode c.space_id
          (if is_updated f then c.new_state else s.state)
          w'
    pub log_stands : w'.changes ≡ (
        if is_recorded f
        then w.changes
          ++ record {
            space_id = c.space_id;
            previous_state = s.state;
            new_state = c.new_state;
            source = c.source;
            request_id = c.request_id;
            timestamp = c.reading.started;
          }
            ∷ []
        else w.changes)
    pub cache_stands :
        w'.cache (text_append "space:" c.space_id)
        ≡ (if is_deleted f then none else w.cache (text_append "space:" c.space_id))
    pub display_untold : (w'.actuations ≡ w.actuations) × (w'.store ≡ w.store) × (w'.sent ≡ w.sent)
