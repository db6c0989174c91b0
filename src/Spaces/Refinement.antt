-- ===== src/Spaces/Refinement.antt =====
-- StateManager as a guarded automaton for each space.
use smart_parking_platform.Prelude.{
  ℕ, String, List, [], ◌∷◌, Option, none, some, Bool, true, false, ◌&&◌, ◌≡◌, refl, ap, arith,
  text_eq, is_some, first, first-rewrite, Bool-cases, inl, inr, if◌then◌else◌,
}
use smart_parking_platform.Downlink.Types.{QueueRedis}
use smart_parking_platform.Downlink.Worker.{Downlink}
use smart_parking_platform.Spaces.Types.{SpaceState, same_state, Space, given}
use smart_parking_platform.Spaces.Lock.{Lease, acquire_lock}
use smart_parking_platform.Spaces.Display.{World, Reading, Delivery, DirectAnswer}
use smart_parking_platform.Spaces.Manager.{
  is_valid_transition, is_live_space, get_space, invalidate_cache, set_state, record_change, show,
  change_state, update_found, update_locked, update_space_state, trigger_of,
}
use smart_parking_platform.Spaces.Untouched.{KeepsStates, update_display-KeepsStates}

-- One call of `update_space_state`, with what it reads from outside.
pub record Call : Type 0 where
  pub now : ℕ
  pub again : ℕ
  pub first_seen : Option Lease
  pub second_seen : Option Lease
  pub reading : Reading
  pub space_id : String
  pub new_state : SpaceState
  pub source : String
  pub request_id : String

-- Whether one of the two tries gets the lock.
abbrev pub gets_lock : Call → Bool
gets_lock c = is_some (acquire_lock c.now c.again c.first_seen c.second_seen)

-- The abstract view: the state of one space, which a call moves if it is for this space, gets the
-- lock, and asks for an allowed transition.
unfoldable pub follow : String → SpaceState → Call → SpaceState
follow id current c =
    if text_eq c.space_id id && (gets_lock c && is_valid_transition current c.new_state c.source)
    then c.new_state
    else current

unfoldable pub follow_all : String → SpaceState → List Call → SpaceState
follow_all id current [] = current
follow_all id current (c ∷ cs) = follow_all id (follow id current c) cs

module _ (R : QueueRedis) (content_hash : String → String → ℕ → String)
    (chirpstack : Downlink → DirectAnswer) (no_tenant : String) (mode : Delivery) where
  abbrev pub run_call : Call → World R → World R
  run_call c w =
      (update_space_state R content_hash chirpstack no_tenant mode c.now c.again c.first_seen
        c.second_seen c.reading c.space_id c.new_state c.source c.request_id w).1

  unfoldable pub run_calls : List Call → World R → World R
  run_calls [] w = w
  run_calls (c ∷ cs) w = run_calls cs (run_call c w)

  -- The state of a space, if it is there.
  abbrev pub HasState : String → SpaceState → World R → Type 0
  HasState id state w = (s : Space) × (get_space R id w ≡ some s) × (s.state ≡ state)

  show-KeepsStates :
      (t : Reading) (id : String) (s : Space) (new : SpaceState) (source request : String)
      (w : World R)
      → KeepsStates R w
          (show R content_hash chirpstack no_tenant mode t id s new source request w).1
  unfolding show
  show-KeepsStates t id s new source request w = elim (Bool-cases (given s.display_eui)) [
    | inl e ↦
        rw (e, show)
          (update_display-KeepsStates R content_hash chirpstack no_tenant mode t
            (trigger_of R content_hash chirpstack no_tenant mode id s new source request) w)
    | inr e ↦ rw (e, show) (record { same_spaces = refl; same_changes = refl })
  ]

  pub get_space-set_state :
      (j id : String) (new : SpaceState) (now : ℕ) (w : World R)
      → get_space R j (set_state R id new now w) ≡ (elim (get_space R j w) [
        | none ↦ none
        | some s ↦ some (if text_eq s.id id then record s { state = new; updated_at = now } else s)
      ])
  unfolding get_space set_state is_live_space
  get_space-set_state j id new now w =
      first-rewrite (is_live_space j) (λ s. text_eq s.id id)
        (λ s. record s { state = new; updated_at = now }) w.spaces (λ s. refl)

  -- What a change does to the states and to the log.
  pub change_state-states :
      (t : Reading) (id : String) (s : Space) (new : SpaceState) (source request : String)
      (w : World R)
      → let w' =
          (change_state R content_hash chirpstack no_tenant mode t id s new source request w).1 in
        (w'.spaces ≡ (set_state R id new t.started w).spaces)
        × (w'.changes ≡ (record_change R id s.state new source request t.started w).changes)
  unfolding change_state invalidate_cache record_change set_state
  change_state-states t id s new source request w =
      let keeps = show-KeepsStates t id s new source request (
        invalidate_cache R id (
          record_change R id s.state new source request t.started
            (set_state R id new t.started w))) in
      (keeps.same_spaces, keeps.same_changes)

  pub get_space-spaces :
      (j : String) (w v : World R) → w.spaces ≡ v.spaces → get_space R j w ≡ get_space R j v
  unfolding get_space
  get_space-spaces j w v e = ap (first (is_live_space j)) e

  pub same_state_eq : (a b : SpaceState) → same_state a b ≡ true → a ≡ b
  same_state_eq a b h = ground arith

  -- The five ways of a call.
  pub locked_out :
      (c : Call) (w : World R)
      → acquire_lock c.now c.again c.first_seen c.second_seen ≡ none
      → run_call c w ≡ w
  unfolding update_space_state
  locked_out c w e = ground (arith, e)

  module _ (c : Call) (w : World R) (l : Lease)
      (locked : acquire_lock c.now c.again c.first_seen c.second_seen ≡ some l) where
    pub missing : get_space R c.space_id w ≡ none → run_call c w ≡ w
    unfolding update_space_state update_locked
    missing e = ground (arith, locked, e)

    pub kept :
        (s : Space)
        → get_space R c.space_id w ≡ some s
        → same_state s.state c.new_state ≡ true
        → run_call c w ≡ w
    unfolding update_space_state update_locked update_found
    kept s e same = ground (arith, locked, e, same)

    pub refused :
        (s : Space)
        → get_space R c.space_id w ≡ some s
        → same_state s.state c.new_state ≡ false
        → is_valid_transition s.state c.new_state c.source ≡ false
        → run_call c w ≡ w
    unfolding update_space_state update_locked update_found
    refused s e other bad = ground (arith, locked, e, other, bad)

    pub changed :
        (s : Space)
        → get_space R c.space_id w ≡ some s
        → same_state s.state c.new_state ≡ false
        → is_valid_transition s.state c.new_state c.source ≡ true
        → run_call c w
          ≡ (change_state R content_hash chirpstack no_tenant mode c.reading c.space_id s
              c.new_state c.source c.request_id w).1
    unfolding update_space_state update_locked update_found
    changed s e other good = ground (arith, locked, e, other, good)
