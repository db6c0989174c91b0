-- ===== src/Spaces/History.antt =====
-- The log of the states of a space, table state_changes.
use smart_parking_platform.Prelude.{
  ℕ, String, List, [], ◌∷◌, ◌++◌, some, true, false, ◌≡◌, refl, ap, ◌∙◌, text_eq, subst, Bool-cases,
  Option-cases, inl, inr, if◌then◌else◌,
}
use smart_parking_platform.Downlink.Types.{QueueRedis}
use smart_parking_platform.Downlink.Worker.{Downlink}
use smart_parking_platform.Spaces.Types.{SpaceState, same_state, Space, Change}
use smart_parking_platform.Spaces.Lock.{Lease, acquire_lock}
use smart_parking_platform.Spaces.Display.{World, Delivery, DirectAnswer}
use smart_parking_platform.Spaces.Manager.{
  is_valid_transition, get_space, record_change, change_state,
}
use smart_parking_platform.Spaces.Refinement.{
  Call, run_call, run_calls, get_space-spaces, change_state-states, locked_out, missing, kept,
  refused, changed,
}
use smart_parking_platform.Spaces.Automaton.{changed_state, same_row}

-- The rows of a space lead from one state to another, each by an allowed transition.
pub data Chain (id : String) : SpaceState → SpaceState → List Change → Type 0 where
  done : (a : SpaceState) → Chain id a a []
  link :
      (c : Change) (b : SpaceState) (cs : List Change)
      → text_eq c.space_id id ≡ true
      → is_valid_transition c.previous_state c.new_state c.source ≡ true
      → Chain id c.new_state b cs
      → Chain id c.previous_state b (c ∷ cs)
  other :
      (c : Change) (a b : SpaceState) (cs : List Change)
      → text_eq c.space_id id ≡ false
      → Chain id a b cs
      → Chain id a b (c ∷ cs)

Chain-append :
    (id : String) (a b d : SpaceState) (xs ys : List Change)
    → Chain id a b xs
    → Chain id b d ys
    → Chain id a d (xs ++ ys)
Chain-append id a _ d [] ys (done _) k = k
Chain-append id _ b d (c ∷ cs) ys (link _ _ _ own good h) k =
    link c d (cs ++ ys) own good (Chain-append id c.new_state b d cs ys h k)
Chain-append id a b d (c ∷ cs) ys (other _ _ _ _ apart h) k =
    other c a d (cs ++ ys) apart (Chain-append id a b d cs ys h k)

-- The row that a call writes.
abbrev row_of : Space → Call → Change
row_of t c = record {
  space_id = c.space_id;
  previous_state = t.state;
  new_state = c.new_state;
  source = c.source;
  request_id = c.request_id;
  timestamp = c.reading.started;
}

module _ (R : QueueRedis) (content_hash : String → String → ℕ → String)
    (chirpstack : Downlink → DirectAnswer) (no_tenant : String) (mode : Delivery) where
  abbrev run : Call → World R → World R
  run c w = run_call R content_hash chirpstack no_tenant mode c w

  -- The log leads from `a` to the present state of the space.
  abbrev pub IsLogged : String → SpaceState → World R → Type 0
  IsLogged id a w = (s : Space) × (get_space R id w ≡ some s) × Chain id a s.state w.changes

  -- The row of a change as a step of the chain.
  row_links :
      (id : String) (s t : Space) (c : Call) (w : World R)
      → get_space R id w ≡ some s
      → get_space R c.space_id w ≡ some t
      → is_valid_transition t.state c.new_state c.source ≡ true
      → Chain id s.state (if text_eq c.space_id id then c.new_state else s.state) (row_of t c ∷ [])
  row_links id s t c w e there good = elim (Bool-cases (text_eq c.space_id id)) [
    | inl here ↦
        let one : t ≡ s =
          same_row R content_hash chirpstack no_tenant mode id c.space_id s t w e there here in
        rw here (
          subst (λ q. Chain id q c.new_state (row_of t c ∷ [])) (ap (λ r. r.state) one)
            (link _ c.new_state [] here good (done c.new_state)))
    | inr apart ↦ rw apart (other _ s.state s.state [] apart (done s.state))
  ]

  change-IsLogged :
      (id : String) (a : SpaceState) (s t : Space) (c : Call) (w : World R)
      → get_space R id w ≡ some s
      → Chain id a s.state w.changes
      → get_space R c.space_id w ≡ some t
      → is_valid_transition t.state c.new_state c.source ≡ true
      → IsLogged id a
          (change_state R content_hash chirpstack no_tenant mode c.reading c.space_id t c.new_state
            c.source c.request_id w).1
  change-IsLogged id a s t c w e log there good =
      let done =
        change_state-states R content_hash chirpstack no_tenant mode c.reading c.space_id t
          c.new_state c.source c.request_id w in
      let (s', e', own) = changed_state R content_hash chirpstack no_tenant mode id s c w e in
      let longer =
        Chain-append id a s.state _ w.changes (row_of t c ∷ []) log
          (row_links id s t c w e there good) in
      let rows : _ ≡ w.changes ++ row_of t c ∷ [] = done.1 ∙ unfold record_change in refl in
      (
        s',
        get_space-spaces R content_hash chirpstack no_tenant mode id _ _ done.0 ∙ e',
        rw (own, rows) longer,
      )

  module _ (id : String) (a : SpaceState) (c : Call) (w : World R) (h : IsLogged id a w) where
    quiet : run c w ≡ w → IsLogged id a (run c w)
    quiet still = rw still h

    found-IsLogged :
        (l : Lease) (t : Space)
        → acquire_lock c.now c.again c.first_seen c.second_seen ≡ some l
        → get_space R c.space_id w ≡ some t
        → IsLogged id a (run c w)
    found-IsLogged l t locked there = elim (Bool-cases (same_state t.state c.new_state)) [
      | inl same ↦ quiet (kept R content_hash chirpstack no_tenant mode c w l locked t there same)
      | inr apart ↦ elim (Bool-cases (is_valid_transition t.state c.new_state c.source)) [
        | inr bad ↦
            quiet (refused R content_hash chirpstack no_tenant mode c w l locked t there apart bad)
        | inl good ↦
            rw (changed R content_hash chirpstack no_tenant mode c w l locked t there apart good)
              (change-IsLogged id a h.0 t c w h.1 h.2 there good)
      ]
    ]

    step-IsLogged : IsLogged id a (run c w)
    step-IsLogged = elim (Option-cases (acquire_lock c.now c.again c.first_seen c.second_seen)) [
      | inl shut ↦ quiet (locked_out R content_hash chirpstack no_tenant mode c w shut)
      | inr (l, locked) ↦ elim (Option-cases (get_space R c.space_id w)) [
        | inl gone ↦ quiet (missing R content_hash chirpstack no_tenant mode c w l locked gone)
        | inr (t, there) ↦ found-IsLogged l t locked there
      ]
    ]

  -- If the log of a space leads from some state to its present one by allowed transitions, then it
  -- still does so after any calls of `update_space_state`: no change goes unlogged, and no row is
  -- written without its change.
  pub log_leads_to_the_state :
      (id : String) (a : SpaceState) (cs : List Call) (w : World R)
      → IsLogged id a w
      → IsLogged id a (run_calls R content_hash chirpstack no_tenant mode cs w)
  unfolding run_calls
  log_leads_to_the_state id a [] w h = h
  log_leads_to_the_state id a (c ∷ cs) w h =
      log_leads_to_the_state id a cs (run c w) (step-IsLogged id a c w h)
