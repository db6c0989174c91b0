-- ===== src/Spaces/Automaton.antt =====
-- StateManager refines a guarded automaton for each space.
use smart_parking_platform.Prelude.{
  ℕ, String, List, [], ◌∷◌, none, some, true, false, ◌≡◌, refl, ap, sym, ◌∙◌, arith, text_eq,
  text_eq_refl, eq_iff, All, subst, first-All, Bool-cases, Option-cases, inl, inr, if◌then◌else◌,
}
use smart_parking_platform.Downlink.Types.{QueueRedis}
use smart_parking_platform.Downlink.Worker.{Downlink}
use smart_parking_platform.Spaces.Types.{SpaceState, same_state, Space}
use smart_parking_platform.Spaces.Lock.{Lease, acquire_lock}
use smart_parking_platform.Spaces.Display.{World, Delivery, DirectAnswer}
use smart_parking_platform.Spaces.Manager.{is_valid_transition, is_live_space, get_space, set_state}
use smart_parking_platform.Spaces.Refinement.{
  Call, gets_lock, follow, follow_all, run_call, run_calls, HasState, get_space-set_state,
  change_state-states, get_space-spaces, same_state_eq, locked_out, missing, kept, refused, changed,
}

module _ (R : QueueRedis) (content_hash : String → String → ℕ → String)
    (chirpstack : Downlink → DirectAnswer) (no_tenant : String) (mode : Delivery) where
  abbrev run : Call → World R → World R
  run c w = run_call R content_hash chirpstack no_tenant mode c w

  follow_other :
      (id : String) (state : SpaceState) (c : Call)
      → text_eq c.space_id id ≡ false
      → follow id state c ≡ state
  unfolding follow
  follow_other id state c h = ground (arith, h)

  found_id : (id : String) (w : World R) (s : Space) → get_space R id w ≡ some s → s.id ≡ id
  unfolding get_space is_live_space
  found_id id w s e =
      let hit = (first-All (λ _. Unit {0}) (is_live_space id) w.spaces s e (all_unit w.spaces)).1 in
      (eq_iff s.id id).0 (ground (arith, hit))
    where
      all_unit : (xs : List Space) → All (λ _. Unit {0}) xs
      all_unit [] = tt
      all_unit (x ∷ xs) = (tt, all_unit xs)

  -- A change of one space moves that space and no other.
  pub changed_state :
      (id : String) (s : Space) (c : Call) (w : World R)
      → get_space R id w ≡ some s
      → let w' = set_state R c.space_id c.new_state c.reading.started w in
        HasState R content_hash chirpstack no_tenant mode id
          (if text_eq c.space_id id then c.new_state else s.state)
          w'
  changed_state id s c w e =
      let own = found_id id w s e in
      let seen =
        get_space-set_state R content_hash chirpstack no_tenant mode id c.space_id c.new_state
          c.reading.started w in
      elim (Bool-cases (text_eq c.space_id id)) [
        | inl here ↦
            let same : text_eq s.id c.space_id ≡ true =
              rw (own, (eq_iff c.space_id id).0 here) (text_eq_refl id) in
            (
              record s { state = c.new_state; updated_at = c.reading.started },
              rw seen (rw e (rw same refl)),
              rw here refl,
            )
        | inr other ↦
            let apart : text_eq s.id c.space_id ≡ false =
              rw own (ground (arith, other, eq_iff c.space_id id, eq_iff id c.space_id)) in
            (s, rw seen (rw e (rw apart refl)), rw other refl)
      ]

  -- Two reads of one space find the same row.
  pub same_row :
      (id j : String) (s t : Space) (w : World R)
      → get_space R id w ≡ some s
      → get_space R j w ≡ some t
      → text_eq j id ≡ true
      → t ≡ s
  same_row id j s t w e there here =
      let equal : some t ≡ some s =
        sym there ∙ ap (λ k. get_space R k w) ((eq_iff j id).0 here) ∙ e in
      cc

  stays :
      (id : String) (state : SpaceState) (c : Call) (w : World R)
      → HasState R content_hash chirpstack no_tenant mode id state w
      → run c w ≡ w
      → follow id state c ≡ state
      → HasState R content_hash chirpstack no_tenant mode id (follow id state c) (run c w)
  stays id state c w has same still = rw (same, still) has

  module _ (id : String) (c : Call) (w : World R) (s : Space) (e : get_space R id w ≡ some s) where
    follow_missing : get_space R c.space_id w ≡ none → follow id s.state c ≡ s.state
    follow_missing gone = elim (Bool-cases (text_eq c.space_id id)) [
      | inl here ↦
          let no_row : none ≡ some s =
            sym gone ∙ ap (λ k. get_space R k w) ((eq_iff c.space_id id).0 here) ∙ e in
          cc
      | inr other ↦ follow_other id s.state c other
    ]

    module _ (t : Space) (there : get_space R c.space_id w ≡ some t) where
      follow_kept : same_state t.state c.new_state ≡ true → follow id s.state c ≡ s.state
      unfolding follow
      follow_kept same = elim (Bool-cases (text_eq c.space_id id)) [
        | inl here ↦
            let one = ap (λ r. r.state) (same_row id c.space_id s t w e there here) in
            let equal =
              same_state_eq R content_hash chirpstack no_tenant mode t.state c.new_state same in
            ground (arith, one, equal)
        | inr other ↦ follow_other id s.state c other
      ]

      follow_refused :
          is_valid_transition t.state c.new_state c.source ≡ false → follow id s.state c ≡ s.state
      unfolding follow
      follow_refused bad = elim (Bool-cases (text_eq c.space_id id)) [
        | inl here ↦
            let one = ap (λ r. r.state) (same_row id c.space_id s t w e there here) in
            let bad' : is_valid_transition s.state c.new_state c.source ≡ false =
              ap (λ q. is_valid_transition q c.new_state c.source) (sym one) ∙ bad in
            ground (arith, bad')
        | inr other ↦ follow_other id s.state c other
      ]

      follow_changed :
          gets_lock c ≡ true
          → is_valid_transition t.state c.new_state c.source ≡ true
          → follow id s.state c ≡ (if text_eq c.space_id id then c.new_state else s.state)
      unfolding follow
      follow_changed got good = elim (Bool-cases (text_eq c.space_id id)) [
        | inl here ↦
            let one = ap (λ r. r.state) (same_row id c.space_id s t w e there here) in
            let good' : is_valid_transition s.state c.new_state c.source ≡ true =
              ap (λ q. is_valid_transition q c.new_state c.source) (sym one) ∙ good in
            rw (here, got, good') refl
        | inr other ↦ rw other refl
      ]

  -- A row that is read back from equal spaces.
  has_moved :
      (id : String) (state : SpaceState) (w v : World R)
      → w.spaces ≡ v.spaces
      → HasState R content_hash chirpstack no_tenant mode id state v
      → HasState R content_hash chirpstack no_tenant mode id state w
  has_moved id state w v same (s, e, own) =
      (s, get_space-spaces R content_hash chirpstack no_tenant mode id w v same ∙ e, own)

  module _ (id : String) (c : Call) (w : World R) (s : Space) (e : get_space R id w ≡ some s) where
    abbrev Holds : Type 0
    Holds = HasState R content_hash chirpstack no_tenant mode id (follow id s.state c) (run c w)

    here_now : HasState R content_hash chirpstack no_tenant mode id s.state w
    here_now = (s, e, refl)

    step_locked : acquire_lock c.now c.again c.first_seen c.second_seen ≡ none → Holds
    unfolding follow
    step_locked shut =
        stays id s.state c w here_now (locked_out R content_hash chirpstack no_tenant mode c w shut)
          (ground (arith, shut))

    module _ (l : Lease)
        (locked : acquire_lock c.now c.again c.first_seen c.second_seen ≡ some l) where
      step_changed :
          (t : Space)
          → get_space R c.space_id w ≡ some t
          → same_state t.state c.new_state ≡ false
          → is_valid_transition t.state c.new_state c.source ≡ true
          → Holds
      step_changed t there other good =
          let got : gets_lock c ≡ true = rw locked refl in
          rw
            (
              follow_changed id c w s e t there got good,
              changed R content_hash chirpstack no_tenant mode c w l locked t there other good,
            )
            (has_moved id _ _ _
              (change_state-states R content_hash chirpstack no_tenant mode c.reading c.space_id t
                c.new_state c.source c.request_id w).0
              (changed_state id s c w e))

      step_found : (t : Space) → get_space R c.space_id w ≡ some t → Holds
      step_found t there = elim (Bool-cases (same_state t.state c.new_state)) [
        | inl same ↦
            stays id s.state c w here_now
              (kept R content_hash chirpstack no_tenant mode c w l locked t there same)
              (follow_kept id c w s e t there same)
        | inr other ↦ elim (Bool-cases (is_valid_transition t.state c.new_state c.source)) [
          | inl good ↦ step_changed t there other good
          | inr bad ↦
              stays id s.state c w here_now
                (refused R content_hash chirpstack no_tenant mode c w l locked t there other bad)
                (follow_refused id c w s e t there bad)
        ]
      ]

      step_locked_in : Holds
      step_locked_in = elim (Option-cases (get_space R c.space_id w)) [
        | inl gone ↦
            stays id s.state c w here_now
              (missing R content_hash chirpstack no_tenant mode c w l locked gone)
              (follow_missing id c w s e gone)
        | inr (t, there) ↦ step_found t there
      ]

    step_row : Holds
    step_row = elim (Option-cases (acquire_lock c.now c.again c.first_seen c.second_seen)) [
      | inl shut ↦ step_locked shut
      | inr (l, locked) ↦ step_locked_in l locked
    ]

  pub step_refines :
      (id : String) (state : SpaceState) (c : Call) (w : World R)
      → HasState R content_hash chirpstack no_tenant mode id state w
      → HasState R content_hash chirpstack no_tenant mode id (follow id state c) (run c w)
  step_refines id state c w (s, e, own) =
      subst (λ q. HasState R content_hash chirpstack no_tenant mode id (follow id q c) (run c w))
        own (step_row id c w s e)

  -- A space that is there stays there, and after any calls of `update_space_state`, each with its own
  -- clock, lock, space and source, its state is the one that the guarded automaton reaches from its
  -- old state: a call moves it only if it is for this space, gets the lock and asks for an allowed
  -- transition.
  pub run_refines :
      (id : String) (state : SpaceState) (cs : List Call) (w : World R)
      → HasState R content_hash chirpstack no_tenant mode id state w
      → HasState R content_hash chirpstack no_tenant mode id
          (follow_all id state cs)
          (run_calls R content_hash chirpstack no_tenant mode cs w)
  unfolding follow_all run_calls
  run_refines id state [] w has = has
  run_refines id state (c ∷ cs) w has =
      run_refines id (follow id state c) cs (run c w) (step_refines id state c w has)
