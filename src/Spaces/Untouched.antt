-- ===== src/Spaces/Untouched.antt =====
-- The display and its log leave the states alone.
use smart_parking_platform.Prelude.{
  ℕ, String, List, Option, none, some, Bool, false, ◌≡◌, refl, arith, Option-cases, inl, inr,
}
use smart_parking_platform.Downlink.Types.{QueueRedis}
use smart_parking_platform.Downlink.Worker.{Downlink}
use smart_parking_platform.Hex.{codes, from_hex}
use smart_parking_platform.Spaces.Types.{Space, DisplayDevice}
use smart_parking_platform.Spaces.Display.{
  World, Reading, Trigger, Delivery, no_client, direct, durable, DirectAnswer, fetch_display,
  fetch_space_info, log_sent, log_failed, through_queue, directly, send_payload, state_payload,
  update_device, update_display,
}

-- The display never touches the spaces and their log.
pub record KeepsStates (R : QueueRedis) (w w' : World R) : Type 0 where
  pub same_spaces : w'.spaces ≡ w.spaces
  pub same_changes : w'.changes ≡ w.changes

module _ (R : QueueRedis) (content_hash : String → String → ℕ → String)
    (chirpstack : Downlink → DirectAnswer) (no_tenant : String) where
  log_sent-KeepsStates :
      (t : Reading) (q : Trigger) (d : DisplayDevice) (payload : String) (sent : Bool)
      (id : Option String) (w : World R)
      → KeepsStates R w (log_sent R t q d payload sent id w)
  unfolding log_sent
  log_sent-KeepsStates t q d payload sent id w = record { same_spaces = refl; same_changes = refl }

  through_queue-KeepsStates :
      (t : Reading) (q : Trigger) (d : DisplayDevice) (payload : String) (s : Option Space)
      (w : World R)
      → KeepsStates R w (through_queue R content_hash chirpstack no_tenant t q d payload s w).1
  unfolding through_queue log_sent log_failed
  through_queue-KeepsStates t q d payload none w = record {
    same_spaces = refl;
    same_changes = refl;
  }
  through_queue-KeepsStates t q d payload (some s) w = record {
    same_spaces = refl;
    same_changes = refl;
  }

  directly-KeepsStates :
      (t : Reading) (q : Trigger) (d : DisplayDevice) (payload : String) (bytes : List ℕ)
      (w : World R)
      → KeepsStates R w (directly R content_hash chirpstack no_tenant t q d payload bytes w).1
  unfolding directly log_sent log_failed
  directly-KeepsStates t q d payload bytes w = ground arith

  unchanged : (w : World R) → KeepsStates R w w
  unchanged w = record { same_spaces = refl; same_changes = refl }

  send_payload-KeepsStates :
      (mode : Delivery) (t : Reading) (q : Trigger) (d : DisplayDevice) (payload : String)
      (w : World R)
      → KeepsStates R w (send_payload R content_hash chirpstack no_tenant mode t q d payload w).1
  unfolding send_payload log_failed
  send_payload-KeepsStates mode t q d payload w = elim (Option-cases (from_hex (codes payload))) [
    | inl e ↦ rw (e, send_payload) (record { same_spaces = refl; same_changes = refl })
    | inr (bytes, e) ↦ rw (e, send_payload) (by_mode mode bytes)
  ]
    where
      by_mode :
          (m : Delivery) (bytes : List ℕ)
          → KeepsStates R w
              (elim m as (λ _. Bool × World R) [
                | no_client ↦ (false, w)
                | durable ↦
                    through_queue R content_hash chirpstack no_tenant t q d payload
                      (fetch_space_info R q.space_id w)
                      w
                | direct ↦ directly R content_hash chirpstack no_tenant t q d payload bytes w
              ]).1
      by_mode no_client bytes = unchanged w
      by_mode direct bytes = directly-KeepsStates t q d payload bytes w
      by_mode durable bytes =
          through_queue-KeepsStates t q d payload (fetch_space_info R q.space_id w) w

  update_device-KeepsStates :
      (mode : Delivery) (t : Reading) (q : Trigger) (d : DisplayDevice) (w : World R)
      → KeepsStates R w (update_device R content_hash chirpstack no_tenant mode t q d w).1
  unfolding update_device
  update_device-KeepsStates mode t q d w =
      elim (Option-cases (state_payload R content_hash chirpstack no_tenant d q.new_state)) [
        | inl e ↦ rw (e, update_device) (unchanged w)
        | inr (payload, e) ↦ rw (e, update_device) (send_payload-KeepsStates mode t q d payload w)
      ]

  pub update_display-KeepsStates :
      (mode : Delivery) (t : Reading) (q : Trigger) (w : World R)
      → KeepsStates R w (update_display R content_hash chirpstack no_tenant mode t q w).1
  unfolding update_display
  update_display-KeepsStates no_client t q w = unchanged w
  update_display-KeepsStates direct t q w = elim (Option-cases (fetch_display R q.display_eui w)) [
    | inl e ↦ rw (e, update_display) (unchanged w)
    | inr (d, e) ↦ rw (e, update_display) (update_device-KeepsStates direct t q d w)
  ]
  update_display-KeepsStates durable t q w = elim (Option-cases (fetch_display R q.display_eui w)) [
    | inl e ↦ rw (e, update_display) (unchanged w)
    | inr (d, e) ↦ rw (e, update_display) (update_device-KeepsStates durable t q d w)
  ]
