-- ===== src/Uplink/Guard.antt =====
-- What the signature and the frame counter protect.
use smart_parking_platform.Prelude.{
  ℕ, String, List, Option, none, some, true, false, ◌≡◌, refl, sym, ◌∙◌, arith, text_eq, truthy,
  Bool-cases, Option-cases, inl, inr,
}
use smart_parking_platform.Hex.{codes}
use smart_parking_platform.Downlink.Types.{QueueRedis}
use smart_parking_platform.Downlink.Worker.{Downlink}
use smart_parking_platform.Spaces.Types.{
  SpaceState, Space, Update, returned, invalid_transition, lock_taken,
}
use smart_parking_platform.Spaces.Display.{Delivery, DirectAnswer}
use smart_parking_platform.Spaces.Manager.{update_space_state}
use smart_parking_platform.Webhooks.Secrets.{
  SecretRow, Verdict, allowed, unauthorized, server_error, fetch_secret, is_ascii,
  compare_signature, verify_signed, verify_webhook_signature,
}
use smart_parking_platform.Devices.Eui.{normalize_deveui}
use smart_parking_platform.Devices.Handlers.{RxInfo, SensorUplink, or_text, first_rx}
use smart_parking_platform.Uplink.Tables.{SensorReading}
use smart_parking_platform.Uplink.Endpoint.{
  Arrival, ProcessingResult, Service, text_of, tenant_of, profile_of, get_space_by_sensor,
  choose_handler, error_result, discover, track_orphan, after_update, update_state, sense,
  uplink_from, dispatch, accept, with_device, process_uplink,
}

module _ (R : QueueRedis) (content_hash : String → String → ℕ → String)
    (chirpstack : Downlink → DirectAnswer) (no_tenant : String) (mode : Delivery)
    (hmac : String → String → String) (decode : String → Option (List ℕ))
    (lower : String → String) where
  abbrev run : Arrival → Service R → ProcessingResult × Service R
  run a s = process_uplink R content_hash chirpstack no_tenant mode hmac decode lower a s

  refused_verdict :
      (signature tenant body : String) (r : SecretRow) (rows : List SecretRow)
      → truthy signature ≡ true
      → is_ascii signature ≡ true
      → fetch_secret tenant rows ≡ some r
      → text_eq signature (hmac r.secret_hash body) ≡ false
      → verify_webhook_signature hmac (some signature) (some tenant) body rows ≡ unauthorized
  unfolding verify_webhook_signature verify_signed compare_signature
  refused_verdict signature tenant body r rows given ascii own wrong =
      ground (arith, given, ascii, own, wrong)

  with_device_refused :
      (eui : String) (a : Arrival) (s : Service R)
      → verify_webhook_signature hmac a.signature
          (tenant_of (get_space_by_sensor R eui s.parking))
          a.body
          s.secrets
        ≡ unauthorized
      → with_device R content_hash chirpstack no_tenant mode hmac decode lower eui a s
        ≡ (error_result eui a, s)
  unfolding with_device
  with_device_refused eui a s refused = rw (refused, with_device) refl

  -- An uplink for a sensor of a space, with a signature of ASCII characters that is not the HMAC
  -- of its body under the newest active secret of the tenant of the space, is answered with the
  -- status `error` and changes nothing: no state, no device, no reading, no display.
  pub forged_uplink_changes_nothing :
      (a : Arrival) (s : Service R) (eui : List ℕ) (sp : Space) (signature tenant : String)
      (r : SecretRow)
      → truthy (or_text a.webhook.dev_eui "") ≡ true
      → normalize_deveui (codes (or_text a.webhook.dev_eui "")) ≡ some eui
      → get_space_by_sensor R (text_of eui) s.parking ≡ some sp
      → sp.tenant_id ≡ some tenant
      → a.signature ≡ some signature
      → truthy signature ≡ true
      → is_ascii signature ≡ true
      → fetch_secret tenant s.secrets ≡ some r
      → text_eq signature (hmac r.secret_hash a.body) ≡ false
      → run a s ≡ (error_result (text_of eui) a, s)
  unfolding process_uplink
  forged_uplink_changes_nothing a s eui sp signature tenant r raw normal found own signed given
        ascii secret wrong =
      let refused = refused_verdict signature tenant a.body r s.secrets given ascii secret wrong in
      rw (raw, normal, process_uplink)
        (with_device_refused (text_of eui) a s (rw (found, own, signed) refused))

  -- The same service with other readings.
  abbrev with_readings : List SensorReading → Service R → Service R
  with_readings rs s = record s { readings = rs }

  after_update-parking :
      (eui : String) (sp : Space) (state : SpaceState) (u : SensorUplink) (a : Arrival)
      (up : Update) (s : Service R)
      → (after_update R content_hash chirpstack no_tenant mode hmac decode lower eui sp state u a up
          s).1.parking
        ≡ s.parking
  unfolding after_update
  after_update-parking eui sp state u a (returned r) s = refl
  after_update-parking eui sp state u a (invalid_transition x y) s = refl
  after_update-parking eui sp state u a lock_taken s = refl

  update_state-parking :
      (eui : String) (sp : Space) (state : SpaceState) (u : SensorUplink) (a : Arrival)
      (s : Service R) (rs : List SensorReading)
      → (update_state R content_hash chirpstack no_tenant mode hmac decode lower eui sp state u a
          (with_readings rs s)).1.parking
        ≡ (update_state R content_hash chirpstack no_tenant mode hmac decode lower eui sp state u a
            s).1.parking
  unfolding update_state
  update_state-parking eui sp state u a s rs =
      let (up, parking) =
        update_space_state R content_hash chirpstack no_tenant mode a.now a.again a.first_seen
          a.second_seen a.reading sp.id state "sensor_uplink" a.request_id s.parking in
      after_update-parking eui sp state u a up (record s { readings = rs; parking = parking })
      ∙ sym (after_update-parking eui sp state u a up (record s { parking = parking }))

  sense-parking :
      (eui : String) (sp : Space) (uplink : Option SensorUplink) (a : Arrival) (s : Service R)
      (rs : List SensorReading)
      → (sense R content_hash chirpstack no_tenant mode hmac decode lower eui sp uplink a
          (with_readings rs s)).1.parking
        ≡ (sense R content_hash chirpstack no_tenant mode hmac decode lower eui sp uplink a
            s).1.parking
  unfolding sense
  sense-parking eui sp none a s rs = refl
  sense-parking eui sp (some u) a s rs = elim (Option-cases u.occupancy_state) [
    | inl quiet ↦ rw (quiet, sense) refl
    | inr (state, told) ↦ rw (told, sense) (update_state-parking eui sp state u a s rs)
  ]

  dispatch-parking :
      (eui : String) (space : Option Space) (rx : RxInfo) (uplink : Option SensorUplink)
      (a : Arrival) (s : Service R) (rs : List SensorReading)
      → (dispatch R content_hash chirpstack no_tenant mode hmac decode lower eui space rx uplink a
          (with_readings rs s)).1.parking
        ≡ (dispatch R content_hash chirpstack no_tenant mode hmac decode lower eui space rx uplink a
            s).1.parking
  unfolding dispatch track_orphan
  dispatch-parking eui none rx uplink a s rs = refl
  dispatch-parking eui (some sp) rx uplink a s rs = sense-parking eui sp uplink a s rs

  discover-with_readings :
      (eui : String) (a : Arrival) (s : Service R) (rs : List SensorReading)
      → discover R content_hash chirpstack no_tenant mode hmac decode lower eui a
          (with_readings rs s)
        ≡ with_readings rs
            (discover R content_hash chirpstack no_tenant mode hmac decode lower eui a s)
  unfolding discover
  discover-with_readings eui a s rs = refl

  accept-parking :
      (eui : String) (space : Option Space) (a : Arrival) (s : Service R) (rs : List SensorReading)
      → (accept R content_hash chirpstack no_tenant mode hmac decode lower eui space a
          (with_readings rs s)).1.parking
        ≡ (accept R content_hash chirpstack no_tenant mode hmac decode lower eui space a
            s).1.parking
  unfolding accept choose_handler
  accept-parking eui space a s rs = elim (Option-cases (first_rx a.webhook.rx_info)) [
    | inl broken ↦ rw (broken, accept) refl
    | inr (rx, there) ↦
        let (handler, registry) = choose_handler R eui (profile_of a.webhook) s in
        let s' = record s { registry = registry } in
        rw (there, accept, discover-with_readings eui a s' rs)
          (dispatch-parking eui space rx
            (uplink_from R content_hash chirpstack no_tenant mode hmac decode lower handler
              a.webhook)
            a (discover R content_hash chirpstack no_tenant mode hmac decode lower eui a s') rs)
  ]

  with_device-parking :
      (eui : String) (a : Arrival) (s : Service R) (rs : List SensorReading)
      → (with_device R content_hash chirpstack no_tenant mode hmac decode lower eui a
          (with_readings rs s)).1.parking
        ≡ (with_device R content_hash chirpstack no_tenant mode hmac decode lower eui a s).1.parking
  unfolding with_device
  with_device-parking eui a s rs = by_verdict _
    where
      by_verdict :
          (v : Verdict)
          → (elim v as (λ _. ProcessingResult × Service R) [
            | allowed ↦
                accept R content_hash chirpstack no_tenant mode hmac decode lower eui
                  (get_space_by_sensor R eui s.parking)
                  a
                  (with_readings rs s)
            | unauthorized ↦ (error_result eui a, with_readings rs s)
            | server_error ↦ (error_result eui a, with_readings rs s)
          ]).1.parking
            ≡ (elim v as (λ _. ProcessingResult × Service R) [
              | allowed ↦
                  accept R content_hash chirpstack no_tenant mode hmac decode lower eui
                    (get_space_by_sensor R eui s.parking)
                    a
                    s
              | unauthorized ↦ (error_result eui a, s)
              | server_error ↦ (error_result eui a, s)
            ]).1.parking
      by_verdict allowed = accept-parking eui (get_space_by_sensor R eui s.parking) a s rs
      by_verdict unauthorized = refl
      by_verdict server_error = refl

  -- The frame counter does not protect the spaces: what an uplink does to them, to their log, to the
  -- displays and to their queue is the same whatever readings are stored already, one of the same
  -- sensor and frame counter included.
  pub replayed_frame_moves_the_space :
      (a : Arrival) (s : Service R) (rs : List SensorReading)
      → (run a (with_readings rs s)).1.parking ≡ (run a s).1.parking
  unfolding process_uplink
  replayed_frame_moves_the_space a s rs =
      elim (Bool-cases (truthy (or_text a.webhook.dev_eui ""))) [
        | inr empty ↦ rw (empty, process_uplink) refl
        | inl given ↦
            elim (Option-cases (normalize_deveui (codes (or_text a.webhook.dev_eui "")))) [
              | inl bad ↦ rw (given, bad, process_uplink) refl
              | inr (cs, normal) ↦
                  rw (given, normal, process_uplink) (with_device-parking (text_of cs) a s rs)
            ]
      ]
