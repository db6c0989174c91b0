-- ===== src/Downlink/Sending.antt =====
-- What the worker does with a command.
use smart_parking_platform.Prelude.{
  ℕ, String, List, [], ◌∷◌, ◌++◌, Bool, true, false, Option, none, some, ◌≡◌, ◌&&◌, arith,
  if◌then◌else◌,
}
use mathlib.Core.List.{append-nil}
use smart_parking_platform.Hex.{codes, from_hex}
use smart_parking_platform.Downlink.Types.{DownlinkCommand, QueueRedis}
use smart_parking_platform.Downlink.Queue.{mark_success, mark_failure}
use smart_parking_platform.Downlink.Bucket.{check_tenant_limit}
use smart_parking_platform.Downlink.Worker.{
  ChirpStack, Downlink, Times, WorkerState, downlink_of, gateway_answer, process_command, bad_hex,
}

module _ (R : QueueRedis) (chirpstack : ChirpStack) where
  abbrev pub gateway_allows : Times → DownlinkCommand → WorkerState R chirpstack → Bool
  gateway_allows t c s = (gateway_answer c.gateway_id t.gateway_at s.buckets).0.0

  abbrev pub tenant_allows : Times → DownlinkCommand → WorkerState R chirpstack → Bool
  tenant_allows t c s =
      (check_tenant_limit c.tenant_id none t.tenant_at
        (gateway_answer c.gateway_id t.gateway_at s.buckets).1).0.0

  -- The payload that is sent: the decoded bytes, if both limits allow the command.
  abbrev pub sendable : Times → DownlinkCommand → WorkerState R chirpstack → Option (List ℕ)
  sendable t c s =
      if gateway_allows t c s && tenant_allows t c s then from_hex (codes c.payload) else none

  abbrev pub calls : DownlinkCommand → Option (List ℕ) → List Downlink
  calls c none = []
  calls c (some bytes) = downlink_of c bytes ∷ []

  abbrev pub accepted : DownlinkCommand → Option (List ℕ) → Bool
  accepted c none = false
  accepted c (some bytes) = elim (chirpstack (downlink_of c bytes)) [ none ↦ true | some e ↦ false ]

  -- The error that is recorded when the command is not accepted.
  abbrev pub refusal_text : Times → DownlinkCommand → WorkerState R chirpstack → String
  refusal_text t c s =
      if gateway_allows t c s
      then (if tenant_allows t c s
          then elim (from_hex (codes c.payload)) [
            | none ↦ bad_hex
            | some bytes ↦ elim (chirpstack (downlink_of c bytes)) [ none ↦ "" | some e ↦ e ]
          ]
          else "Tenant rate limited")
      else "Gateway rate limited"

  -- ChirpStack is asked exactly once if both limits allow the command and its payload is
  -- hexadecimal, and else never. The command is marked as sent exactly if ChirpStack accepts it; in
  -- every other case, a refusal by a limit included, it is marked as failed with the error named.
  process_command_lem :
      (t : Times) (c : DownlinkCommand) (s : WorkerState R chirpstack)
      → let s' = process_command R chirpstack t c s in
        (s'.sent ≡ s.sent ++ calls c (sendable t c s))
        × (s'.store ≡ (
            if accepted c (sendable t c s)
            then mark_success R t.done_at c s.store
            else (mark_failure R t.done_at (refusal_text t c s) true c s.store).1))
  unfolding process_command
  process_command_lem t c s = ground (arith, append-nil s.sent)
