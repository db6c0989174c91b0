-- ===== src/Downlink/Examples.antt =====
-- The theorems on the queue at concrete inputs, over the Redis in memory.
use smart_parking_platform.Prelude.{
  text_eq, ℕ, String, List, [], ◌∷◌, ◌++◌, ◌+◌, ◌*◌, ◌≤◌, false, none, some, ◌≡◌, refl, arith,
  length, eq_iff, if◌then◌else◌,
}
use smart_parking_platform.Redis.{Cell, absent, string, list, hash, memory}
use smart_parking_platform.Downlink.Types
use smart_parking_platform.Downlink.Types.{
  DownlinkCommand, Key, Item, CommandHash, QueueRedis, cmd_id, dead, same_key, same_item, merge,
}
use smart_parking_platform.Downlink.Queue.{
  is_last, Request, hash_of, enqueue, dequeue, expire_command,
}
use smart_parking_platform.Downlink.Effects.{canonical, queue, data_of, dead_letters}
use smart_parking_platform.Downlink.Delivery.{
  command_for, blank, failed, dequeue-enqueue, replaced_in_flight_comes_back_blank,
}
use smart_parking_platform.Downlink.Retry.{
  HoldsOne, Failure, failing_round, failing_rounds, retries_are_bounded,
}
use smart_parking_platform.Downlink.Bucket.{Bucket, new_tokens, one_token, check_token_bucket}
use smart_parking_platform.Downlink.BucketBounds.{allowed, total, allowed-le-burst_and_rate}
use smart_parking_platform.Downlink.Worker.{ChirpStack, Times, WorkerState}

abbrev in_memory : QueueRedis
in_memory = memory Key Item CommandHash same_key same_item merge

abbrev digest : String → String → ℕ → String
digest eui payload fport = payload

abbrev empty : Key → Cell Item CommandHash
empty k = absent

abbrev red : Request
red = record {
  device_eui = "E1";
  payload = "FF0000";
  fport = 15;
  tenant_id = "t";
  confirmed = false;
  gateway_id = none;
  space_id = some "s";
  trigger_source = none;
}

abbrev green : Request
green = record red { payload = "00FF00" }

dequeue-enqueue_example :
    let s' = expire_command in_memory "c1" 5 9 (enqueue in_memory digest "c1" 5 red empty).1 in
    ((dequeue in_memory 9 s').0 ≡ some (canonical (command_for in_memory digest "c1" 5 red)))
    × (queue in_memory (dequeue in_memory 9 s').1 ≡ [])
unfolding is_last
dequeue-enqueue_example = dequeue-enqueue in_memory digest "c1" 5 9 red empty refl refl

abbrev red_command : DownlinkCommand
red_command = record {
  id = "c1";
  device_eui = "E1";
  tenant_id = "t";
  gateway_id = none;
  payload = "FF0000";
  fport = 15;
  confirmed = false;
  content_hash = "FF0000";
  created_at = 5;
  attempts = 0;
  last_error = none;
  last_attempt_at = none;
  space_id = some "s";
  trigger_source = none;
}

-- The first command is being sent: it was popped, and its data and its tracker are there.
abbrev sending : Key → Cell Item CommandHash
sending (Types.cmd i) = if text_eq i "c1" then hash (hash_of red_command) else absent
sending (Types.coalesce d) = if text_eq d "E1" then string "c1" else absent
sending k = absent

replaced_in_flight_comes_back_blank_example :
    let s' = failed in_memory digest "c2" 6 8 "timeout" red_command green sending in
    (queue in_memory s' ≡ cmd_id "c2" ∷ cmd_id "c1" ∷ [])
    × ((dequeue in_memory 9 (dequeue in_memory 9 s').1).0 ≡ some (blank 9 8 "timeout" red_command))
    × ((blank 9 8 "timeout" red_command).id ≡ "c1")
    × ((blank 9 8 "timeout" red_command).device_eui ≡ "")
    × ((blank 9 8 "timeout" red_command).payload ≡ "")
    × ((blank 9 8 "timeout" red_command).fport ≡ 15)
unfolding is_last
replaced_in_flight_comes_back_blank_example =
    replaced_in_flight_comes_back_blank in_memory digest "c2" 6 8 9 "timeout" red_command green
      sending refl refl refl (λ e. cc ((eq_iff "c2" "c1").1 e)) refl (omega arith)

-- The command alone in the queue.
abbrev waiting : Key → Cell Item CommandHash
waiting Types.pending = list (cmd_id "c1" ∷ [])
waiting (Types.cmd i) = if text_eq i "c1" then hash (hash_of red_command) else absent
waiting k = absent

retries_are_bounded_example :
    ((fs : List Failure)
      → length fs ≤ 4
      → (c' : DownlinkCommand) × HoldsOne in_memory c' (failing_rounds in_memory fs waiting)
        × (c'.id ≡ "c1")
        × (c'.attempts ≡ length fs)
        × (dead_letters in_memory (failing_rounds in_memory fs waiting)
            ≡ dead_letters in_memory waiting))
    × ((fs : List Failure) (f : Failure)
        → length fs ≡ 4
        → let s' = failing_round in_memory f (failing_rounds in_memory fs waiting) in
          (d : DownlinkCommand) × (queue in_memory s' ≡ [])
          × (data_of in_memory "c1" s' ≡ none)
          × (dead_letters in_memory s' ≡ dead_letters in_memory waiting ++ dead d f.0 ∷ [])
          × (d.id ≡ "c1")
          × (d.attempts ≡ 5)
          × (d.last_error ≡ some f.1))
retries_are_bounded_example =
    retries_are_bounded in_memory red_command waiting (record { queued = refl; stored = refl }) refl

abbrev drained : Bucket
drained = record { tokens = 0; last_update = 1000 }

drained_refuses : check_token_bucket 30 1500 (some drained) ≡ ((false, some 2), some drained)
unfolding check_token_bucket new_tokens
drained_refuses = refl

allowed-le-burst_and_rate_example :
    allowed 30 0 none (0 ∷ 0 ∷ 2000 ∷ []) * one_token
    ≤ 30 * one_token + 30 * total (0 ∷ 0 ∷ 2000 ∷ [])
allowed-le-burst_and_rate_example = allowed-le-burst_and_rate 30 0 none (0 ∷ 0 ∷ 2000 ∷ []) tt

abbrev accepting : ChirpStack
accepting d = none

abbrev idle : WorkerState in_memory accepting
idle = record {
  store = waiting;
  buckets = record { gateway = λ _. none; tenant = λ _. none };
  sent = [];
}

abbrev at_once : Times
at_once = record { gateway_at = 1; tenant_at = 1; done_at = 2 }
