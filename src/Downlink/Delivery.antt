-- ===== src/Downlink/Delivery.antt =====
-- What reaches the worker: commands that are enqueued, deduplicated, coalesced, and replaced while
-- they are being sent.
use smart_parking_platform.Prelude.{
  ℕ, String, [], ◌∷◌, ◌++◌, ◌<◌, Bool, true, false, Option, none, some, ◌≡◌, ◌≢◌, refl, ap,
  text_eq_refl, eqb_of_ne, truthy, ltb, ◌+◌, ◌*◌, if◌then◌else◌, Bool-cases, inl, inr, ◌∙◌,
}
use smart_parking_platform.Redis.{text_at}
use smart_parking_platform.Downlink.Types
use smart_parking_platform.Downlink.Types.{
  DownlinkCommand, CommandHash, Item, QueueRedis, cmd_id, same_item, merge,
}
use smart_parking_platform.Downlink.Queue.{
  Request, hash_of, command_of, read_hash, new_command, failed_once, failure_fields, is_last,
  store_new, drop_existing, enqueue, dequeue, mark_success, mark_failure, record_latency, requeued,
  expire_command, cmd_ttl_seconds,
}
use smart_parking_platform.Downlink.Effects.{
  canonical, command_of-hash_of, without, queue, data_of, tracked, queue-drop_existing,
  data_of-drop_existing_self, queue-store_new, data_of-store_new, dequeue-cons, queue-dequeue,
  data_of-dequeue, queue-requeued, data_of-requeued, mark_failure-again,
}

-- The data that is left of a command whose hash was deleted before it failed.
abbrev pub blank : ℕ → ℕ → String → DownlinkCommand → DownlinkCommand
blank later now e c = command_of later c.id (failure_fields (failed_once now e c) e)

module _ (R : QueueRedis) (digest : String → String → ℕ → String) where
  open R use {Store, view, view-set, view-delete, view-rpush, view-incr, view-ltrim}

  -- Whether the last command sent to the device has the content of the request.
  abbrev pub is_repeat : Request → Store → Bool
  is_repeat q s =
      is_last (text_at (view s (Types.last_hash q.device_eui)))
        (digest q.device_eui q.payload q.fport)

  abbrev pub command_for : String → ℕ → Request → DownlinkCommand
  command_for new_id now q = new_command new_id now (digest q.device_eui q.payload q.fport) q

  enqueue-accepted :
      (new_id : String) (now : ℕ) (q : Request) (s : Store)
      → is_repeat q s ≡ false
      → enqueue R digest new_id now q s ≡ (
        some new_id,
        store_new R (command_for new_id now q) (drop_existing R (tracked R q.device_eui s) s),
      )
  unfolding enqueue
  enqueue-accepted new_id now q s h = rw h

  queue-enqueue :
      (new_id : String) (now : ℕ) (q : Request) (s : Store)
      → is_repeat q s ≡ false
      → queue R (enqueue R digest new_id now q s).1
        ≡ without (tracked R q.device_eui s) (queue R s) ++ cmd_id new_id ∷ []
  unfolding new_command
  queue-enqueue new_id now q s h =
      rw (enqueue-accepted new_id now q s h) (simp (queue-store_new, queue-drop_existing))

  data_of-expire_command :
      (i : String) (now later : ℕ) (h : CommandHash) (s : Store)
      → data_of R i s ≡ some h
      → data_of R i (expire_command R i now later s)
        ≡ (if ltb later (now + cmd_ttl_seconds * 1000) then some h else none)
  unfolding expire_command
  data_of-expire_command i now later h s there =
      elim (Bool-cases (ltb later (now + cmd_ttl_seconds * 1000))) [
        | inl soon ↦ rw soon there
        | inr late ↦ rw late (simp (view-delete, text_eq_refl))
      ]

  queue-expire_command :
      (i : String) (now later : ℕ) (s : Store)
      → queue R (expire_command R i now later s) ≡ queue R s
  unfolding expire_command
  queue-expire_command i now later s =
      elim (Bool-cases (ltb later (now + cmd_ttl_seconds * 1000))) [
        | inl soon ↦ rw soon refl
        | inr late ↦ rw late (simp view-delete)
      ]

  -- If the content is not that of the last command sent to the device, and the queue holds nothing
  -- but the command that is coalesced away, then the next dequeue, when nothing else happens in
  -- between, returns the new command, field by field as it was enqueued (an empty optional text as
  -- None), within the hour that its data lives, and None after that. It leaves the queue empty.
  pub dequeue-enqueue :
      (new_id : String) (now later : ℕ) (q : Request) (s : Store)
      → is_repeat q s ≡ false
      → without (tracked R q.device_eui s) (queue R s) ≡ []
      → let s' = expire_command R new_id now later (enqueue R digest new_id now q s).1 in
        ((dequeue R later s').0 ≡ (
          if ltb later (now + cmd_ttl_seconds * 1000)
          then some (canonical (command_for new_id now q))
          else none))
        × (queue R (dequeue R later s').1 ≡ [])
  unfolding new_command read_hash
  dequeue-enqueue new_id now later q s fresh alone =
      let s0 = (enqueue R digest new_id now q s).1 in
      let s' = expire_command R new_id now later s0 in
      let one : queue R s' ≡ cmd_id new_id ∷ [] =
        queue-expire_command new_id now later s0 ∙ rw (queue-enqueue new_id now q s fresh, alone) in
      let stored : data_of R new_id s0 ≡ some (hash_of (command_for new_id now q)) =
        rw (enqueue-accepted new_id now q s fresh) (simp (data_of-store_new, text_eq_refl)) in
      let left =
        data_of-expire_command new_id now later (hash_of (command_for new_id now q)) s0 stored in
      (
        elim (Bool-cases (ltb later (now + cmd_ttl_seconds * 1000))) [
          | inl soon ↦
              rw (dequeue-cons R later new_id [] s' one, left, soon)
                (ap some (command_of-hash_of later new_id (command_for new_id now q)))
          | inr late ↦ rw (dequeue-cons R later new_id [] s' one, left, late) refl
        ],
        queue-dequeue R later (cmd_id new_id) [] s' one,
      )

  is_repeat-mark_success :
      (sent_at : ℕ) (c : DownlinkCommand) (q : Request) (s : Store)
      → q.device_eui ≡ c.device_eui
      → digest q.device_eui q.payload q.fport ≡ c.content_hash
      → is_repeat q (mark_success R sent_at c s) ≡ true
  unfolding mark_success record_latency is_last
  is_repeat-mark_success sent_at c q s dev same =
      simp (view-incr, view-delete, view-set, view-rpush, view-ltrim, dev, text_eq_refl)
        (rw (← dev, same) (text_eq_refl c.content_hash))

  -- After a command was sent with success, a request with the same device and content hash returns
  -- None, and changes neither the queue nor the data of any command.
  enqueue-mark_success :
      (new_id : String) (sent_at now : ℕ) (c : DownlinkCommand) (q : Request) (s : Store)
      → q.device_eui ≡ c.device_eui
      → digest q.device_eui q.payload q.fport ≡ c.content_hash
      → let s' = mark_success R sent_at c s in
        ((enqueue R digest new_id now q s').0 ≡ none)
        × (queue R (enqueue R digest new_id now q s').1 ≡ queue R s)
        × ((i : String) → data_of R i (enqueue R digest new_id now q s').1 ≡ data_of R i s')
  unfolding enqueue
  enqueue-mark_success new_id sent_at now c q s dev same =
      rw (is_repeat-mark_success sent_at c q s dev same) (
        refl,
        unfold mark_success record_latency in
            simp (view-incr, view-delete, view-set, view-rpush, view-ltrim),
        λ i. simp view-incr,
      )

  -- The store when a newer command was enqueued at `t`, and when the older one then failed at `now`.
  abbrev pub replaced : String → ℕ → Request → Store → Store
  replaced new_id t q s = (enqueue R digest new_id t q s).1

  abbrev pub failed : String → ℕ → ℕ → String → DownlinkCommand → Request → Store → Store
  failed new_id t now e c q s = (mark_failure R now e true c (replaced new_id t q s)).1

  module _ (new_id : String) (t now later : ℕ) (e : String) (c : DownlinkCommand) (q : Request)
      (s : Store) (idle : queue R s ≡ []) (in_flight : tracked R q.device_eui s ≡ some c.id)
      (named : truthy c.id ≡ true) (distinct : new_id ≢ c.id) (fresh : is_repeat q s ≡ false)
      (retries : c.attempts < 4) where
    failed-eq :
        (failed new_id t now e c q s) ≡ requeued R e (failed_once now e c) (replaced new_id t q s)
    failed-eq =
        ap (λ (x : DownlinkCommand × Store). x.1)
          (mark_failure-again R now e c (replaced new_id t q s) retries)

    queue-replaced : queue R (replaced new_id t q s) ≡ cmd_id new_id ∷ []
    queue-replaced = rw (queue-enqueue new_id t q s fresh, in_flight, named, idle) refl

    data_of-replaced : data_of R c.id (replaced new_id t q s) ≡ none
    unfolding new_command
    data_of-replaced =
        rw
          (ap (λ (x : Option String × Store). x.1) (enqueue-accepted new_id t q s fresh), in_flight)
          (rw data_of-store_new
            (rw (eqb_of_ne new_id c.id distinct) (data_of-drop_existing_self R c.id s named)))

    queue-failed : queue R (failed new_id t now e c q s) ≡ cmd_id new_id ∷ cmd_id c.id ∷ []
    unfolding failed_once
    queue-failed = rw failed-eq (rw (queue-requeued, queue-replaced) refl)

    data_of-failed :
        data_of R c.id (failed new_id t now e c q s) ≡ some (failure_fields (failed_once now e c) e)
    unfolding failed_once
    data_of-failed = rw failed-eq (
        rw (data_of-requeued R e (failed_once now e c) (replaced new_id t q s), data_of-replaced)
          refl)

    -- A command is being sent, so that the queue is empty while the device's tracker still names it.
    -- If a newer command for the device is enqueued in that time, which deletes the data of the
    -- first, and the first then fails with retries left, the queue holds both ids, and after the
    -- newer command the worker gets one with the old id, no device, no payload, and port 15.
    pub replaced_in_flight_comes_back_blank :
        (queue R (failed new_id t now e c q s) ≡ cmd_id new_id ∷ cmd_id c.id ∷ [])
        × ((dequeue R later (dequeue R later (failed new_id t now e c q s)).1).0
            ≡ some (blank later now e c))
        × ((blank later now e c).id ≡ c.id)
        × ((blank later now e c).device_eui ≡ "")
        × ((blank later now e c).payload ≡ "")
        × ((blank later now e c).fport ≡ 15)
    unfolding command_of failure_fields read_hash
    replaced_in_flight_comes_back_blank =
        let s1 = (dequeue R later (failed new_id t now e c q s)).1 in
        let rest =
          queue-dequeue R later (cmd_id new_id) (cmd_id c.id ∷ []) (failed new_id t now e c q s)
            queue-failed in
        let kept =
          data_of-dequeue R later (cmd_id new_id) (cmd_id c.id ∷ []) c.id
            (failed new_id t now e c q s) queue-failed in
        (
          queue-failed,
          rw (dequeue-cons R later c.id [] s1 rest, kept, data_of-failed) refl,
          refl,
          refl,
          refl,
          refl,
        )
