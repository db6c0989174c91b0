-- ===== src/Downlink/Retry.antt =====
-- A command that fails again and again: retries, and the dead-letter list.
use smart_parking_platform.Prelude.{
  ℕ, String, List, [], ◌∷◌, ◌++◌, ◌+◌, ◌<◌, ◌≤◌, true, Option, none, some, ◌≡◌, refl, ap, ◌∙◌,
  length, arith, inl,
}
use smart_parking_platform.Downlink.Types.{DownlinkCommand, Item, QueueRedis, cmd_id, dead, merge}
use smart_parking_platform.Downlink.Queue.{
  hash_of, read_hash, failed_once, failure_fields, dequeue, mark_failure, requeued,
}
use smart_parking_platform.Downlink.Effects.{
  canonical, command_of-hash_of, queue, data_of, dead_letters, dequeue-cons, queue-dequeue,
  data_of-dequeue, dead_letters-dequeue, dead_letters-requeued, queue-requeued, data_of-requeued,
  mark_failure-again, mark_failure-dead,
}

-- When a send failed, and with what error.
abbrev pub Failure : Type 0
Failure = ℕ × String

merge-canonical :
    (now : ℕ) (e : String) (c : DownlinkCommand)
    → merge (failure_fields (failed_once now e (canonical c)) e) (hash_of c)
      ≡ hash_of (failed_once now e c)
unfolding hash_of failure_fields failed_once canonical
merge-canonical now e c = refl

module _ (R : QueueRedis) where
  open R use {Store}

  fail : Failure → Option DownlinkCommand × Store → Store
  fail (now, e) (none, s) = s
  fail (now, e) (some c, s) = (mark_failure R now e true c s).1

  -- The worker takes the next command, and its send fails.
  unfoldable pub failing_round : Failure → Store → Store
  unfolding fail
  failing_round f s = fail f (dequeue R f.0 s)

  unfoldable pub failing_rounds : List Failure → Store → Store
  failing_rounds [] s = s
  failing_rounds (f ∷ fs) s = failing_rounds fs (failing_round f s)

  -- The queue holds one command, stored under its id.
  pub record HoldsOne (c : DownlinkCommand) (s : Store) : Type 0 where
    pub queued : queue R s ≡ cmd_id c.id ∷ []
    pub stored : data_of R c.id s ≡ some (hash_of c)

  module _ (f : Failure) (c : DownlinkCommand) (s : Store) (h : HoldsOne c s) where
    taken : (dequeue R f.0 s).0 ≡ some (canonical c)
    unfolding read_hash
    taken =
        rw (dequeue-cons R f.0 c.id [] s h.queued, h.stored)
          (ap some (command_of-hash_of f.0 c.id c))

    failing_round-eq :
        failing_round f s ≡ (mark_failure R f.0 f.1 true (canonical c) (dequeue R f.0 s).1).1
    unfolding failing_round
    failing_round-eq = ap (λ (o : Option DownlinkCommand). fail f (o, (dequeue R f.0 s).1)) taken

    round_again :
        c.attempts < 4
        → HoldsOne (failed_once f.0 f.1 c) (failing_round f s)
          × (dead_letters R (failing_round f s) ≡ dead_letters R s)
    unfolding failed_once canonical
    round_again few =
        let s1 = (dequeue R f.0 s).1 in
        let c' = failed_once f.0 f.1 (canonical c) in
        let again : failing_round f s ≡ requeued R f.1 c' s1 =
          failing_round-eq
          ∙ ap (λ (x : DownlinkCommand × Store). x.1)
              (mark_failure-again R f.0 f.1 (canonical c) s1 few) in
        let empty = queue-dequeue R f.0 (cmd_id c.id) [] s h.queued in
        let still = data_of-dequeue R f.0 (cmd_id c.id) [] c.id s h.queued in
        (
          record {
            queued = rw again (rw (queue-requeued, empty));
            stored = rw again (
                rw (data_of-requeued R f.1 c' s1, still, h.stored)
                  (ap some (merge-canonical f.0 f.1 c)));
          },
          rw again
              (rw (dead_letters-requeued, dead_letters-dequeue R f.0 (cmd_id c.id) [] s h.queued)),
        )

    round_dead :
        4 ≤ c.attempts
        → let s' = failing_round f s in
          (queue R s' ≡ [])
          × (data_of R c.id s' ≡ none)
          × (dead_letters R s'
              ≡ dead_letters R s ++ dead (failed_once f.0 f.1 (canonical c)) f.0 ∷ [])
    unfolding canonical
    round_dead many =
        let s1 = (dequeue R f.0 s).1 in
        let (q, d, gone, _) = mark_failure-dead R f.0 f.1 true (canonical c) s1 (inl many) in
        (
          rw failing_round-eq (q ∙ queue-dequeue R f.0 (cmd_id c.id) [] s h.queued),
          rw failing_round-eq gone,
          rw failing_round-eq (d ∙ rw (dead_letters-dequeue R f.0 (cmd_id c.id) [] s h.queued)),
        )

  -- While attempts are left the command stays in the queue, with the number of its failures.
  rounds_again :
      (fs : List Failure) (c : DownlinkCommand) (s : Store)
      → HoldsOne c s
      → c.attempts + length fs ≤ 4
      → (c' : DownlinkCommand) × HoldsOne c' (failing_rounds fs s)
        × (c'.id ≡ c.id)
        × (c'.attempts ≡ c.attempts + length fs)
        × (dead_letters R (failing_rounds fs s) ≡ dead_letters R s)
  unfolding failing_rounds failed_once
  rounds_again [] c s h few = (c, h, refl, omega arith, refl)
  rounds_again (f ∷ fs) c s h few =
      let (held, kept) = round_again f c s h (omega arith) in
      let (c', held', same, count, kept') =
        rounds_again fs (failed_once f.0 f.1 c) (failing_round f s) held (omega arith) in
      (c', held', same, omega (arith, count), kept' ∙ kept)

  -- A fresh command that is alone in the queue and whose sends fail is in the queue after each of the
  -- first four failures, with their number as its attempts and nothing dead-lettered. The fifth
  -- failure removes it and its data, and adds one dead letter, with its id, five attempts and the
  -- last error.
  pub retries_are_bounded :
      (c : DownlinkCommand) (s : Store)
      → HoldsOne c s
      → c.attempts ≡ 0
      → ((fs : List Failure)
          → length fs ≤ 4
          → (c' : DownlinkCommand) × HoldsOne c' (failing_rounds fs s)
            × (c'.id ≡ c.id)
            × (c'.attempts ≡ length fs)
            × (dead_letters R (failing_rounds fs s) ≡ dead_letters R s))
        × ((fs : List Failure) (f : Failure)
            → length fs ≡ 4
            → let s' = failing_round f (failing_rounds fs s) in
              (d : DownlinkCommand) × (queue R s' ≡ [])
              × (data_of R c.id s' ≡ none)
              × (dead_letters R s' ≡ dead_letters R s ++ dead d f.0 ∷ [])
              × (d.id ≡ c.id)
              × (d.attempts ≡ 5)
              × (d.last_error ≡ some f.1))
  retries_are_bounded c s h zero_attempts = (
    λ fs few.
        let (c', held, same, count, kept) = rounds_again fs c s h (omega arith) in
        (c', held, same, omega (arith, count), kept),
    λ fs f four.
        let (c', held, same, count, kept) = rounds_again fs c s h (omega arith) in
        let (gone, no_data, letters) =
          round_dead f c' (failing_rounds fs s) held (omega (arith, count)) in
        (
          failed_once f.0 f.1 (canonical c'),
          gone,
          rw (← same) no_data,
          letters
              ∙ ap (λ (l : List Item). l ++ dead (failed_once f.0 f.1 (canonical c')) f.0 ∷ [])
                  kept,
          unfold failed_once canonical in same,
          unfold failed_once canonical in omega (arith, count),
          unfold failed_once in refl,
        ),
  )
