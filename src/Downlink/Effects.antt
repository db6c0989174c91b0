-- ===== src/Downlink/Effects.antt =====
-- What the operations of the queue do to the keys.
use smart_parking_platform.Prelude.{
  ℕ, String, List, [], ◌∷◌, ◌++◌, ◌+◌, ◌≤◌, ◌<◌, Bool, true, false, ◌||◌, not, Option, none, some,
  ◌≡◌, refl, text_eq, text_eq_refl, truthy, text_or_none, leb, keep, arith, eq_iff, if◌then◌else◌,
  Bool-cases, ◌⊎◌, inl, inr,
}
use smart_parking_platform.Redis.{text_at, items_at, hash_at, merged}
use smart_parking_platform.Downlink.Types
use smart_parking_platform.Downlink.Types.{
  DownlinkCommand, Key, Item, CommandHash, QueueRedis, cmd_id, dead, same_item, merge,
}
use smart_parking_platform.Downlink.Queue.{
  hash_of, command_of, failed_once, failure_fields, text_or_empty, bool_text, read_hash, store_new,
  drop_existing, dequeue, mark_failure, requeued, move_to_dead_letter,
}

-- A command as it is read back: an empty optional text is None.
unfoldable pub canonical : DownlinkCommand → DownlinkCommand
canonical c = record c {
  gateway_id = text_or_none (text_or_empty c.gateway_id);
  last_error = text_or_none (text_or_empty c.last_error);
  space_id = text_or_none (text_or_empty c.space_id);
  trigger_source = text_or_none (text_or_empty c.trigger_source);
}

bool_text_lem : (b : Bool) → text_eq (bool_text b) "True" ≡ b
bool_text_lem true = refl
bool_text_lem false = refl

text_or_empty-or_none :
    (o : Option String) → text_or_empty (text_or_none (text_or_empty o)) ≡ text_or_empty o
text_or_empty-or_none none = refl
text_or_empty-or_none (some t) = ground (arith, eq_iff t "")

-- Reading what was stored gives the command back.
pub command_of-hash_of :
    (now : ℕ) (i : String) (c : DownlinkCommand) → command_of now i (hash_of c) ≡ canonical c
unfolding command_of hash_of canonical
command_of-hash_of now i c = rw bool_text_lem

pub hash_of-canonical : (c : DownlinkCommand) → hash_of (canonical c) ≡ hash_of c
unfolding hash_of canonical
hash_of-canonical c = simp text_or_empty-or_none

pub merge-failure_fields :
    (c : DownlinkCommand) (now : ℕ) (e : String)
    → merge (failure_fields (failed_once now e c) e) (hash_of c) ≡ hash_of (failed_once now e c)
unfolding hash_of failure_fields failed_once
merge-failure_fields c now e = refl

-- The queue without the command that is coalesced away.
abbrev pub without : Option String → List Item → List Item
without none xs = xs
without (some old) xs = if truthy old then keep (λ x. not (same_item x (cmd_id old))) xs else xs

merged-hash_of :
    (c : DownlinkCommand) (o : Option CommandHash) → merged merge (hash_of c) o ≡ hash_of c
unfolding hash_of
merged-hash_of c none = refl
merged-hash_of c (some h) = refl

module _ (R : QueueRedis) where
  open R use {
    Store, view, view-set, view-delete, view-rpush, view-lrem, view-lpop, view-hset, view-incr,
    view-ltrim,
  }

  abbrev pub queue : Store → List Item
  queue s = items_at (view s Types.pending)

  abbrev pub data_of : String → Store → Option CommandHash
  data_of i s = hash_at (view s (Types.cmd i))

  -- The id tracked for a device.
  abbrev pub tracked : String → Store → Option String
  tracked eui s = text_at (view s (Types.coalesce eui))

  pub queue-drop_existing :
      (o : Option String) (s : Store) → queue (drop_existing R o s) ≡ without o (queue s)
  unfolding drop_existing
  queue-drop_existing none s = refl
  queue-drop_existing (some old) s = elim (Bool-cases (truthy old)) [
    | inl p ↦ rw p (simp (view-incr, view-delete, view-lrem))
    | inr n ↦ rw n refl
  ]

  pub data_of-drop_existing_self :
      (old : String) (s : Store)
      → truthy old ≡ true
      → data_of old (drop_existing R (some old) s) ≡ none
  unfolding drop_existing
  data_of-drop_existing_self old s h = rw h (simp (view-incr, view-delete, text_eq_refl))

  pub queue-store_new :
      (c : DownlinkCommand) (s : Store) → queue (store_new R c s) ≡ queue s ++ cmd_id c.id ∷ []
  unfolding store_new
  queue-store_new c s = simp (view-incr, view-set, view-rpush, view-hset)

  pub data_of-store_new :
      (c : DownlinkCommand) (i : String) (s : Store)
      → data_of i (store_new R c s) ≡ (if text_eq c.id i then some (hash_of c) else data_of i s)
  unfolding store_new
  data_of-store_new c i s = elim (Bool-cases (text_eq c.id i)) [
    | inl p ↦ rw p (simp (view-incr, view-set, view-rpush, view-hset, merged-hash_of, p))
    | inr n ↦ rw n (simp (view-incr, view-set, view-rpush, view-hset, n))
  ]

  pub tracked-store_new :
      (c : DownlinkCommand) (s : Store) → tracked c.device_eui (store_new R c s) ≡ some c.id
  unfolding store_new
  tracked-store_new c s = simp (view-incr, view-set, text_eq_refl)

  -- `dequeue` on a queue with a command id at its head.
  pub dequeue-cons :
      (now : ℕ) (i : String) (rest : List Item) (s : Store)
      → queue s ≡ cmd_id i ∷ rest
      → (dequeue R now s).0 ≡ read_hash now i (data_of i s)
  dequeue-cons now i rest s h = unfold dequeue in rw (h, dequeue) (simp view-lpop)

  pub queue-dequeue :
      (now : ℕ) (item : Item) (rest : List Item) (s : Store)
      → queue s ≡ item ∷ rest
      → queue (dequeue R now s).1 ≡ rest
  queue-dequeue now item rest s h = unfold dequeue in rw (h, dequeue) (simp view-lpop (rw h))

  pub data_of-dequeue :
      (now : ℕ) (item : Item) (rest : List Item) (i : String) (s : Store)
      → queue s ≡ item ∷ rest
      → data_of i (dequeue R now s).1 ≡ data_of i s
  data_of-dequeue now item rest i s h = unfold dequeue in rw (h, dequeue) (simp view-lpop)

  -- A failure with attempts left puts the id back at the end of the queue.
  pub queue-requeued :
      (e : String) (c : DownlinkCommand) (s : Store)
      → queue (requeued R e c s) ≡ queue s ++ cmd_id c.id ∷ []
  unfolding requeued
  queue-requeued e c s = simp (view-incr, view-rpush, view-hset)

  pub data_of-requeued :
      (e : String) (c : DownlinkCommand) (s : Store)
      → data_of c.id (requeued R e c s) ≡ some (merged merge (failure_fields c e) (data_of c.id s))
  unfolding requeued
  data_of-requeued e c s = simp (view-incr, view-rpush, view-hset, text_eq_refl)

  abbrev pub dead_letters : Store → List Item
  dead_letters s = items_at (view s Types.dead_letter)

  pub dead_letters-dequeue :
      (now : ℕ) (item : Item) (rest : List Item) (s : Store)
      → queue s ≡ item ∷ rest
      → dead_letters (dequeue R now s).1 ≡ dead_letters s
  dead_letters-dequeue now item rest s h = unfold dequeue in rw (h, dequeue) (simp view-lpop)

  pub dead_letters-requeued :
      (e : String) (c : DownlinkCommand) (s : Store)
      → dead_letters (requeued R e c s) ≡ dead_letters s
  unfolding requeued
  dead_letters-requeued e c s = simp (view-incr, view-rpush, view-hset)

  pub mark_failure-again :
      (now : ℕ) (e : String) (c : DownlinkCommand) (s : Store)
      → c.attempts < 4
      → mark_failure R now e true c s ≡ (failed_once now e c, requeued R e (failed_once now e c) s)
  unfolding mark_failure failed_once
  mark_failure-again now e c s h =
      let few : leb 5 (c.attempts + 1) ≡ false = ground arith in rw few refl

  -- The last failure, or one that is not to be requeued.
  pub mark_failure-dead :
      (now : ℕ) (e : String) (b : Bool) (c : DownlinkCommand) (s : Store)
      → (4 ≤ c.attempts) ⊎ (b ≡ false)
      → let s' = (mark_failure R now e b c s).1 in
        (queue s' ≡ queue s)
        × (dead_letters s' ≡ dead_letters s ++ dead (failed_once now e c) now ∷ [])
        × (data_of c.id s' ≡ none)
        × (tracked c.device_eui s' ≡ none)
  unfolding mark_failure failed_once move_to_dead_letter
  mark_failure-dead now e b c s h =
      let over : (leb 5 (c.attempts + 1) || not b) ≡ true = ground arith in
      rw over (
        simp (view-incr, view-delete, view-rpush),
        simp (view-incr, view-delete, view-rpush),
        simp (view-incr, view-delete, view-rpush, text_eq_refl),
        simp (view-incr, view-delete, view-rpush, text_eq_refl),
      )
