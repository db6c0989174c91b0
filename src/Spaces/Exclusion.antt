-- ===== src/Spaces/Exclusion.antt =====
-- When the lock of a space keeps its clients apart, and when it does not.
use smart_parking_platform.Prelude.{
  ℕ, ◌+◌, ◌≤◌, List, [], ◌∷◌, Option, none, some, Bool, true, false, ◌&&◌, ◌||◌, not, ltb, any,
  first, keep, tally, tally-keep-le, tally-rewrite, All, All-keep, All-rewrite, ◌≡◌, refl, arith,
  Bool-cases, Option-cases, inl, inr,
}
use smart_parking_platform.Spaces.Lock.{Lease, is_held, set_nx, still_owned}
use smart_parking_platform.Spaces.Protocol.{
  Holder, System, Event, try_set, check, delete, tick, is_client, is_inside, is_deleting, enter,
  compare_value, remove_key, step, run_events,
}

-- A holder whose lease has not expired.
unfoldable pub is_live : ℕ → Holder → Bool
is_live now h = ltb now h.lease.expires

abbrev pub live_holders : System → ℕ
live_holders s = tally (is_live s.now) s.holders

abbrev pub Owns : ℕ → Option Lease → Holder → Type 0
Owns now lock h = is_live now h ≡ true → lock ≡ some h.lease

-- At most one live holder, whose lease is the key.
pub record IsExclusive (s : System) : Type 0 where
  pub few : live_holders s ≤ 1
  pub own : All (Owns s.now s.lock) s.holders

-- A DELETE comes while the lease of its client lasts.
unfoldable pub is_timely : Event → System → Bool
is_timely (delete c) s =
    not (any (is_deleting c) s.holders) || any (λ h. is_client c h && is_live s.now h) s.holders
is_timely _ s = true

abbrev pub AllTimely : List Event → System → Type 0
AllTimely [] s = Unit
AllTimely (e ∷ es) s = (is_timely e s ≡ true) × AllTimely es (step e s)

free_is_empty :
    (now : ℕ) (lock : Option Lease) (hs : List Holder)
    → is_held now lock ≡ false
    → All (Owns now lock) hs
    → tally (is_live now) hs ≡ 0
unfolding is_held is_live
free_is_empty now lock [] h own = refl
free_is_empty now lock (x ∷ xs) h own = elim (Bool-cases (is_live now x)) [
  | inl live ↦ let key = own.0 live in ground (arith, h, key, live)
  | inr dead ↦ ground (arith, dead, free_is_empty now lock xs h own.1)
]

dead_own :
    (now : ℕ) (lock : Option Lease) (hs : List Holder)
    → tally (is_live now) hs ≡ 0
    → All (Owns now lock) hs
dead_own now lock [] h = tt
dead_own now lock (x ∷ xs) h =
    ((λ live. ground (arith, h, live)), dead_own now lock xs (ground (arith, h)))

tick_few : (now n : ℕ) (hs : List Holder) → tally (is_live (now + n)) hs ≤ tally (is_live now) hs
unfolding is_live
tick_few now n [] = omega arith
tick_few now n (x ∷ xs) = ground (arith, tick_few now n xs)

tick_own :
    (now n : ℕ) (lock : Option Lease) (hs : List Holder)
    → All (Owns now lock) hs
    → All (Owns (now + n) lock) hs
unfolding is_live
tick_own now n lock [] own = tt
tick_own now n lock (x ∷ xs) own =
    ((λ live. own.0 (ground (arith, live))), tick_own now n lock xs own.1)

some_live :
    (c now : ℕ) (hs : List Holder)
    → any (λ h. is_client c h && is_live now h) hs ≡ true
    → 1 ≤ tally (is_live now) hs
some_live c now [] there = ground arith
some_live c now (x ∷ xs) there = ground (arith, there, some_live c now xs)

-- Once the live holder has left, nobody is live.
alone :
    (c now : ℕ) (hs : List Holder)
    → any (λ h. is_client c h && is_live now h) hs ≡ true
    → tally (is_live now) hs ≤ 1
    → tally (is_live now) (keep (λ g. not (is_client c g)) hs) ≡ 0
alone c now [] there few = ground arith
alone c now (x ∷ xs) there few = elim (Bool-cases (is_client c x && is_live now x)) [
  | inl hit ↦
      let rest : tally (is_live now) xs ≤ 0 = ground (arith, few, hit) in
      let less = tally-keep-le (is_live now) (λ g. not (is_client c g)) xs in
      ground (arith, hit, rest, less)
  | inr miss ↦
      let later : any (λ h. is_client c h && is_live now h) xs ≡ true =
        ground (arith, there, miss) in
      let one = some_live c now xs later in
      let fewer : tally (is_live now) xs ≤ 1 = ground (arith, few) in
      let dead : is_live now x ≡ false = ground (arith, few, one) in
      ground (arith, dead, alone c now xs later fewer)
]

enter-IsExclusive : (c value : ℕ) (s : System) → IsExclusive s → IsExclusive (enter c value s)
unfolding enter
enter-IsExclusive c value s h = elim (Bool-cases (any (is_client c) s.holders)) [
  | inl busy ↦ rw (busy, enter) h
  | inr away ↦ elim (Option-cases (set_nx value s.now s.lock)) [
    | inl taken ↦ rw (away, taken, enter) h
    | inr (l, got) ↦
        let open_now : is_held s.now s.lock ≡ false = unfold set_nx in ground (arith, got) in
        let nobody = free_is_empty s.now s.lock s.holders open_now h.own in
        let new : Holder = record { client = c; lease = l; deleting = false } in
        let own' : All (Owns s.now (some l)) (new ∷ s.holders) =
          ((λ live. refl), dead_own s.now (some l) s.holders nobody) in
        rw (away, got, enter) (record { few = ground (arith, nobody); own = own' })
  ]
]

compare_value-IsExclusive : (c : ℕ) (s : System) → IsExclusive s → IsExclusive (compare_value c s)
unfolding compare_value
compare_value-IsExclusive c s h = elim (Option-cases (first (is_inside c) s.holders)) [
  | inl gone ↦ rw (gone, compare_value) h
  | inr (g, there) ↦ elim (Bool-cases (still_owned g.lease.value s.now s.lock)) [
    | inl own ↦
        let same =
          tally-rewrite (is_live s.now) (is_inside c) (λ q. record q { deleting = true }) s.holders
            (λ q. unfold is_live in refl) in
        rw (there, own, compare_value)
          (record {
            few = ground (arith, same, h.few);
            own =
                All-rewrite (Owns s.now s.lock) (is_inside c) (λ q. record q { deleting = true })
                  s.holders (λ q k live. k (unfold is_live in live)) h.own;
          })
    | inr lost ↦
        let fewer = tally-keep-le (is_live s.now) (λ q. not (is_client c q)) s.holders in
        rw (there, lost, compare_value)
          (record {
            few = ground (arith, fewer, h.few);
            own = All-keep (Owns s.now s.lock) (λ q. not (is_client c q)) s.holders h.own;
          })
  ]
]

remove_key-IsExclusive :
    (c : ℕ) (s : System)
    → is_timely (delete c) s ≡ true
    → IsExclusive s
    → IsExclusive (remove_key c s)
unfolding remove_key is_timely
remove_key-IsExclusive c s timely h = elim (Bool-cases (any (is_deleting c) s.holders)) [
  | inr idle ↦ rw (idle, remove_key) h
  | inl ready ↦
      let live : any (λ q. is_client c q && is_live s.now q) s.holders ≡ true =
        ground (arith, timely, ready) in
      let nobody = alone c s.now s.holders live h.few in
      rw (ready, remove_key)
        (record {
          few = ground (arith, nobody);
          own = dead_own s.now none (keep (λ q. not (is_client c q)) s.holders) nobody;
        })
]

step-IsExclusive :
    (e : Event) (s : System) → is_timely e s ≡ true → IsExclusive s → IsExclusive (step e s)
unfolding step
step-IsExclusive (try_set c value) s timely h = enter-IsExclusive c value s h
step-IsExclusive (check c) s timely h = compare_value-IsExclusive c s h
step-IsExclusive (delete c) s timely h = remove_key-IsExclusive c s timely h
step-IsExclusive (tick n) s timely h =
    let fewer = tick_few s.now n s.holders in
    record { few = ground (arith, fewer, h.few); own = tick_own s.now n s.lock s.holders h.own }

run_events-IsExclusive :
    (es : List Event) (s : System) → AllTimely es s → IsExclusive s → IsExclusive (run_events es s)
unfolding run_events
run_events-IsExclusive [] s timely h = h
run_events-IsExclusive (e ∷ es) s timely h =
    run_events-IsExclusive es (step e s) timely.1 (step-IsExclusive e s timely.0 h)

-- Whatever clients take, check and give back the lock of a space, in any order and over any time,
-- at most one lease lasts at a time, if that is so at the start, with the lease that lasts as the
-- key, and if each DELETE comes before the lease of its client has expired.
pub timely_clients_exclude :
    (es : List Event) (s : System)
    → AllTimely es s
    → IsExclusive s
    → live_holders (run_events es s) ≤ 1
timely_clients_exclude es s timely h = (run_events-IsExclusive es s timely h).few

others_stay :
    (c now : ℕ) (hs : List Holder)
    → any (λ h. not (is_client c h) && is_live now h) hs ≡ true
    → 1 ≤ tally (is_live now) (keep (λ q. not (is_client c q)) hs)
others_stay c now [] there = ground arith
others_stay c now (x ∷ xs) there = ground (arith, there, others_stay c now xs)

none_kept :
    (c d : ℕ) (hs : List Holder)
    → any (is_client d) hs ≡ false
    → any (is_client d) (keep (λ q. not (is_client c q)) hs) ≡ false
none_kept c d [] new = refl
none_kept c d (x ∷ xs) new = ground (arith, new, none_kept c d xs)

newcomer_lives :
    (d value : ℕ) (s : System)
    → s.lock ≡ none
    → any (is_client d) s.holders ≡ false
    → live_holders (enter d value s) ≡ 1 + live_holders s
unfolding enter set_nx is_held is_live
newcomer_lives d value s free new = rw (new, free, enter) (ground arith)

-- If a client is at its DELETE while the lease of another client lasts, as happens when its own
-- has expired since its GET, then after the DELETE a client that holds no lease gets one, and two
-- leases last at once.
pub late_delete_lets_two_in :
    (c d value : ℕ) (s : System)
    → any (is_deleting c) s.holders ≡ true
    → any (λ h. not (is_client c h) && is_live s.now h) s.holders ≡ true
    → any (is_client d) s.holders ≡ false
    → 2 ≤ live_holders (run_events (delete c ∷ try_set d value ∷ []) s)
unfolding run_events step
late_delete_lets_two_in c d value s ready other new =
    let left = others_stay c s.now s.holders other in
    let s' : System = record s {
      lock = none;
      holders = keep (λ q. not (is_client c q)) s.holders;
    } in
    let now_free : remove_key c s ≡ s' = unfold remove_key in rw ready refl in
    let two = newcomer_lives d value s' refl (none_kept c d s.holders new) in
    rw now_free (ground (arith, two, left))
