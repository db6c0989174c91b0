-- ===== src/Limits/Bounds.antt =====
-- How many requests a window lets through.
use smart_parking_platform.Prelude.{
  ℕ, ◌+◌, ◌-◌, ◌/◌, ◌≤◌, ◌<◌, String, List, [], ◌∷◌, Option, none, some, ◌==◌, if◌then◌else◌, All,
  All-keep, subst, sym, true, false, ◌≡◌, refl, ap, ◌∙◌, text_eq_refl, ltb, length, length-keep-le,
  arith, Bool-cases, inl, inr,
}
use smart_parking_platform.Limits.Window.{
  second, minute, hour, window, read, write, Limits, Store, zadd, within, over_limit, check_window,
  put, limit_for, check_windows, check_limit,
}

length-zadd-le : (now : ℕ) (ts : List ℕ) → length (zadd now ts) ≤ length ts + 1
unfolding zadd
length-zadd-le now [] = omega arith
length-zadd-le now (t ∷ ts) = ground (arith, length-zadd-le now ts)

length-within-le : (now w : ℕ) (ts : List ℕ) → length (within now w ts) ≤ length ts
unfolding within
length-within-le now w ts = length-keep-le (λ t. ltb now (t + w)) ts

-- A set that is not empty has an oldest request to wait for.
waits : (now w : ℕ) (ts : List ℕ) → 0 < length ts → (r : ℕ) × (over_limit now w ts ≡ some r)
unfolding over_limit
waits now w [] h = ground arith
waits now w (t ∷ ts) h = ((t + w - now) / second + 1, refl)

full_window_refuses :
    (now w limit : ℕ) (ts : List ℕ)
    → 0 < limit
    → limit ≤ length (within now w ts)
    → (r : ℕ) × (check_window now w limit ts ≡ (some r, within now w ts))
unfolding check_window
full_window_refuses now w limit ts pos full =
    let (r, e) = waits now w (within now w ts) (omega (arith, pos, full)) in
    (r, ground (arith, e, full))

open_window_adds :
    (now w limit : ℕ) (ts : List ℕ)
    → length (within now w ts) < limit
    → check_window now w limit ts ≡ (none, zadd now (within now w ts))
unfolding check_window
open_window_adds now w limit ts room = ground (arith, room)

below : (limit : ℕ) (ts : List ℕ) → ltb (length ts) limit ≡ true → length ts < limit
below limit ts h = ground (arith, h)

at_least : (limit : ℕ) (ts : List ℕ) → ltb (length ts) limit ≡ false → limit ≤ length ts
at_least limit ts h = ground (arith, h)

-- With a positive limit, a window that holds at most `limit` requests holds at most `limit` after
-- the next one, too.
check_window_bounded :
    (now w limit : ℕ) (ts : List ℕ)
    → 0 < limit
    → length ts ≤ limit
    → length (check_window now w limit ts).1 ≤ limit
check_window_bounded now w limit ts pos h =
    elim (Bool-cases (ltb (length (within now w ts)) limit)) [
      | inl room ↦
          rw (open_window_adds now w limit ts (below limit (within now w ts) room)) (
            omega (arith, length-zadd-le now (within now w ts), below limit (within now w ts) room))
      | inr full ↦
          let (r, e) =
            full_window_refuses now w limit ts pos (at_least limit (within now w ts) full) in
          rw e (omega (arith, length-within-le now w ts, h))
    ]

refused_write :
    (defaults : Limits) (now r : ℕ) (tenant : String) (s : Store) (ts : List ℕ)
    → check_window now (window minute) 10 (s tenant minute) ≡ (some r, ts)
    → check_limit true defaults now tenant write none s ≡ ((false, some r), put tenant minute ts s)
unfolding check_limit check_windows limit_for
refused_write defaults now r tenant s ts e = ground (arith, e)

put_same :
    (tenant : String) (ts : List ℕ) (s : Store)
    → (put tenant minute ts s tenant minute ≡ ts)
      × (put tenant minute ts s tenant hour ≡ s tenant hour)
unfolding put
put_same tenant ts s = (ground (arith, text_eq_refl tenant), ground (arith, text_eq_refl tenant))

full_minute_refuses :
    (defaults : Limits) (now : ℕ) (tenant : String) (s : Store)
    → 10 ≤ length (within now (window minute) (s tenant minute))
    → let run = check_limit true defaults now tenant write none s in
      (run.0.0 ≡ false)
      × (run.1 tenant minute ≡ within now (window minute) (s tenant minute))
      × (run.1 tenant hour ≡ s tenant hour)
full_minute_refuses defaults now tenant s h =
    let recent = within now (window minute) (s tenant minute) in
    let (r, e) = full_window_refuses now (window minute) 10 (s tenant minute) (omega arith) h in
    let run = refused_write defaults now r tenant s recent e in
    let (same, other) = put_same tenant recent s in
    (
      ap (λ x. x.0.0) run,
      ap (λ x. x.1 tenant minute) run ∙ same,
      ap (λ x. x.1 tenant hour) run ∙ other,
    )

-- Reads of the tenant at the given times, until one is refused.
unfoldable pub reads : Limits → String → List ℕ → Store → Option Store
reads defaults tenant [] s = some s
reads defaults tenant (t ∷ ts) s =
    let (answer, s') = check_limit true defaults t tenant read none s in
    let rest = reads defaults tenant ts s' in if answer.0 then rest else none

-- The times rise from `low` to at most `now`, and are younger than a minute at `now`.
abbrev pub IsRecent : ℕ → ℕ → List ℕ → Type 0
IsRecent low now [] = Unit
IsRecent low now (t ∷ ts) = (low < t) × (t ≤ now) × (now < t + window minute) × IsRecent t now ts

zadd-grows :
    (now w low t : ℕ) (ts : List ℕ)
    → All (λ x. x ≤ low) ts
    → low < t
    → now < t + w
    → (length (within now w (zadd t ts)) ≡ length (within now w ts) + 1)
      × All (λ x. x ≤ t) (zadd t ts)
unfolding zadd within
zadd-grows now w low t [] h late recent = (ground (arith, recent), (omega arith, tt))
zadd-grows now w low t (x ∷ xs) h late recent =
    let (more, below') = zadd-grows now w low t xs h.1 late recent in
    let past : ltb t x ≡ false = ground (arith, h.0, late) in
    let other : (t == x) ≡ false = ground (arith, h.0, late) in
    rw (past, other) (ground (arith, more), (omega (arith, h.0, late), below'))

within-within :
    (now w t : ℕ) (ts : List ℕ) → t ≤ now → within now w (within t w ts) ≡ within now w ts
unfolding within
within-within now w t [] h = refl
within-within now w t (x ∷ xs) h = ground (arith, h, within-within now w t xs h)

allowed_read_counts :
    (defaults : Limits) (t : ℕ) (tenant : String) (s : Store)
    → (check_limit true defaults t tenant read none s).0.0 ≡ true
    → (check_limit true defaults t tenant read none s).1 tenant minute
      ≡ zadd t (within t (window minute) (s tenant minute))
unfolding check_limit check_windows limit_for check_window put
allowed_read_counts defaults t tenant s h = ground (arith, h, text_eq_refl tenant)

reads_fill :
    (defaults : Limits) (low now : ℕ) (tenant : String) (times : List ℕ) (s s' : Store)
    → All (λ x. x ≤ low) (s tenant minute)
    → IsRecent low now times
    → reads defaults tenant times s ≡ some s'
    → length (within now (window minute) (s tenant minute)) + length times
      ≤ length (within now (window minute) (s' tenant minute))
unfolding reads
reads_fill defaults low now tenant [] s s' past recent e =
    let same : s ≡ s' = ground (arith, e) in rw same (omega arith)
reads_fill defaults low now tenant (t ∷ ts) s s' past (late, soon, young, rest) e =
    let w = window minute in
    let s1 = (check_limit true defaults t tenant read none s).1 in
    let passed : (check_limit true defaults t tenant read none s).0.0 ≡ true = ground (arith, e) in
    let later : reads defaults tenant ts s1 ≡ some s' = ground (arith, e) in
    let counted = allowed_read_counts defaults t tenant s passed in
    let kept : All (λ x. x ≤ low) (within t w (s tenant minute)) =
      unfold within in All-keep (λ x. x ≤ low) (λ x. ltb t (x + w)) (s tenant minute) past in
    let (more, below') = zadd-grows now w low t (within t w (s tenant minute)) kept late young in
    let same = within-within now w t (s tenant minute) soon in
    let size : length (within now w (s1 tenant minute))
        ≡ length (within now w (s tenant minute)) + 1 =
      ap (λ x. length (within now w x)) counted ∙ more ∙ ap (λ x. length x + 1) same in
    let past' : All (λ x. x ≤ t) (s1 tenant minute) =
      subst (All (λ x. x ≤ t)) (sym counted) below' in
    omega (arith, size, reads_fill defaults t now tenant ts s1 s' past' rest later)

-- Reads and writes share the windows: after ten reads of the tenant that were let through, one after
-- the other and within the last minute, a write is refused, whatever the limits for reads, and
-- nothing is counted for it. The requests that were counted before are older than the reads.
pub reads_use_up_the_writes :
    (defaults : Limits) (low now : ℕ) (tenant : String) (times : List ℕ) (s s' : Store)
    → All (λ x. x ≤ low) (s tenant minute)
    → IsRecent low now times
    → 10 ≤ length times
    → reads defaults tenant times s ≡ some s'
    → let run = check_limit true defaults now tenant write none s' in
      (run.0.0 ≡ false)
      × (run.1 tenant minute ≡ within now (window minute) (s' tenant minute))
      × (run.1 tenant hour ≡ s' tenant hour)
reads_use_up_the_writes defaults low now tenant times s s' past recent ten e =
    full_minute_refuses defaults now tenant s'
      (omega (arith, ten, reads_fill defaults low now tenant times s s' past recent e))
