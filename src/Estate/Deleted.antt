-- ===== src/Estate/Deleted.antt =====
-- The sensor of a deleted space: unique_sensor_eui of migrations/001_initial_schema.sql counts
-- deleted rows too, and no endpoint reaches them.
use smart_parking_platform.Prelude.{
  ℕ, String, eq_iff, List, [], ◌∷◌, ◌++◌, none, some, Bool, true, false, ◌&&◌, not, ◌≡◌, ◌≢◌, refl,
  sym, ap, ◌∙◌, arith, first, any, rewrite, All, Option-cases, Bool-cases, inl, inr, first-All,
}
use smart_parking_platform.Access.Types.{pass}
use smart_parking_platform.Estate.Types.{ParkingSpace, Tables, SpaceView}
use smart_parking_platform.Estate.Apart.{Apart, hit_once, any-implies}
use smart_parking_platform.Estate.Sites.{is_live, written}
use smart_parking_platform.Estate.Rows.{
  same_text, sensors_clash, spaces_clash, same_id, own_space, own_live_space, store_space,
}
use smart_parking_platform.Estate.Spaces.{assign_sensor, change_space, set_sensor, with_device}
use smart_parking_platform.Estate.Calls.{Call, run_call, run_calls}
use smart_parking_platform.Estate.Steps
use smart_parking_platform.Estate.Sound.{IsSound, Write-IsSound, run_calls-IsSound}
use smart_parking_platform.Estate.Clash.{
  spaces_clash_id, spaces_clash_sym, insert_site_fits, store_site_fits, insert_space_fits,
  store_space_fits,
}

-- A deleted row with this sensor.
unfoldable pub holds_deleted : String → ParkingSpace → Bool
holds_deleted eui s = not (is_live s) && same_text s.sensor_eui (some eui)

module _ (q : ParkingSpace → Bool) (dead : (s : ParkingSpace) → q s ≡ true → is_live s ≡ false)
    (id tenant : String) (s : ParkingSpace) where
  -- Replacing a live row that was found leaves the deleted rows.
  any-replace_live :
      (s' : ParkingSpace) (xs : List ParkingSpace)
      → s'.id ≡ s.id
      → first (own_live_space id tenant) xs ≡ some s
      → Apart spaces_clash xs
      → any q xs ≡ true
      → any q (rewrite (own_space s'.id s'.tenant_id) (λ _. s') xs) ≡ true
  any-replace_live s' [] kept found h there = ground (arith, there)
  any-replace_live s' (x ∷ xs) kept found h there = elim (Bool-cases (own_live_space id tenant x)) [
    | inl hit ↦
        let same : x ≡ s = ground (arith, found, hit) in
        let alone =
          hit_once spaces_clash (λ t. t.id) spaces_clash_id spaces_clash_sym
            (own_space s'.id s'.tenant_id) s' (λ t k. ground (arith, k, eq_iff t.id s'.id)) x xs
            (ap (λ t. t.id) same ∙ sym kept) h.0 in
        ground (arith, there, dead x, hit, alone)
    | inr miss ↦
        let later : first (own_live_space id tenant) xs ≡ some s = ground (arith, found, miss) in
        let apart =
          (first-All (λ y. spaces_clash x y ≡ false) (own_live_space id tenant) xs s later h.0).0 in
        let other = spaces_clash_id x s apart in
        let rest : any q xs ≡ true
            → any q (rewrite (own_space s'.id s'.tenant_id) (λ _. s') xs) ≡ true =
          any-replace_live s' xs kept later h.1 in
        ground (arith, there, rest, other, eq_iff x.id s'.id, eq_iff x.id s.id, kept)
  ]

  any-apart :
      (x : ParkingSpace) (ys : List ParkingSpace)
      → x.id ≡ s.id
      → All (λ y. spaces_clash x y ≡ false) ys
      → any q ys ≡ true
      → any (λ t. not (same_id t s) && q t) ys ≡ true
  any-apart x [] e h there = ground (arith, there)
  any-apart x (y ∷ ys) e h there = ground (
    arith,
    there,
    any-apart x ys e h.1,
    spaces_clash_id x y h.0,
    eq_iff x.id y.id,
    eq_iff y.id s.id,
    e,
  )

  -- A deleted row is another row than a live one that was found.
  any-other :
      (xs : List ParkingSpace)
      → first (own_live_space id tenant) xs ≡ some s
      → Apart spaces_clash xs
      → any q xs ≡ true
      → any (λ t. not (same_id t s) && q t) xs ≡ true
  any-other [] found h there = ground (arith, there)
  any-other (x ∷ xs) found h there = elim (Bool-cases (own_live_space id tenant x)) [
    | inl hit ↦
        let same : x ≡ s = ground (arith, found, hit) in
        ground (arith, there, dead x, hit, any-apart x xs (ap (λ t. t.id) same) h.0)
    | inr miss ↦
        let later : first (own_live_space id tenant) xs ≡ some s = ground (arith, found, miss) in
        let apart =
          (first-All (λ y. spaces_clash x y ≡ false) (own_live_space id tenant) xs s later h.0).0 in
        let rest : any q xs ≡ true → any (λ t. not (same_id t s) && q t) xs ≡ true =
          any-other xs later h.1 in
        ground (arith, there, rest, spaces_clash_id x s apart)
  ]

any-append_old :
    (q : ParkingSpace → Bool) (r : ParkingSpace) (xs : List ParkingSpace)
    → any q xs ≡ true
    → any q (xs ++ r ∷ []) ≡ true
any-append_old q r [] h = ground (arith, h)
any-append_old q r (x ∷ xs) h = ground (arith, h, any-append_old q r xs)

holds_deleted-dead :
    (eui : String) (s : ParkingSpace) → holds_deleted eui s ≡ true → is_live s ≡ false
unfolding holds_deleted
holds_deleted-dead eui s h = ground (arith, h)

-- No call takes the sensor off a deleted row.
Write-deleted :
    (eui tenant : String) (db db' : Tables)
    → Steps.Write tenant db db'
    → IsSound db
    → any (holds_deleted eui) db.spaces ≡ true
    → any (holds_deleted eui) db'.spaces ≡ true
Write-deleted eui tenant db _ Steps.nothing h there = there
Write-deleted eui tenant db _ (Steps.devices sensors displays) h there = there
Write-deleted eui tenant db _ (Steps.site_closed id now s found) h there = there
Write-deleted eui tenant db _ (Steps.site_added s db' own e) h there =
    rw (← (insert_site_fits s db db' e).1) there
Write-deleted eui tenant db _ (Steps.site_stored id s s' db' found same_id own e) h there =
    rw (← (store_site_fits s' db db' e).1) there
Write-deleted eui tenant db _ (Steps.space_added s r db' own e) h there =
    let (site, found, row, fit, fits, same) = insert_space_fits s r db db' e in
    rw (← same) (any-append_old (holds_deleted eui) r db.spaces there)
Write-deleted eui tenant db _ (Steps.space_stored id s s' sensors displays db' found kept e) h
      there =
    let before : Tables = record db { sensor_devices = sensors; display_devices = displays } in
    rw (← (store_space_fits s' before db' e).2) (
      any-replace_live (holds_deleted eui) (holds_deleted-dead eui) id tenant s s' db.spaces
        kept.same_id found h.spaces_apart there)

calls-deleted :
    (codec : Bool) (upper : String → String) (eui : String) (cs : List (String × Call))
    (db : Tables)
    → IsSound db
    → any (holds_deleted eui) db.spaces ≡ true
    → any (holds_deleted eui) (run_calls codec upper cs db).spaces ≡ true
unfolding run_calls
calls-deleted codec upper eui [] db h there = there
calls-deleted codec upper eui (c ∷ cs) db h there =
    let db' = run_call codec upper c.0 c.1 db in
    let step = Steps.run_call-Write c.0 codec upper c.1 db in
    calls-deleted codec upper eui cs db' (Write-IsSound c.0 db db' step h)
      (Write-deleted eui c.0 db db' step h there)

-- A row with the sensor of a deleted one is refused.
store-deleted :
    (eui id tenant : String) (s s' : ParkingSpace) (db : Tables)
    → first (own_live_space id tenant) db.spaces ≡ some s
    → s'.id ≡ s.id
    → s'.sensor_eui ≡ some eui
    → Apart spaces_clash db.spaces
    → any (holds_deleted eui) db.spaces ≡ true
    → store_space s' db ≡ none
unfolding store_space holds_deleted spaces_clash sensors_clash
store-deleted eui id tenant s s' db found kept sensor h there =
    let hit : any (λ t. not (same_id t s') && spaces_clash t s') db.spaces ≡ true =
      any-implies (λ t. not (same_id t s) && holds_deleted eui t)
        (λ t. not (same_id t s') && spaces_clash t s') db.spaces
        (λ x k. rw (kept, sensor) (ground (arith, k)))
        (any-other (holds_deleted eui) (holds_deleted-dead eui) id tenant s db.spaces found h
          there) in
    ground (arith, hit)

-- In sound tables, a sensor that a deleted space still has is assigned to no space: however many
-- calls came in between, the call does not succeed.
pub deleted_space_keeps_its_sensor :
    (codec : Bool) (upper : String → String) (cs : List (String × Call)) (db : Tables)
    (id eui tenant : String) (now : ℕ) (v : SpaceView)
    → IsSound db
    → any (holds_deleted (upper eui)) db.spaces ≡ true
    → (assign_sensor upper id now eui tenant (run_calls codec upper cs db)).0 ≢ pass v
unfolding assign_sensor change_space written
deleted_space_keeps_its_sensor codec upper cs db id eui tenant now v h there made =
    let db' = run_calls codec upper cs db in
    let held = calls-deleted codec upper (upper eui) cs db h there in
    let sound = run_calls-IsSound codec upper cs db h in
    let db'' : Tables = record db' {
      sensor_devices = with_device (upper eui) db'.sensor_devices;
    } in
    elim (Option-cases (first (own_live_space id tenant) db'.spaces)) [
      | inl missing ↦ ground (arith, made, missing)
      | inr (s, found) ↦
          let refused =
            store-deleted (upper eui) id tenant s (set_sensor now (some (upper eui)) s) db'' found
              refl refl sound.spaces_apart held in
          ground (arith, made, found, refused)
    ]
