-- ===== src/Estate/Lost.antt =====
-- The sensor of a space that is deleted.
use smart_parking_platform.Prelude.{
  ℕ, String, text_eq_refl, List, [], ◌∷◌, some, Bool, true, ◌≡◌, ◌≢◌, arith, first, any, rewrite,
  Option-cases, Bool-cases, inl, inr,
}
use smart_parking_platform.Access.Types.{pass}
use smart_parking_platform.Estate.Types.{ParkingSpace, Tables, SpaceView}
use smart_parking_platform.Estate.Sites.{written}
use smart_parking_platform.Estate.Rows.{same_text, own_space, own_live_space, store_space}
use smart_parking_platform.Estate.Spaces.{delete_space, change_space, mark_deleted, assign_sensor}
use smart_parking_platform.Estate.Calls.{Call, remove_space, run_call, run_calls}
use smart_parking_platform.Estate.Sound.{IsSound, run_calls-IsSound}
use smart_parking_platform.Estate.Clash.{store_space_fits}
use smart_parking_platform.Estate.Deleted.{holds_deleted, deleted_space_keeps_its_sensor}

-- What replaces a row that is there is there.
replaced_is_there :
    (p q h : ParkingSpace → Bool) (s s' : ParkingSpace) (xs : List ParkingSpace)
    → first p xs ≡ some s
    → q s ≡ true
    → h s' ≡ true
    → any h (rewrite q (λ _. s') xs) ≡ true
replaced_is_there p q h s s' [] found hit holds = ground (arith, found)
replaced_is_there p q h s s' (x ∷ xs) found hit holds = elim (Bool-cases (p x)) [
  | inl here ↦
      let same : x ≡ s = ground (arith, found, here) in
      let covered : q x ≡ true = rw same hit in ground (arith, covered, holds)
  | inr miss ↦
      let later : first p xs ≡ some s = ground (arith, found, miss) in
      ground (arith, holds, replaced_is_there p q h s s' xs later hit holds)
]

delete_space-holds :
    (id tenant eui : String) (now : ℕ) (db : Tables) (s : ParkingSpace) (w : SpaceView)
    → first (own_live_space id tenant) db.spaces ≡ some s
    → s.sensor_eui ≡ some eui
    → (delete_space id now tenant db).0 ≡ pass w
    → any (holds_deleted eui) (delete_space id now tenant db).1.spaces ≡ true
unfolding delete_space change_space written holds_deleted same_text
delete_space-holds id tenant eui now db s w found sensor made =
    let s' = mark_deleted now s in
    elim (Option-cases (store_space s' db)) [
      | inl refused ↦ ground (arith, made, found, refused)
      | inr (db', e) ↦
          let table : (delete_space id now tenant db).1 ≡ db' = ground (arith, found, e) in
          let hit : own_space s.id s.tenant_id s ≡ true =
            ground (arith, text_eq_refl s.id, text_eq_refl s.tenant_id) in
          let holds : holds_deleted eui s' ≡ true = rw sensor (ground (arith, text_eq_refl eui)) in
          rw table (
            rw (← (store_space_fits s' db db' e).2) (
              replaced_is_there (own_live_space id tenant) (own_space s.id s.tenant_id)
                (holds_deleted eui) s s' db.spaces found hit holds))
    ]

-- In sound tables, once a space with a sensor was deleted with success, no later call assigns that
-- sensor to any space of any tenant, whatever calls of whatever tenants come in between.
pub deleted_sensor_is_lost :
    (codec : Bool) (upper : String → String) (cs : List (String × Call)) (db : Tables)
    (id id' eui tenant tenant' : String) (now later : ℕ) (s : ParkingSpace) (v w : SpaceView)
    → IsSound db
    → first (own_live_space id tenant) db.spaces ≡ some s
    → s.sensor_eui ≡ some (upper eui)
    → (delete_space id now tenant db).0 ≡ pass w
    → (assign_sensor upper id' later eui tenant'
        (run_calls codec upper cs (delete_space id now tenant db).1)).0
      ≢ pass v
deleted_sensor_is_lost codec upper cs db id id' eui tenant tenant' now later s v w h found sensor
      made =
    let db' = (delete_space id now tenant db).1 in
    let sound : IsSound db' =
      unfold run_calls run_call in
      run_calls-IsSound codec upper ((tenant, remove_space id now) ∷ []) db h in
    deleted_space_keeps_its_sensor codec upper cs db' id' eui tenant' later v sound
      (delete_space-holds id tenant (upper eui) now db s w found sensor made)
