-- ===== src/Estate/Lifecycle.antt =====
-- A space from its creation to its deletion, as get_space shows it.
use smart_parking_platform.Prelude.{
  ℕ, String, text_eq, text_eq_refl, eq_iff, List, [], ◌∷◌, ◌++◌, none, some, Bool, true, false,
  ◌&&◌, not, ◌≡◌, refl, sym, ap, ◌∙◌, subst, arith, first, first-append, any, rewrite, All,
  Option-cases, Bool-cases, inl, inr, first-All, Option, zero, suc, ◌≢◌, if◌then◌else◌,
}
use smart_parking_platform.Access.Types.{pass, http_error}
use smart_parking_platform.Reservations.Types.{ℤ, pos, negsuc}
use smart_parking_platform.Estate.Types.{ParkingSpace, Tables, SpaceCreate, SpaceView, coordinate}
use smart_parking_platform.Estate.Apart.{Apart, first_hit, any-implies}
use smart_parking_platform.Estate.Sites.{written}
use smart_parking_platform.Estate.Rows.{
  codes_clash, sensors_clash, displays_clash, spaces_clash, same_id, insert_space, own_space,
  own_live_space, active_site, store_space, euis_fit,
}
use smart_parking_platform.Estate.Spaces.{
  create_space, get_space, site_name, space_view, new_space, inserted, code_taken, argument_fits,
  delete_space, change_space, mark_deleted,
}
use smart_parking_platform.Estate.Clash.{spaces_clash_sym, insert_space_fits}
use smart_parking_platform.Estate.Blocked.{delete_space-blocked}
use smart_parking_platform.Estate.Sound.{IsSound}
use smart_parking_platform.Estate.Isolation.{active_site_own}

-- What a creation that succeeds has inserted.
create_space_made :
    (codec : Bool) (new_id : String) (now : ℕ) (q : SpaceCreate) (tenant : String) (db : Tables)
    (v : SpaceView)
    → (create_space codec new_id now q tenant db).0 ≡ pass v
    → (any (λ t. active_site q.site_id t && text_eq t.tenant_id tenant) db.sites ≡ true)
      × ((r : ParkingSpace) × (insert_space (new_space new_id now q) db
            ≡ some (r, (create_space codec new_id now q tenant db).1))
          × (space_view none r ≡ v))
unfolding create_space inserted argument_fits new_space
create_space_made codec new_id now q tenant db v made =
    let s = new_space new_id now q in
    elim (Bool-cases (any (λ t. active_site q.site_id t && text_eq t.tenant_id tenant) db.sites)) [
      | inr elsewhere ↦ ground (arith, made, elsewhere)
      | inl own ↦ elim (Bool-cases (code_taken tenant q.site_id q.code db)) [
        | inl taken ↦ ground (arith, made, own, taken)
        | inr new ↦ elim (Bool-cases (argument_fits codec q.metadata)) [
          | inr unfit ↦ ground (arith, made, own, new, unfit)
          | inl fit ↦ elim (Option-cases (insert_space s db)) [
            | inl refused ↦ ground (arith, made, own, new, fit, refused)
            | inr ((r, db'), e) ↦
                let answer : space_view none r ≡ v = ground (arith, made, own, new, fit, e) in
                let table : (create_space codec new_id now q tenant db).1 ≡ db' =
                  rw (own, new, create_space, inserted, fit, e) refl in
                (own, (r, rw table e, answer))
          ]
        ]
      ]
    ]

first_of_none :
    (p : ParkingSpace → Bool) (xs : List ParkingSpace) → any p xs ≡ false → first p xs ≡ none
first_of_none p [] h = refl
first_of_none p (x ∷ xs) h = ground (arith, h, first_of_none p xs)

created_row_is_read_back :
    (codec : Bool) (new_id : String) (now : ℕ) (q : SpaceCreate) (tenant : String) (db : Tables)
    (v : SpaceView)
    → IsSound db
    → (create_space codec new_id now q tenant db).0 ≡ pass v
    → let db' = (create_space codec new_id now q tenant db).1 in
      let row : ParkingSpace = record (new_space new_id now q) { tenant_id = tenant } in
      (v ≡ space_view none row)
      × (get_space new_id tenant db' ≡ pass (space_view (site_name row db') row))
unfolding get_space new_space spaces_clash
created_row_is_read_back codec new_id now q tenant db v h made =
    let s = new_space new_id now q in
    let (own, (r, e, answer)) = create_space_made codec new_id now q tenant db v made in
    let db' = (create_space codec new_id now q tenant db).1 in
    let (site, found, row, fit, fits, same) = insert_space_fits s r db db' e in
    let ours : site.tenant_id ≡ tenant =
      (eq_iff site.tenant_id tenant).0
        (active_site_own q.site_id tenant site db.sites own found h.sites_apart) in
    let whole : record s { tenant_id = tenant } ≡ r =
      ap (λ t. record s { tenant_id = t }) (sym ours) ∙ row in
    let absent : any (own_live_space new_id tenant) db.spaces ≡ false =
      elim (Bool-cases (any (own_live_space new_id tenant) db.spaces)) [
        | inr free ↦ free
        | inl there ↦
            let clash =
              any-implies (own_live_space new_id tenant) (λ t. spaces_clash t r) db.spaces
                (λ x k. rw (← whole) (ground (arith, k))) there in
            ground (arith, clash, fits)
      ] in
    let read : first (own_live_space new_id tenant) (db.spaces ++ r ∷ []) ≡ some r =
      first-append (own_live_space new_id tenant) db.spaces (r ∷ [])
      ∙ rw (← whole) (
          ground (
            arith,
            first_of_none (own_live_space new_id tenant) db.spaces absent,
            text_eq_refl new_id,
            text_eq_refl tenant,
          )) in
    let reached : first (own_live_space new_id tenant) db'.spaces ≡ some r =
      ap (λ d. first (own_live_space new_id tenant) d.spaces) (sym same) ∙ read in
    (sym answer ∙ ap (space_view none) (sym whole), rw (reached, whole, get_space) refl)

-- A view of the space that `q` asks for, field by field. A coordinate is shown unless it is 0, for
-- which the answer has null.
pub record Shows (q : SpaceCreate) (new_id tenant : String) (now : ℕ) (v : SpaceView) : Type 0 where
  pub id_shown : v.id ≡ new_id
  pub tenant_shown : v.tenant_id ≡ tenant
  pub name_shown : v.name ≡ q.name
  pub code_shown : v.code ≡ q.code
  pub building_shown : v.building ≡ q.building
  pub floor_shown : v.floor ≡ q.floor
  pub zone_shown : v.zone ≡ q.zone
  pub site_shown : v.site_id ≡ q.site_id
  pub state_shown : v.state ≡ q.state
  pub sensor_shown : v.sensor_eui ≡ q.sensor_eui
  pub display_shown : v.display_eui ≡ q.display_eui
  pub metadata_shown : v.metadata ≡ q.metadata
  pub latitude_shown : q.gps_latitude ≢ some (pos 0) → v.gps_latitude ≡ q.gps_latitude
  pub longitude_shown : q.gps_longitude ≢ some (pos 0) → v.gps_longitude ≡ q.gps_longitude
  pub zero_latitude_lost : q.gps_latitude ≡ some (pos 0) → v.gps_latitude ≡ none
  pub zero_longitude_lost : q.gps_longitude ≡ some (pos 0) → v.gps_longitude ≡ none
  pub creation_shown : (v.created_at ≡ now) × (v.updated_at ≡ now)
  pub not_deleted : v.deleted_at ≡ none

coordinate-kept : (x : Option ℤ) → x ≢ some (pos 0) → coordinate x ≡ x
unfolding coordinate
coordinate-kept none h = refl
coordinate-kept (some (pos zero)) h = absurd (h refl)
coordinate-kept (some (pos (suc n))) h = refl
coordinate-kept (some (negsuc n)) h = refl

coordinate-zero : (x : Option ℤ) → x ≡ some (pos 0) → coordinate x ≡ none
unfolding coordinate
coordinate-zero x h = rw h refl

row-Shows :
    (q : SpaceCreate) (new_id tenant : String) (now : ℕ) (site : Option String)
    → Shows q new_id tenant now
        (space_view site (record (new_space new_id now q) { tenant_id = tenant }))
unfolding new_space space_view
row-Shows q new_id tenant now site = record {
  id_shown = refl;
  tenant_shown = refl;
  name_shown = refl;
  code_shown = refl;
  building_shown = refl;
  floor_shown = refl;
  zone_shown = refl;
  site_shown = refl;
  state_shown = refl;
  sensor_shown = refl;
  display_shown = refl;
  metadata_shown = refl;
  latitude_shown = coordinate-kept q.gps_latitude;
  longitude_shown = coordinate-kept q.gps_longitude;
  zero_latitude_lost = coordinate-zero q.gps_latitude;
  zero_longitude_lost = coordinate-zero q.gps_longitude;
  creation_shown = (refl, refl);
  not_deleted = refl;
}

-- A space that was created in sound tables is answered, and read back by the tenant, with the new
-- id, the tenant that asked and each field of the request, but that a coordinate of 0 comes back as
-- null.
pub created_space_is_read_back :
    (codec : Bool) (new_id : String) (now : ℕ) (q : SpaceCreate) (tenant : String) (db : Tables)
    (v : SpaceView)
    → IsSound db
    → (create_space codec new_id now q tenant db).0 ≡ pass v
    → Shows q new_id tenant now v
      × ((u : SpaceView) × (get_space new_id tenant (create_space codec new_id now q tenant db).1
            ≡ pass u)
          × Shows q new_id tenant now u)
created_space_is_read_back codec new_id now q tenant db v h made =
    let (answer, reading) = created_row_is_read_back codec new_id now q tenant db v h made in
    let row : ParkingSpace = record (new_space new_id now q) { tenant_id = tenant } in
    let site = site_name row (create_space codec new_id now q tenant db).1 in
    (
      subst (Shows q new_id tenant now) (sym answer) (row-Shows q new_id tenant now none),
      (space_view site row, reading, row-Shows q new_id tenant now site),
    )

no_clash_after :
    (x : ParkingSpace) (ys : List ParkingSpace)
    → All (λ y. spaces_clash x y ≡ false) ys
    → any (λ t. not (same_id t x) && spaces_clash t x) ys ≡ false
no_clash_after x [] h = refl
no_clash_after x (y ∷ ys) h = ground (arith, h.0, spaces_clash_sym x y, no_clash_after x ys h.1)

-- The other rows of a sound table do not clash with one that is found.
no_other_clashes :
    (p : ParkingSpace → Bool) (xs : List ParkingSpace) (s : ParkingSpace)
    → first p xs ≡ some s
    → Apart spaces_clash xs
    → any (λ t. not (same_id t s) && spaces_clash t s) xs ≡ false
no_other_clashes p [] s found h = refl
no_other_clashes p (x ∷ xs) s found h = elim (Bool-cases (p x)) [
  | inl hit ↦
      let same : x ≡ s = ground (arith, found, hit) in
      subst (λ z. any (λ t. not (same_id t z) && spaces_clash t z) (x ∷ xs) ≡ false) same
        (ground (arith, text_eq_refl x.id, no_clash_after x xs h.0))
  | inr miss ↦
      let later : first p xs ≡ some s = ground (arith, found, miss) in
      let apart = (first-All (λ y. spaces_clash x y ≡ false) p xs s later h.0).0 in
      ground (arith, apart, no_other_clashes p xs s later h.1)
]

none_left :
    (p q : ParkingSpace → Bool) (s : ParkingSpace) (xs : List ParkingSpace)
    → ((x : ParkingSpace) → q x ≡ true → p x ≡ true)
    → q s ≡ false
    → first q (rewrite p (λ _. s) xs) ≡ none
none_left p q s [] implies dead = refl
none_left p q s (x ∷ xs) implies dead =
    ground (arith, dead, implies x, none_left p q s xs implies dead)

deletion_fits :
    (now : ℕ) (s t : ParkingSpace)
    → spaces_clash t (mark_deleted now s) ≡ true
    → spaces_clash t s ≡ true
unfolding spaces_clash codes_clash sensors_clash displays_clash
deletion_fits now s t h = ground (arith, h)

-- In sound tables, the DELETE of a space that its tenant can read is answered with 500 and leaves
-- the space readable while the trigger of migration 008 stands. Without that trigger it succeeds,
-- and the space is then not found.
pub eui_trigger_decides_deletion :
    (id tenant : String) (now : ℕ) (db : Tables) (s : ParkingSpace)
    → IsSound db
    → first (own_live_space id tenant) db.spaces ≡ some s
    → ((delete_space id now tenant db).0 ≡ (
        if db.has_eui_trigger then http_error 500 else pass (space_view none (mark_deleted now s))))
      × (get_space id tenant (delete_space id now tenant db).1
          ≡ (if db.has_eui_trigger then pass (space_view (site_name s db) s) else http_error 404))
unfolding delete_space change_space store_space written get_space euis_fit
eui_trigger_decides_deletion id tenant now db s h found =
    let s' = mark_deleted now s in
    let fit =
      (first-All (λ x. euis_fit x ≡ true) (own_live_space id tenant) db.spaces s found
        h.euis_are_fit).0 in
    let hit = first_hit (own_live_space id tenant) db.spaces s found in
    let apart = no_other_clashes (own_live_space id tenant) db.spaces s found h.spaces_apart in
    let clear : any (λ t. not (same_id t s') && spaces_clash t s') db.spaces ≡ false =
      elim (Bool-cases (any (λ t. not (same_id t s') && spaces_clash t s') db.spaces)) [
        | inr free ↦ free
        | inl there ↦
            let clash =
              any-implies (λ t. not (same_id t s') && spaces_clash t s')
                (λ t. not (same_id t s) && spaces_clash t s) db.spaces
                (λ x k. ground (arith, k, deletion_fits now s x)) there in
            ground (arith, clash, apart)
      ] in
    let gone : first (own_live_space id tenant)
          (rewrite (own_space s.id s.tenant_id) (λ _. s') db.spaces)
        ≡ none =
      none_left (own_space s.id s.tenant_id) (own_live_space id tenant) s' db.spaces
        (λ x k. ground (
          arith,
          k,
          hit,
          eq_iff x.id id,
          eq_iff s.id id,
          eq_iff x.id s.id,
          eq_iff x.tenant_id tenant,
          eq_iff s.tenant_id tenant,
          eq_iff x.tenant_id s.tenant_id,
        ))
        (ground arith) in
    elim (Bool-cases db.has_eui_trigger) [
      | inl blocked ↦
          let stays = delete_space-blocked id tenant now db s blocked found in
          (rw stays (ground (arith, blocked)), rw stays (ground (arith, blocked, found)))
      | inr free ↦
          let db' : Tables = record db {
            spaces = rewrite (own_space s.id s.tenant_id) (λ _. s') db.spaces;
          } in
          let kept : euis_fit s' ≡ true = unfold euis_fit in fit in
          let stored : store_space s' db ≡ some db' = ground (arith, free, clear, kept) in
          let done : delete_space id now tenant db ≡ (pass (space_view none s'), db') =
            ground (arith, found, stored) in
          (rw done (ground (arith, free)), rw done (ground (arith, free, gone)))
    ]
