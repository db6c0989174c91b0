-- ===== src/Estate/Clash.antt =====
-- When rows clash, and what a write that the database accepts has shown.
use smart_parking_platform.Prelude.{
  String, text_eq, eq_iff, [], ◌∷◌, ◌++◌, Option, none, some, Bool, true, false, ◌&&◌, ◌||◌, not,
  ◌≡◌, refl, arith, first, any, rewrite, Option-cases, Bool-cases, inl, inr,
}
use smart_parking_platform.Estate.Types.{Site, ParkingSpace, Tables}
use smart_parking_platform.Estate.Sites.{is_live, own_site, sites_clash, insert_site, store_site}
use smart_parking_platform.Estate.Rows.{
  same_text, codes_clash, sensors_clash, displays_clash, spaces_clash, same_id, insert_space,
  own_space, active_site, store_space, euis_fit,
}

text_eq_sym : (a b : String) → text_eq a b ≡ text_eq b a
text_eq_sym a b = ground (arith, eq_iff a b, eq_iff b a)

pub sites_clash_sym : (a b : Site) → sites_clash a b ≡ sites_clash b a
unfolding sites_clash
sites_clash_sym a b =
    ground
      (arith, text_eq_sym a.id b.id, text_eq_sym a.tenant_id b.tenant_id, text_eq_sym a.name b.name)

pub sites_clash_id : (a b : Site) → sites_clash a b ≡ false → text_eq a.id b.id ≡ false
unfolding sites_clash
sites_clash_id a b h = ground (arith, h)

same_text_sym : (a b : Option String) → same_text a b ≡ same_text b a
unfolding same_text
same_text_sym none none = refl
same_text_sym none (some b) = refl
same_text_sym (some a) none = refl
same_text_sym (some a) (some b) = text_eq_sym a b

and_sym : (a b : Bool) → (a && b) ≡ (b && a)
and_sym a b = ground arith

pub spaces_clash_sym : (a b : ParkingSpace) → spaces_clash a b ≡ spaces_clash b a
unfolding spaces_clash codes_clash sensors_clash displays_clash
spaces_clash_sym a b =
    rw
      (
        text_eq_sym a.id b.id,
        and_sym (is_live a) (is_live b),
        text_eq_sym a.tenant_id b.tenant_id,
        text_eq_sym a.site_id b.site_id,
        text_eq_sym a.code b.code,
        same_text_sym a.sensor_eui b.sensor_eui,
        same_text_sym a.display_eui b.display_eui,
      )
      refl

pub spaces_clash_id : (a b : ParkingSpace) → spaces_clash a b ≡ false → text_eq a.id b.id ≡ false
unfolding spaces_clash
spaces_clash_id a b h = ground (arith, h)

pub insert_site_fits :
    (s : Site) (db db' : Tables)
    → insert_site s db ≡ some db'
    → (any (λ t. sites_clash t s) db.sites ≡ false)
      × (record db { sites = db.sites ++ s ∷ [] } ≡ db')
unfolding insert_site
insert_site_fits s db db' e = elim (Bool-cases (any (λ t. sites_clash t s) db.sites)) [
  | inl clash ↦ ground (arith, e, clash)
  | inr fits ↦ (fits, ground (arith, e, fits))
]

pub store_site_fits :
    (s : Site) (db db' : Tables)
    → store_site s db ≡ some db'
    → (any (λ t. not (text_eq t.id s.id) && sites_clash t s) db.sites ≡ false)
      × (record db { sites = rewrite (own_site s.id s.tenant_id) (λ _. s) db.sites } ≡ db')
unfolding store_site
store_site_fits s db db' e =
    elim (Bool-cases (any (λ t. not (text_eq t.id s.id) && sites_clash t s) db.sites)) [
      | inl clash ↦ ground (arith, e, clash)
      | inr fits ↦ (fits, ground (arith, e, fits))
    ]

-- The row that was added is of the active site's tenant.
pub insert_space_fits :
    (s r : ParkingSpace) (db db' : Tables)
    → insert_space s db ≡ some (r, db')
    → (site : Site) × (first (active_site s.site_id) db.sites ≡ some site)
      × (record s { tenant_id = site.tenant_id } ≡ r)
      × (euis_fit r ≡ true)
      × (any (λ t. spaces_clash t r) db.spaces ≡ false)
      × (record db { spaces = db.spaces ++ r ∷ [] } ≡ db')
unfolding insert_space
insert_space_fits s r db db' e = elim (Bool-cases db.has_eui_trigger) [
  | inl blocked ↦ ground (arith, e, blocked)
  | inr open_table ↦ elim (Option-cases (first (active_site s.site_id) db.sites)) [
    | inl missing ↦ ground (arith, e, open_table, missing)
    | inr (site, found) ↦
        let n : ParkingSpace = record s { tenant_id = site.tenant_id } in
        elim (Bool-cases (not (euis_fit n) || any (λ t. spaces_clash t n) db.spaces)) [
          | inl bad ↦ ground (arith, e, open_table, found, bad)
          | inr fits ↦
              let row : n ≡ r = ground (arith, e, open_table, found, fits) in
              let table : record db { spaces = db.spaces ++ n ∷ [] } ≡ db' =
                ground (arith, e, open_table, found, fits) in
              (
                site,
                found,
                row,
                rw (← row) (ground (arith, fits)),
                rw (← row) (ground (arith, fits)),
                rw (← row) table,
              )
        ]
  ]
]

pub store_space_fits :
    (s : ParkingSpace) (db db' : Tables)
    → store_space s db ≡ some db'
    → (euis_fit s ≡ true)
      × (any (λ t. not (same_id t s) && spaces_clash t s) db.spaces ≡ false)
      × (record db { spaces = rewrite (own_space s.id s.tenant_id) (λ _. s) db.spaces } ≡ db')
unfolding store_space
store_space_fits s db db' e =
    elim (Bool-cases (
      db.has_eui_trigger
      || (not (euis_fit s) || any (λ t. not (same_id t s) && spaces_clash t s) db.spaces))) [
        | inl bad ↦ ground (arith, e, bad)
        | inr fits ↦ (ground (arith, fits), ground (arith, fits), ground (arith, e, fits))
      ]
