-- ===== src/Estate/Steps.antt =====
-- What a call does to the tables: nothing, or one of five writes.
use smart_parking_platform.Prelude.{
  ℕ, String, text_eq, List, Option, none, some, Bool, true, false, ◌≡◌, refl, first, any, rewrite,
  Option-cases, Bool-cases, inl, inr, not, ◌&&◌, ltb,
}
use smart_parking_platform.Estate.Types.{
  Site, ParkingSpace, Tables, SiteCreate, SiteUpdate, SpaceCreate, SpaceUpdate,
}
use smart_parking_platform.Estate.Sites.{
  own_site, new_site, insert_site, store_site, updated_site, written, create_site, update_site,
  delete_site, named_site, name_taken, no_site_fields, spaces_count,
}
use smart_parking_platform.Estate.Rows.{
  insert_space, own_live_space, active_site, store_space, is_eui,
}
use smart_parking_platform.Estate.Spaces.{
  create_space, update_space, delete_space, assign_sensor, assign_display, unassign_sensor,
  unassign_display, change_space, inserted, new_space, updated_space, no_space_fields,
  argument_fits, set_sensor, set_display, mark_deleted, code_taken, with_device,
}
use smart_parking_platform.Estate.Calls.{
  Call, post_site, patch_site, remove_site, post_space, patch_space, remove_space, put_sensor,
  put_display, take_sensor, take_display, run_call,
}

-- A change of a space keeps what says whose it is and where.
pub record KeepsPlace (s s' : ParkingSpace) : Type 0 where
  pub same_id : s'.id ≡ s.id
  pub same_tenant : s'.tenant_id ≡ s.tenant_id
  pub same_site : s'.site_id ≡ s.site_id

-- The writes of a tenant's calls. `devices` puts other device tables beside the same sites and
-- spaces.
pub data Write (tenant : String) (db : Tables) : Tables → Type 0 where
  nothing : Write tenant db db
  site_added :
      (s : Site) (db' : Tables)
      → s.tenant_id ≡ tenant
      → insert_site s db ≡ some db'
      → Write tenant db db'
  site_stored :
      (id : String) (s s' : Site) (db' : Tables)
      → first (own_site id tenant) db.sites ≡ some s
      → s'.id ≡ s.id
      → s'.tenant_id ≡ s.tenant_id
      → store_site s' db ≡ some db'
      → Write tenant db db'
  site_closed :
      (id : String) (now : ℕ) (s : Site)
      → first (own_site id tenant) db.sites ≡ some s
      → Write tenant db (record db {
        sites =
            rewrite
              (λ t. text_eq t.id id)
              (λ t. record t { is_active = false; updated_at = now })
              db.sites;
      })
  space_added :
      (s r : ParkingSpace) (db' : Tables)
      → any (λ t. active_site s.site_id t && text_eq t.tenant_id tenant) db.sites ≡ true
      → insert_space s db ≡ some (r, db')
      → Write tenant db db'
  space_stored :
      (id : String) (s s' : ParkingSpace) (sensors displays : List String) (db' : Tables)
      → first (own_live_space id tenant) db.spaces ≡ some s
      → KeepsPlace s s'
      → store_space s' (record db { sensor_devices = sensors; display_devices = displays })
        ≡ some db'
      → Write tenant db db'
  devices :
      (sensors displays : List String)
      → Write tenant db (record db { sensor_devices = sensors; display_devices = displays })

module _ (tenant : String) where
  -- Where a write is refused the tables stay.
  written-Write :
      {A : Type 0} (answer : A) (db before : Tables) (o : Option Tables)
      → Write tenant before db
      → ((db' : Tables) → o ≡ some db' → Write tenant before db')
      → Write tenant before (written answer db o).1
  unfolding written
  written-Write answer db before none stays writes = stays
  written-Write answer db before (some db') stays writes = writes db' refl

  create_site-Write :
      (codec : Bool) (new_id : String) (now : ℕ) (q : SiteCreate) (db : Tables)
      → Write tenant db (create_site codec new_id now q tenant db).1
  unfolding create_site
  create_site-Write codec new_id now q db =
      let s = new_site new_id now tenant q in
      elim (Bool-cases (any (named_site tenant q.name) db.sites)) [
        | inl taken ↦ rw (taken, create_site) nothing
        | inr new ↦
            rw (new, create_site)
              (written-Write _ db db (insert_site s db) nothing
                (λ db' e. site_added s db' (unfold new_site in refl) e))
      ]

  update_site-Write :
      (codec : Bool) (id : String) (now : ℕ) (u : SiteUpdate) (db : Tables)
      → Write tenant db (update_site codec id now u tenant db).1
  unfolding update_site
  update_site-Write codec id now u db = elim (Option-cases (first (own_site id tenant) db.sites)) [
    | inl missing ↦ rw (missing, update_site) nothing
    | inr (s, found) ↦
        let s' = updated_site now u s in
        elim (Bool-cases (name_taken id tenant u.name db)) [
          | inl taken ↦ rw (found, taken, update_site) nothing
          | inr new ↦ elim (Bool-cases (no_site_fields u)) [
            | inl empty ↦ rw (found, new, empty, update_site) nothing
            | inr fields ↦
                rw (found, new, fields, update_site)
                  (written-Write _ db db (store_site s' db) nothing (λ db' e.
                    site_stored id s s' db' found (unfold updated_site in refl)
                      (unfold updated_site in refl) e))
          ]
        ]
  ]

  delete_site-Write :
      (id : String) (now : ℕ) (force : Bool) (db : Tables)
      → Write tenant db (delete_site id now force tenant db).1
  unfolding delete_site
  delete_site-Write id now force db = elim (Option-cases (first (own_site id tenant) db.sites)) [
    | inl missing ↦ rw (missing, delete_site) nothing
    | inr (s, found) ↦ elim (Bool-cases (not force && ltb 0 (spaces_count id db))) [
      | inl full ↦ rw (found, full, delete_site) nothing
      | inr clear ↦ rw (found, clear, delete_site) (site_closed id now s found)
    ]
  ]

  create_space-Write :
      (codec : Bool) (new_id : String) (now : ℕ) (q : SpaceCreate) (db : Tables)
      → Write tenant db (create_space codec new_id now q tenant db).1
  unfolding create_space inserted argument_fits new_space
  create_space-Write codec new_id now q db =
      let s = new_space new_id now q in
      elim (Bool-cases
        (any (λ t. active_site q.site_id t && text_eq t.tenant_id tenant) db.sites)) [
          | inr elsewhere ↦ rw (elsewhere, create_space) nothing
          | inl own ↦ elim (Bool-cases (code_taken tenant q.site_id q.code db)) [
            | inl taken ↦ rw (own, taken, create_space) nothing
            | inr new ↦ elim (Bool-cases (argument_fits codec q.metadata)) [
              | inr unfit ↦ rw (own, new, unfit, create_space, inserted, new_space) nothing
              | inl fit ↦ elim (Option-cases (insert_space s db)) [
                | inl refused ↦ rw (own, new, create_space, inserted, fit, refused) nothing
                | inr ((r, db'), made) ↦
                    rw (own, new, create_space, inserted, fit, made)
                      (space_added s r db' (own) made)
              ]
            ]
          ]
        ]

  change_space-Write :
      (id : String) (f : ParkingSpace → ParkingSpace) (sensors displays : List String) (db : Tables)
      → ((s : ParkingSpace) → KeepsPlace s (f s))
      → Write tenant db
          (change_space id tenant f
            (record db { sensor_devices = sensors; display_devices = displays })).1
  unfolding change_space
  change_space-Write id f sensors displays db keeps =
      let db' : Tables = record db { sensor_devices = sensors; display_devices = displays } in
      elim (Option-cases (first (own_live_space id tenant) db.spaces)) [
        | inl missing ↦ rw (missing, change_space) (devices sensors displays)
        | inr (s, found) ↦
            rw (found, change_space)
              (written-Write _ db' db (store_space (f s) db') (devices sensors displays)
                (λ db'' e. space_stored id s (f s) sensors displays db'' found (keeps s) e))
      ]

  update_space-Write :
      (codec : Bool) (id : String) (now : ℕ) (u : SpaceUpdate) (db : Tables)
      → Write tenant db (update_space codec id now u tenant db).1
  unfolding update_space
  update_space-Write codec id now u db =
      elim (Option-cases (first (own_live_space id tenant) db.spaces)) [
        | inl missing ↦ rw (missing, update_space) nothing
        | inr (s, found) ↦
            let s' = updated_space now u s in
            let kept : KeepsPlace s s' =
              unfold updated_space in
              record { same_id = refl; same_tenant = refl; same_site = refl } in
            elim (Bool-cases (no_space_fields u)) [
              | inl empty ↦ rw (found, empty, update_space) nothing
              | inr fields ↦ elim (Bool-cases (argument_fits codec u.metadata)) [
                | inr unfit ↦ rw (found, fields, unfit, update_space) nothing
                | inl fit ↦
                    rw (found, fields, fit, update_space)
                      (written-Write _ db db (store_space s' db) nothing (λ db' e.
                        space_stored id s s' db.sensor_devices db.display_devices db' found kept e))
              ]
            ]
      ]

  -- Every call is one of the writes.
  pub run_call-Write :
      (codec : Bool) (upper : String → String) (c : Call) (db : Tables)
      → Write tenant db (run_call codec upper tenant c db)
  unfolding run_call assign_sensor assign_display unassign_sensor unassign_display delete_space
  run_call-Write codec upper (post_site new_id now q) db = create_site-Write codec new_id now q db
  run_call-Write codec upper (patch_site id now u) db = update_site-Write codec id now u db
  run_call-Write codec upper (remove_site id now force) db = delete_site-Write id now force db
  run_call-Write codec upper (post_space new_id now q) db = create_space-Write codec new_id now q db
  run_call-Write codec upper (patch_space id now u) db = update_space-Write codec id now u db
  run_call-Write codec upper (remove_space id now) db =
      change_space-Write id (mark_deleted now) db.sensor_devices db.display_devices db
        (λ s. record { same_id = refl; same_tenant = refl; same_site = refl })
  run_call-Write codec upper (put_sensor id now eui) db = elim (Bool-cases (is_eui (upper eui))) [
    | inr bad ↦ rw (bad, run_call, assign_sensor) nothing
    | inl valid ↦
        rw (valid, run_call, assign_sensor)
          (change_space-Write id (set_sensor now (some (upper eui)))
            (with_device (upper eui) db.sensor_devices) db.display_devices db
            (λ s. record { same_id = refl; same_tenant = refl; same_site = refl }))
  ]
  run_call-Write codec upper (put_display id now eui) db = elim (Bool-cases (is_eui (upper eui))) [
    | inr bad ↦ rw (bad, run_call, assign_display) nothing
    | inl valid ↦
        rw (valid, run_call, assign_display)
          (change_space-Write id (set_display now (some (upper eui))) db.sensor_devices
            (with_device (upper eui) db.display_devices) db
            (λ s. record { same_id = refl; same_tenant = refl; same_site = refl }))
  ]
  run_call-Write codec upper (take_sensor id now) db =
      change_space-Write id (set_sensor now none) db.sensor_devices db.display_devices db
        (λ s. record { same_id = refl; same_tenant = refl; same_site = refl })
  run_call-Write codec upper (take_display id now) db =
      change_space-Write id (set_display now none) db.sensor_devices db.display_devices db
        (λ s. record { same_id = refl; same_tenant = refl; same_site = refl })
