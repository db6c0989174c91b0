-- ===== src/Estate/Sound.antt =====
-- What every sequence of calls keeps true of the tables.
use smart_parking_platform.Prelude.{
  String, text_eq, text_eq_refl, eq_iff, List, [], ◌∷◌, ◌++◌, some, Bool, true, false, ◌&&◌, ◌≡◌,
  refl, ◌∙◌, arith, first, any, rewrite, All, All-append, All-rewrite, first-All, ℕ,
}
use smart_parking_platform.Estate.Types.{Site, ParkingSpace, Tables}
use smart_parking_platform.Estate.Apart.{
  Apart, Apart-append, Apart-rewrite, Apart-replace, any-rewrite, first_hit, first-any_of,
}
use smart_parking_platform.Estate.Sites.{own_site, sites_clash, insert_site, store_site}
use smart_parking_platform.Estate.Rows.{
  spaces_clash, same_id, insert_space, own_space, own_live_space, active_site, store_space,
  euis_fit,
}
use smart_parking_platform.Estate.Clash.{
  sites_clash_sym, sites_clash_id, spaces_clash_sym, spaces_clash_id, insert_site_fits,
  store_site_fits, insert_space_fits, store_space_fits,
}
use smart_parking_platform.Estate.Calls.{Call, run_call, run_calls}
use smart_parking_platform.Estate.Steps

abbrev pub is_home : ParkingSpace → Site → Bool
is_home s t = text_eq t.id s.site_id && text_eq t.tenant_id s.tenant_id

-- The site of the space is there, and of the tenant of the space.
unfoldable pub has_home : List Site → ParkingSpace → Bool
has_home sites s = any (is_home s) sites

-- Ids are unique, names of sites unique to a tenant, codes of live spaces unique to a site, sensors
-- unique to a space and displays to a live one; each space has its site's tenant,
-- and EUIs of the right form.
pub record IsSound (db : Tables) : Type 0 where
  pub sites_apart : Apart sites_clash db.sites
  pub spaces_apart : Apart spaces_clash db.spaces
  pub at_home : All (λ s. has_home db.sites s ≡ true) db.spaces
  pub euis_are_fit : All (λ s. euis_fit s ≡ true) db.spaces

-- Sites that keep the ids and the tenants keep the spaces at home.
homes_kept :
    (sites sites' : List Site) (spaces : List ParkingSpace)
    → ((s : ParkingSpace) → has_home sites s ≡ true → has_home sites' s ≡ true)
    → All (λ s. has_home sites s ≡ true) spaces
    → All (λ s. has_home sites' s ≡ true) spaces
homes_kept sites sites' [] keeps h = tt
homes_kept sites sites' (s ∷ ss) keeps h = (keeps s h.0, homes_kept sites sites' ss keeps h.1)

any-append_left :
    (p : Site → Bool) (t : Site) (ts : List Site) → any p ts ≡ true → any p (ts ++ t ∷ []) ≡ true
any-append_left p t [] h = ground (arith, h)
any-append_left p t (u ∷ us) h = ground (arith, h, any-append_left p t us)

insert_site-IsSound :
    (s : Site) (db db' : Tables) → insert_site s db ≡ some db' → IsSound db → IsSound db'
unfolding has_home
insert_site-IsSound s db db' e h =
    let (fits, same) = insert_site_fits s db db' e in
    rw (← same) (record {
      sites_apart = Apart-append sites_clash s db.sites fits h.sites_apart;
      spaces_apart = h.spaces_apart;
      at_home =
          homes_kept db.sites (db.sites ++ s ∷ []) db.spaces
            (λ x. any-append_left (is_home x) s db.sites) h.at_home;
      euis_are_fit = h.euis_are_fit;
    })

store_site-IsSound :
    (s : Site) (db db' : Tables) → store_site s db ≡ some db' → IsSound db → IsSound db'
unfolding has_home
store_site-IsSound s db db' e h =
    let (fits, same) = store_site_fits s db db' e in
    let own = own_site s.id s.tenant_id in
    rw (← same) (record {
      sites_apart =
          Apart-replace sites_clash (λ t. t.id) sites_clash_id sites_clash_sym own s
            (λ t hit. ground (arith, hit, eq_iff t.id s.id)) db.sites fits h.sites_apart;
      spaces_apart = h.spaces_apart;
      at_home =
          homes_kept db.sites (rewrite own (λ _. s) db.sites) db.spaces
            (λ x home.
              any-rewrite own (is_home x) (λ _. s) db.sites
                (λ t hit. ground (arith, hit, eq_iff t.id s.id, eq_iff t.tenant_id s.tenant_id))
              ∙ home)
            h.at_home;
      euis_are_fit = h.euis_are_fit;
    })

insert_space-IsSound :
    (s r : ParkingSpace) (db db' : Tables)
    → insert_space s db ≡ some (r, db')
    → IsSound db
    → IsSound db'
unfolding has_home
insert_space-IsSound s r db db' e h =
    let (site, found, row, fit, fits, same) = insert_space_fits s r db db' e in
    let own = first_hit (active_site s.site_id) db.sites site found in
    let home : any (is_home r) db.sites ≡ true = rw (← row) (
      first-any_of (active_site s.site_id) (is_home (record s { tenant_id = site.tenant_id }))
        db.sites site found (ground (arith, own, text_eq_refl site.tenant_id))) in
    rw (← same) (record {
      sites_apart = h.sites_apart;
      spaces_apart = Apart-append spaces_clash r db.spaces fits h.spaces_apart;
      at_home =
          All-append (λ x. has_home db.sites x ≡ true) db.spaces (r ∷ []) h.at_home (home, tt);
      euis_are_fit =
          All-append (λ x. euis_fit x ≡ true) db.spaces (r ∷ []) h.euis_are_fit (fit, tt);
    })

store_space-IsSound :
    (s s' : ParkingSpace) (id tenant : String) (db db' : Tables)
    → first (own_live_space id tenant) db.spaces ≡ some s
    → Steps.KeepsPlace s s'
    → store_space s' db ≡ some db'
    → IsSound db
    → IsSound db'
unfolding has_home
store_space-IsSound s s' id tenant db db' found kept e h =
    let (fit, fits, same) = store_space_fits s' db db' e in
    let own = own_space s'.id s'.tenant_id in
    let home : has_home db.sites s' ≡ true =
      rw (kept.same_tenant, kept.same_site)
        (first-All (λ x. has_home db.sites x ≡ true) (own_live_space id tenant) db.spaces s found
          h.at_home).0 in
    rw (← same) (record {
      sites_apart = h.sites_apart;
      spaces_apart =
          Apart-replace spaces_clash (λ t. t.id) spaces_clash_id spaces_clash_sym own s'
            (λ t hit. ground (arith, hit, eq_iff t.id s'.id)) db.spaces fits h.spaces_apart;
      at_home =
          All-rewrite (λ x. has_home db.sites x ≡ true) own (λ _. s') db.spaces (λ _ _. home)
            h.at_home;
      euis_are_fit =
          All-rewrite (λ x. euis_fit x ≡ true) own (λ _. s') db.spaces (λ _ _. fit) h.euis_are_fit;
    })

close_site-IsSound :
    (id : String) (now : ℕ) (db : Tables)
    → IsSound db
    → IsSound (record db {
      sites =
          rewrite
            (λ t. text_eq t.id id)
            (λ t. record t { is_active = false; updated_at = now })
            db.sites;
    })
unfolding has_home sites_clash
close_site-IsSound id now db h =
    let close : Site → Site = λ t. record t { is_active = false; updated_at = now } in
    record {
      sites_apart =
          Apart-rewrite sites_clash (λ t. text_eq t.id id) close (λ _ _. refl) (λ _ _. refl)
            db.sites h.sites_apart;
      spaces_apart = h.spaces_apart;
      at_home =
          homes_kept db.sites (rewrite (λ t. text_eq t.id id) close db.sites) db.spaces
            (λ x home.
              any-rewrite (λ t. text_eq t.id id) (is_home x) close db.sites (λ _ _. refl) ∙ home)
            h.at_home;
      euis_are_fit = h.euis_are_fit;
    }

devices-IsSound :
    (sensors displays : List String) (db : Tables)
    → IsSound db
    → IsSound (record db { sensor_devices = sensors; display_devices = displays })
devices-IsSound sensors displays db h = record {
  sites_apart = h.sites_apart;
  spaces_apart = h.spaces_apart;
  at_home = h.at_home;
  euis_are_fit = h.euis_are_fit;
}

pub Write-IsSound :
    (tenant : String) (db db' : Tables) → Steps.Write tenant db db' → IsSound db → IsSound db'
Write-IsSound tenant db _ Steps.nothing h = h
Write-IsSound tenant db _ (Steps.site_added s db' own e) h = insert_site-IsSound s db db' e h
Write-IsSound tenant db _ (Steps.site_stored id s s' db' found same_id own e) h =
    store_site-IsSound s' db db' e h
Write-IsSound tenant db _ (Steps.site_closed id now s found) h = close_site-IsSound id now db h
Write-IsSound tenant db _ (Steps.space_added s r db' own e) h = insert_space-IsSound s r db db' e h
Write-IsSound tenant db _ (Steps.space_stored id s s' sensors displays db' found kept e) h =
    store_space-IsSound s s' id tenant
      (record db { sensor_devices = sensors; display_devices = displays }) db' found kept e
      (devices-IsSound sensors displays db h)
Write-IsSound tenant db _ (Steps.devices sensors displays) h = devices-IsSound sensors displays db h

-- Calls of any tenants, in any order and with any answers, keep the tables sound: no two sites with
-- one id, or one name in one tenant; no two spaces with one id or one sensor, no two live ones with
-- one display or with one code in one site; every space in a site of its own tenant; and only EUIs of
-- 16 upper-case hexadecimal digits.
pub run_calls-IsSound :
    (codec : Bool) (upper : String → String) (cs : List (String × Call)) (db : Tables)
    → IsSound db
    → IsSound (run_calls codec upper cs db)
unfolding run_calls
run_calls-IsSound codec upper [] db h = h
run_calls-IsSound codec upper (c ∷ cs) db h =
    run_calls-IsSound codec upper cs (run_call codec upper c.0 c.1 db) (
      Write-IsSound c.0 db (run_call codec upper c.0 c.1 db)
        (Steps.run_call-Write c.0 codec upper c.1 db) h)
