-- ===== src/Estate/Isolation.antt =====
-- The rows of a tenant, under the calls of the others.
use smart_parking_platform.Prelude.{
  String, text_eq, eq_iff, List, [], ◌∷◌, ◌++◌, some, Bool, true, false, ◌&&◌, ◌≡◌, refl, sym, ap,
  ◌∙◌, arith, first, any, keep, rewrite, All, Bool-cases, inl, inr, first-All,
}
use smart_parking_platform.Estate.Types.{Site, Tables}
use smart_parking_platform.Estate.Apart.{Apart, first_hit}
use smart_parking_platform.Estate.Sites.{own_site, sites_clash}
use smart_parking_platform.Estate.Rows.{same_id, own_space, own_live_space, active_site}
use smart_parking_platform.Estate.Calls.{Call, run_call, run_calls}
use smart_parking_platform.Estate.Steps
use smart_parking_platform.Estate.Sound.{IsSound, Write-IsSound}
use smart_parking_platform.Estate.Clash.{
  sites_clash_id, insert_site_fits, store_site_fits, insert_space_fits, store_space_fits,
}

module _ {A : Type 0} (q : A → Bool) where
  keep-append_other : (r : A) (xs : List A) → q r ≡ false → keep q (xs ++ r ∷ []) ≡ keep q xs
  keep-append_other r [] h = ground (arith, h)
  keep-append_other r (x ∷ xs) h = ground (arith, keep-append_other r xs h)

  keep-rewrite_other :
      (p : A → Bool) (f : A → A) (xs : List A)
      → ((x : A) → p x ≡ true → q x ≡ false)
      → ((x : A) → p x ≡ true → q (f x) ≡ false)
      → keep q (rewrite p f xs) ≡ keep q xs
  keep-rewrite_other p f [] old new = refl
  keep-rewrite_other p f (x ∷ xs) old new =
      ground (arith, keep-rewrite_other p f xs old new, old x, new x)

-- With unique ids a site is met by its id alone.
module _ (id tenant : String) (f : Site → Site) where
  no_more_sites :
      (x : Site) (xs : List Site)
      → x.id ≡ id
      → All (λ y. sites_clash x y ≡ false) xs
      → (rewrite (λ t. text_eq t.id id) f xs ≡ xs) × (rewrite (own_site id tenant) f xs ≡ xs)
  no_more_sites x [] e h = (refl, refl)
  no_more_sites x (y ∷ ys) e h =
      let other = sites_clash_id x y h.0 in
      let (one, two) = no_more_sites x ys e h.1 in
      (
        ground (arith, one, other, eq_iff x.id y.id, eq_iff y.id id, e),
        ground (arith, two, other, eq_iff x.id y.id, eq_iff y.id id, e),
      )

  by_id_alone :
      (s : Site) (xs : List Site)
      → first (own_site id tenant) xs ≡ some s
      → Apart sites_clash xs
      → rewrite (λ t. text_eq t.id id) f xs ≡ rewrite (own_site id tenant) f xs
  by_id_alone s [] found h = refl
  by_id_alone s (x ∷ xs) found h = elim (Bool-cases (own_site id tenant x)) [
    | inl hit ↦
        let (one, two) = no_more_sites x xs (ground (arith, hit, eq_iff x.id id)) h.0 in
        ground (arith, hit, one, two)
    | inr miss ↦
        let later : first (own_site id tenant) xs ≡ some s = ground (arith, found, miss) in
        let apart =
          (first-All (λ y. sites_clash x y ≡ false) (own_site id tenant) xs s later h.0).0 in
        let other = sites_clash_id x s apart in
        let own = first_hit (own_site id tenant) xs s later in
        let rest = by_id_alone s xs later h.1 in
        ground (arith, miss, rest, other, own, eq_iff x.id s.id, eq_iff x.id id, eq_iff s.id id)
  ]

-- The active site of an id is the tenant's, if the tenant has an active site of that id.
module _ (id tenant : String) where
  abbrev own_active : Site → Bool
  own_active t = active_site id t && text_eq t.tenant_id tenant

  no_other_active :
      (x : Site) (xs : List Site)
      → x.id ≡ id
      → All (λ y. sites_clash x y ≡ false) xs
      → any own_active xs ≡ false
  no_other_active x [] e h = refl
  no_other_active x (y ∷ ys) e h = ground (
    arith,
    no_other_active x ys e h.1,
    sites_clash_id x y h.0,
    eq_iff x.id y.id,
    eq_iff y.id id,
    e,
  )

  pub active_site_own :
      (s : Site) (xs : List Site)
      → any own_active xs ≡ true
      → first (active_site id) xs ≡ some s
      → Apart sites_clash xs
      → text_eq s.tenant_id tenant ≡ true
  active_site_own s [] owned found h = ground (arith, owned)
  active_site_own s (x ∷ xs) owned found h = elim (Bool-cases (active_site id x)) [
    | inl hit ↦
        let same : x ≡ s = ground (arith, found, hit) in
        let alone = no_other_active x xs (ground (arith, hit, eq_iff x.id id)) h.0 in
        rw (← same) (ground (arith, owned, alone))
    | inr miss ↦
        active_site_own s xs (ground (arith, owned, miss)) (ground (arith, found, miss)) h.1
  ]

-- The tenant's rows are the same, in the same order.
pub record SeesSame (tenant : String) (db db' : Tables) : Type 0 where
  pub same_sites :
      keep (λ s. text_eq s.tenant_id tenant) db'.sites
      ≡ keep (λ s. text_eq s.tenant_id tenant) db.sites
  pub same_spaces :
      keep (λ s. text_eq s.tenant_id tenant) db'.spaces
      ≡ keep (λ s. text_eq s.tenant_id tenant) db.spaces

module _ (other tenant : String) (differ : text_eq other tenant ≡ false) where
  foreign : (t : String) → t ≡ other → text_eq t tenant ≡ false
  foreign t e = rw e differ

  Write-SeesSame :
      (db db' : Tables) → Steps.Write other db db' → IsSound db → SeesSame tenant db db'
  Write-SeesSame db _ Steps.nothing h = record { same_sites = refl; same_spaces = refl }
  Write-SeesSame db _ (Steps.devices sensors displays) h = record {
    same_sites = refl;
    same_spaces = refl;
  }
  Write-SeesSame db _ (Steps.site_added s db' own e) h =
      rw (← (insert_site_fits s db db' e).1) (record {
        same_sites =
            keep-append_other (λ x. text_eq x.tenant_id tenant) s db.sites
              (foreign s.tenant_id own);
        same_spaces = refl;
      })
  Write-SeesSame db _ (Steps.site_stored id s s' db' found same_id own e) h =
      let hit = first_hit (own_site id other) db.sites s found in
      let ours : s'.tenant_id ≡ other = own ∙ (eq_iff s.tenant_id other).0 (ground (arith, hit)) in
      rw (← (store_site_fits s' db db' e).1) (record {
        same_sites =
            keep-rewrite_other (λ x. text_eq x.tenant_id tenant) (own_site s'.id s'.tenant_id)
              (λ _. s') db.sites
              (λ x k.
                foreign x.tenant_id
                  ((eq_iff x.tenant_id s'.tenant_id).0 (ground (arith, k)) ∙ ours))
              (λ x k. foreign s'.tenant_id ours);
        same_spaces = refl;
      })
  Write-SeesSame db _ (Steps.site_closed id now s found) h =
      let close : Site → Site = λ t. record t { is_active = false; updated_at = now } in
      record {
        same_sites =
            ap (keep (λ x. text_eq x.tenant_id tenant))
              (by_id_alone id other close s db.sites found h.sites_apart)
            ∙ keep-rewrite_other (λ x. text_eq x.tenant_id tenant) (own_site id other) close
                db.sites
                (λ x k. foreign x.tenant_id ((eq_iff x.tenant_id other).0 (ground (arith, k))))
                (λ x k. foreign x.tenant_id ((eq_iff x.tenant_id other).0 (ground (arith, k))));
        same_spaces = refl;
      }
  Write-SeesSame db _ (Steps.space_added s r db' own e) h =
      let (site, found, row, fit, fits, same) = insert_space_fits s r db db' e in
      let ours = active_site_own s.site_id other site db.sites own found h.sites_apart in
      rw (← same) (record {
        same_sites = refl;
        same_spaces =
            keep-append_other (λ x. text_eq x.tenant_id tenant) r db.spaces
              (foreign r.tenant_id
                (ap (λ x. x.tenant_id) (sym row) ∙ (eq_iff site.tenant_id other).0 ours));
      })
  Write-SeesSame db _ (Steps.space_stored id s s' sensors displays db' found kept e) h =
      let before : Tables = record db { sensor_devices = sensors; display_devices = displays } in
      let hit = first_hit (own_live_space id other) db.spaces s found in
      let ours : s'.tenant_id ≡ other =
        kept.same_tenant ∙ (eq_iff s.tenant_id other).0 (ground (arith, hit)) in
      rw (← (store_space_fits s' before db' e).2) (record {
        same_sites = refl;
        same_spaces =
            keep-rewrite_other (λ x. text_eq x.tenant_id tenant) (own_space s'.id s'.tenant_id)
              (λ _. s') db.spaces
              (λ x k.
                foreign x.tenant_id
                  ((eq_iff x.tenant_id s'.tenant_id).0 (ground (arith, k)) ∙ ours))
              (λ x k. foreign s'.tenant_id ours);
      })

-- In sound tables no sequence of calls of other tenants adds, changes, reorders or removes a site or
-- a space of a tenant, whatever ids they name.
pub others_change_nothing :
    (codec : Bool) (upper : String → String) (tenant : String) (cs : List (String × Call))
    (db : Tables)
    → IsSound db
    → All (λ c. text_eq c.0 tenant ≡ false) cs
    → SeesSame tenant db (run_calls codec upper cs db)
unfolding run_calls
others_change_nothing codec upper tenant [] db h foreign = record {
  same_sites = refl;
  same_spaces = refl;
}
others_change_nothing codec upper tenant (c ∷ cs) db h foreign =
    let db' = run_call codec upper c.0 c.1 db in
    let step = Steps.run_call-Write c.0 codec upper c.1 db in
    let one = Write-SeesSame c.0 tenant foreign.0 db db' step h in
    let more =
      others_change_nothing codec upper tenant cs db' (Write-IsSound c.0 db db' step h) foreign.1 in
    record {
      same_sites = more.same_sites ∙ one.same_sites;
      same_spaces = more.same_spaces ∙ one.same_spaces;
    }
