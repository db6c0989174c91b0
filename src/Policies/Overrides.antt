-- ===== src/Policies/Overrides.antt =====
-- What an override does to the display of its space.
use smart_parking_platform.Prelude.{
  ℕ, ◌≤◌, String, text_eq_refl, List, [], ◌∷◌, ◌++◌, Bool, true, ◌||◌, ◌≡◌, refl, ap, ◌∙◌, arith,
  first, first-any, any, is_some, map, All, Option-cases, inl, inr,
}
use smart_parking_platform.Access.Types.{pass}
use smart_parking_platform.Display.Types
use smart_parking_platform.Display.Types.{
  AdminOverrideType, DisplayCommand, OverrideRow, SpaceRow, World,
}
use smart_parking_platform.Display.Compute.{
  same_override, still_open, override_holds, compute_display_state, maintenance, sql_policy,
}
use smart_parking_platform.Policies.Types.{
  StoredOverride, PolicyTables, display_world, AdminOverrideCreate, OverrideCreated,
}
use smart_parking_platform.Policies.Endpoints.{Setup}
use smart_parking_platform.Policies.Changes.{
  create_admin_override, is_undeleted_space, new_override, start_or_now, get_computed_display_state,
}
use smart_parking_platform.Policies.Calls
use smart_parking_platform.Policies.Governs.{
  spares, holds_at, Governs, Governs-same, run_calls-Governs, any-append_one,
}

any-map_row :
    (p : OverrideRow → Bool) (q : StoredOverride → Bool) (xs : List StoredOverride)
    → ((x : StoredOverride) → q x ≡ true → p x.row ≡ true)
    → any q xs ≡ true
    → any p (map (λ o. o.row) xs) ≡ true
any-map_row p q [] implies h = ground (arith, h)
any-map_row p q (x ∷ xs) implies h = ground (arith, h, implies x, any-map_row p q xs implies)

-- An override that holds is found by one of the two queries.
some_override_found :
    (at : ℕ) (space : String) (kind : AdminOverrideType) (rows : List OverrideRow)
    → any (override_holds at space kind) rows ≡ true
    → (is_some (first (override_holds at space Types.out_of_service) rows)
        || is_some (first (override_holds at space Types.blocked) rows))
      ≡ true
some_override_found at space Types.out_of_service rows h =
    ground (arith, h, first-any (override_holds at space Types.out_of_service) rows)
some_override_found at space Types.blocked rows h =
    ground (arith, h, first-any (override_holds at space Types.blocked) rows)

module _ (at : ℕ) (space : String) (kind : AdminOverrideType) where
  -- An override that holds decides by rule 1 or 2.
  computed_by_override :
      (tenant : String) (w : World)
      → any (override_holds at space kind) w.overrides ≡ true
      → (c : DisplayCommand) × (compute_display_state at space tenant w ≡ c ∷ [])
        × (c.priority_level ≤ 2)
        × (c.state ≡ "MAINTENANCE")
  unfolding compute_display_state maintenance
  computed_by_override tenant w h =
      elim (Option-cases (first (override_holds at space Types.out_of_service) w.overrides)) [
        | inr (o, found) ↦ (
          maintenance (sql_policy tenant w).out_of_service_color 1 Types.override_out_of_service,
          rw (found, compute_display_state) refl,
          omega arith,
          refl,
        )
        | inl none_out ↦
            elim (Option-cases (first (override_holds at space Types.blocked) w.overrides)) [
              | inr (o, found) ↦ (
                maintenance (sql_policy tenant w).blocked_color 2 Types.override_blocked,
                rw (none_out, found, compute_display_state) refl,
                omega arith,
                refl,
              )
              | inl none_blocked ↦
                  ground
                    (arith, some_override_found at space kind w.overrides h, none_out, none_blocked)
            ]
      ]

same_override_refl : (kind : AdminOverrideType) → same_override kind kind ≡ true
unfolding same_override
same_override_refl Types.blocked = refl
same_override_refl Types.out_of_service = refl

override_made :
    (s : Setup) (new_id : String) (now at : ℕ) (q : AdminOverrideCreate) (db : PolicyTables)
    (v : OverrideCreated)
    → (create_admin_override s new_id now q db).0 ≡ pass v
    → start_or_now now q.start_time ≤ at
    → still_open at q.end_time ≡ true
    → (x : SpaceRow) × Governs at new_id q.space_id q.override_type x
        (create_admin_override s new_id now q db).1
unfolding create_admin_override holds_at override_holds new_override
override_made s new_id now at q db v made begun unended =
    elim (Option-cases (first (is_undeleted_space q.space_id) db.machine.spaces)) [
      | inl missing ↦ ground (arith, made, missing)
      | inr (x, found) ↦
          let n = new_override new_id now x.tenant_id q in
          let db' : PolicyTables = record db { overrides = db.overrides ++ n ∷ [] } in
          let governs : Governs at new_id q.space_id q.override_type x db' = record {
            holds =
                any-append_one (holds_at at new_id q.space_id q.override_type) n db.overrides
                ∙ ground (
                  arith,
                  begun,
                  unended,
                  text_eq_refl new_id,
                  text_eq_refl q.space_id,
                  same_override_refl q.override_type,
                );
            live = found;
          } in
          (
            x,
            rw (found, create_admin_override)
                (Governs-same at new_id q.space_id q.override_type x db' _
                  (Calls.displayed-SameTables s now q.space_id x.tenant_id db') governs),
          )
    ]

-- Once an override was created, the computed state of its space is that of rule 1 or 2, maintenance,
-- at every time from its start until its end, whatever policies and overrides are created, changed
-- and removed in between, this override excepted.
pub override_decides_the_display :
    (s : Setup) (new_id : String) (now at : ℕ) (q : AdminOverrideCreate) (db : PolicyTables)
    (v : OverrideCreated) (cs : List Calls.Call)
    → (create_admin_override s new_id now q db).0 ≡ pass v
    → start_or_now now q.start_time ≤ at
    → still_open at q.end_time ≡ true
    → All (λ c. spares new_id c ≡ true) cs
    → (c : DisplayCommand) × (get_computed_display_state at q.space_id
          (Calls.run_calls s cs (create_admin_override s new_id now q db).1)
        ≡ pass (c ∷ []))
      × (c.priority_level ≤ 2)
      × (c.state ≡ "MAINTENANCE")
unfolding get_computed_display_state display_world holds_at
override_decides_the_display s new_id now at q db v cs made begun unended spared =
    let (x, governs) = override_made s new_id now at q db v made begun unended in
    let db' = Calls.run_calls s cs (create_admin_override s new_id now q db).1 in
    let later =
      run_calls-Governs at new_id q.space_id q.override_type s cs x
        (create_admin_override s new_id now q db).1 spared governs in
    let held =
      any-map_row (override_holds at q.space_id q.override_type)
        (holds_at at new_id q.space_id q.override_type) db'.overrides (λ o k. ground (arith, k))
        later.holds in
    let (c, computed, low, shown) =
      computed_by_override at q.space_id q.override_type x.tenant_id (display_world db') held in
    (c, rw (later.live, get_computed_display_state) (ap (λ r. pass (r)) computed), low, shown)
