-- ===== src/Policies/Replace.antt =====
-- The one active policy of a tenant.
use smart_parking_platform.Prelude.{
  ℕ, String, text_eq, text_eq_refl, List, [], ◌∷◌, ◌++◌, some, Bool, true, ◌||◌, ◌≡◌, refl, ap, ◌∙◌,
  arith, first, any, rewrite, Option-cases, Bool-cases, inl, inr,
}
use smart_parking_platform.Access.Types.{pass, http_error}
use smart_parking_platform.Estate.Apart.{any-rewrite}
use smart_parking_platform.Policies.Types.{
  StoredPolicy, PolicyTables, DisplayPolicyCreate, DisplayPolicyUpdate, PolicyCreated,
}
use smart_parking_platform.Policies.Endpoints.{
  Setup, has_policy_id, is_active_of, insert_policy, new_policy, announced, no_policy_fields,
  create_display_policy,
}
use smart_parking_platform.Policies.Changes.{
  changed_policy, update_display_policy, create_admin_override, delete_admin_override,
  is_undeleted_space, new_override, has_override_id,
}
use smart_parking_platform.Policies.Calls

-- The tenant is known and has an active policy.
record HasPolicy (tenant : String) (db : PolicyTables) : Type 0 where
  known : any (λ t. text_eq t tenant) db.tenants ≡ true
  active : any (is_active_of tenant) db.policies ≡ true

HasPolicy-same :
    (tenant : String) (db db' : PolicyTables)
    → Calls.SameTables db db'
    → HasPolicy tenant db
    → HasPolicy tenant db'
HasPolicy-same tenant db db' same h = record {
  known = ap (any (λ t. text_eq t tenant)) same.same_tenants ∙ h.known;
  active = ap (any (is_active_of tenant)) same.same_policies ∙ h.active;
}

any-append_either :
    (p : StoredPolicy → Bool) (r : StoredPolicy) (xs : List StoredPolicy)
    → any p (xs ++ r ∷ []) ≡ (any p xs || p r)
any-append_either p r [] = ground arith
any-append_either p r (x ∷ xs) = ground (arith, any-append_either p r xs)

pub inserted_policy :
    (p : StoredPolicy) (db db' : PolicyTables)
    → insert_policy p db ≡ some db'
    → record db { policies = db.policies ++ p ∷ [] } ≡ db'
unfolding insert_policy
inserted_policy p db db' e = ground (arith, e)

create-HasPolicy :
    (s : Setup) (new_id : String) (now : ℕ) (q : DisplayPolicyCreate) (own tenant : String)
    (db : PolicyTables)
    → HasPolicy tenant db
    → HasPolicy tenant (create_display_policy s new_id now q own db).1
unfolding create_display_policy
create-HasPolicy s new_id now q own tenant db h =
    let p = new_policy new_id now own q in
    elim (Bool-cases (any (λ t. text_eq t own) db.tenants)) [
      | inr unknown ↦ rw (unknown, create_display_policy) h
      | inl there ↦ elim (Option-cases (insert_policy p db)) [
        | inl refused ↦ rw (there, refused, create_display_policy) h
        | inr (db', e) ↦
            let more : HasPolicy tenant db' = rw (← (inserted_policy p db db' e)) (record {
              known = h.known;
              active =
                  any-append_either (is_active_of tenant) p db.policies ∙ ground (arith, h.active);
            }) in
            rw (there, e, create_display_policy)
              (HasPolicy-same tenant db' (announced s now own db')
                (Calls.announced-SameTables s now own db') more)
      ]
    ]

update-HasPolicy :
    (s : Setup) (id : String) (now : ℕ) (u : DisplayPolicyUpdate) (tenant : String)
    (db : PolicyTables)
    → HasPolicy tenant db
    → HasPolicy tenant (update_display_policy s id now u db).1
unfolding update_display_policy
update-HasPolicy s id now u tenant db h = elim (Bool-cases (no_policy_fields u)) [
  | inl empty ↦ rw (empty, update_display_policy) h
  | inr fields ↦ elim (Option-cases (first (has_policy_id id) db.policies)) [
    | inl missing ↦ rw (fields, missing, update_display_policy) h
    | inr (p, found) ↦
        let db' : PolicyTables = record db {
          policies = rewrite (has_policy_id id) (changed_policy now u) db.policies;
        } in
        let more : HasPolicy tenant db' = record {
          known = h.known;
          active =
              any-rewrite (has_policy_id id) (is_active_of tenant) (changed_policy now u)
                db.policies (λ x _. unfold is_active_of changed_policy in refl)
              ∙ h.active;
        } in
        rw (fields, found, update_display_policy)
          (HasPolicy-same tenant db' (announced s now p.row.policy.tenant_id db')
            (Calls.announced-SameTables s now p.row.policy.tenant_id db') more)
  ]
]

override-HasPolicy :
    (s : Setup) (c : Calls.Call) (tenant : String) (db : PolicyTables)
    → HasPolicy tenant db
    → HasPolicy tenant (Calls.run_call s c db)
unfolding Calls.run_call create_admin_override delete_admin_override
override-HasPolicy s (Calls.post_policy new_id now q own) tenant db h =
    create-HasPolicy s new_id now q own tenant db h
override-HasPolicy s (Calls.patch_policy id now u) tenant db h =
    update-HasPolicy s id now u tenant db h
override-HasPolicy s (Calls.post_override new_id now q) tenant db h =
    elim (Option-cases (first (is_undeleted_space q.space_id) db.machine.spaces)) [
      | inl missing ↦ rw (missing, Calls.run_call, create_admin_override) h
      | inr (x, found) ↦
          let db' : PolicyTables = record db {
            overrides = db.overrides ++ new_override new_id now x.tenant_id q ∷ [];
          } in
          rw (found, Calls.run_call, create_admin_override)
            (HasPolicy-same tenant db' _
              (Calls.displayed-SameTables s now q.space_id x.tenant_id db')
              (record { known = h.known; active = h.active }))
    ]
override-HasPolicy s (Calls.remove_override id) tenant db h =
    elim (Option-cases (first (has_override_id id) db.overrides)) [
      | inl missing ↦ rw (missing, Calls.run_call, delete_admin_override) h
      | inr (o, found) ↦
          rw (found, Calls.run_call, delete_admin_override)
            (record { known = h.known; active = h.active })
    ]

run_calls-HasPolicy :
    (s : Setup) (cs : List Calls.Call) (tenant : String) (db : PolicyTables)
    → HasPolicy tenant db
    → HasPolicy tenant (Calls.run_calls s cs db)
unfolding Calls.run_calls
run_calls-HasPolicy s [] tenant db h = h
run_calls-HasPolicy s (c ∷ cs) tenant db h =
    run_calls-HasPolicy s cs tenant (Calls.run_call s c db) (override-HasPolicy s c tenant db h)

create_made :
    (s : Setup) (new_id : String) (now : ℕ) (q : DisplayPolicyCreate) (tenant : String)
    (db : PolicyTables) (v : PolicyCreated)
    → (create_display_policy s new_id now q tenant db).0 ≡ pass v
    → HasPolicy tenant (create_display_policy s new_id now q tenant db).1
unfolding create_display_policy is_active_of new_policy
create_made s new_id now q tenant db v made =
    let p = new_policy new_id now tenant q in
    elim (Bool-cases (any (λ t. text_eq t tenant) db.tenants)) [
      | inr unknown ↦ ground (arith, made, unknown)
      | inl there ↦ elim (Option-cases (insert_policy p db)) [
        | inl refused ↦ ground (arith, made, there, refused)
        | inr (db', e) ↦
            let has : HasPolicy tenant db' = rw (← (inserted_policy p db db' e)) (record {
              known = there;
              active =
                  any-append_either (is_active_of tenant) p db.policies
                  ∙ ground (arith, text_eq_refl tenant);
            }) in
            rw (there, e, create_display_policy)
              (HasPolicy-same tenant db' (announced s now tenant db')
                (Calls.announced-SameTables s now tenant db') has)
      ]
    ]

-- Once a policy was created for a tenant, every later creation for the tenant is answered with 500
-- and changes nothing, whatever policies and overrides are created, changed and removed in between.
pub created_policy_is_never_replaced :
    (s : Setup) (new_id new_id' : String) (now later : ℕ) (q q' : DisplayPolicyCreate)
    (tenant : String) (db : PolicyTables) (v : PolicyCreated) (cs : List Calls.Call)
    → (create_display_policy s new_id now q tenant db).0 ≡ pass v
    → let db' = Calls.run_calls s cs (create_display_policy s new_id now q tenant db).1 in
      create_display_policy s new_id' later q' tenant db' ≡ (http_error 500, db')
unfolding create_display_policy insert_policy new_policy
created_policy_is_never_replaced s new_id new_id' now later q q' tenant db v cs made =
    let h =
      run_calls-HasPolicy s cs tenant (create_display_policy s new_id now q tenant db).1
        (create_made s new_id now q tenant db v made) in
    ground (arith, h.known, h.active)
