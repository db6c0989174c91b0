-- ===== src/Policies/Governs.antt =====
-- An override that holds, under the calls that follow.
use smart_parking_platform.Prelude.{
  ℕ, String, text_eq, eq_iff, List, [], ◌∷◌, ◌++◌, some, Bool, true, ◌&&◌, ◌||◌, not, ◌≡◌, ap, ◌∙◌,
  arith, first, any, rewrite, All, Option-cases, Bool-cases, inl, inr,
}
use smart_parking_platform.Estate.Apart.{any-rewrite}
use smart_parking_platform.Display.Types.{AdminOverrideType, SpaceRow}
use smart_parking_platform.Display.Compute.{override_holds}
use smart_parking_platform.Policies.Types.{StoredOverride, PolicyTables}
use smart_parking_platform.Policies.Endpoints.{
  Setup, has_policy_id, insert_policy, new_policy, announced, no_policy_fields,
  create_display_policy,
}
use smart_parking_platform.Policies.Changes.{
  changed_policy, update_display_policy, create_admin_override, delete_admin_override,
  is_undeleted_space, new_override, has_override_id, deactivated, displayed,
}
use smart_parking_platform.Policies.Calls
use smart_parking_platform.Policies.Replace.{inserted_policy}

pub any-append_one :
    (p : StoredOverride → Bool) (r : StoredOverride) (xs : List StoredOverride)
    → any p (xs ++ r ∷ []) ≡ (any p xs || p r)
any-append_one p r [] = ground arith
any-append_one p r (x ∷ xs) = ground (arith, any-append_one p r xs)

-- A call that does not remove the override.
unfoldable pub spares : String → Calls.Call → Bool
spares id (Calls.remove_override other) = not (text_eq other id)
spares id _ = true

-- The override `id`, of this kind and on this space, holds at the time `at`; the space is live.
module _ (at : ℕ) (id space : String) (kind : AdminOverrideType) where
  unfoldable pub holds_at : StoredOverride → Bool
  holds_at o = text_eq o.id id && override_holds at space kind o.row

  pub record Governs (x : SpaceRow) (db : PolicyTables) : Type 0 where
    pub holds : any holds_at db.overrides ≡ true
    pub live : first (is_undeleted_space space) db.machine.spaces ≡ some x

  pub Governs-same :
      (x : SpaceRow) (db db' : PolicyTables)
      → Calls.SameTables db db'
      → Governs x db
      → Governs x db'
  Governs-same x db db' same h = record {
    holds = ap (any holds_at) same.same_overrides ∙ h.holds;
    live = ap (first (is_undeleted_space space)) same.same_spaces ∙ h.live;
  }

  run_call-Governs :
      (s : Setup) (c : Calls.Call) (x : SpaceRow) (db : PolicyTables)
      → spares id c ≡ true
      → Governs x db
      → Governs x (Calls.run_call s c db)
  unfolding spares Calls.run_call create_display_policy update_display_policy create_admin_override
      delete_admin_override holds_at override_holds
  run_call-Governs s (Calls.post_policy new_id now q own) x db spared h =
      elim (Bool-cases (any (λ t. text_eq t own) db.tenants)) [
        | inr unknown ↦ rw (unknown, Calls.run_call, create_display_policy) h
        | inl there ↦ elim (Option-cases (insert_policy (new_policy new_id now own q) db)) [
          | inl refused ↦ rw (there, refused, Calls.run_call, create_display_policy) h
          | inr (db', e) ↦
              rw (there, e, Calls.run_call, create_display_policy)
                (Governs-same x db' (announced s now own db')
                  (Calls.announced-SameTables s now own db')
                  (rw (← (inserted_policy (new_policy new_id now own q) db db' e))
                    (record { holds = h.holds; live = h.live })))
        ]
      ]
  run_call-Governs s (Calls.patch_policy pid now u) x db spared h =
      elim (Bool-cases (no_policy_fields u)) [
        | inl empty ↦ rw (empty, Calls.run_call, update_display_policy) h
        | inr fields ↦ elim (Option-cases (first (has_policy_id pid) db.policies)) [
          | inl missing ↦ rw (fields, missing, Calls.run_call, update_display_policy) h
          | inr (p, found) ↦
              let db' : PolicyTables = record db {
                policies = rewrite (has_policy_id pid) (changed_policy now u) db.policies;
              } in
              rw (fields, found, Calls.run_call, update_display_policy)
                (Governs-same x db' (announced s now p.row.policy.tenant_id db')
                  (Calls.announced-SameTables s now p.row.policy.tenant_id db')
                  (record { holds = h.holds; live = h.live }))
        ]
      ]
  run_call-Governs s (Calls.post_override new_id now q) x db spared h =
      elim (Option-cases (first (is_undeleted_space q.space_id) db.machine.spaces)) [
        | inl missing ↦ rw (missing, Calls.run_call, create_admin_override) h
        | inr (y, found) ↦
            let n = new_override new_id now y.tenant_id q in
            let db' : PolicyTables = record db { overrides = db.overrides ++ n ∷ [] } in
            rw (found, Calls.run_call, create_admin_override)
              (Governs-same x db' (displayed s now q.space_id y.tenant_id db')
                (Calls.displayed-SameTables s now q.space_id y.tenant_id db')
                (record {
                  holds = any-append_one holds_at n db.overrides ∙ ground (arith, h.holds);
                  live = h.live;
                }))
      ]
  run_call-Governs s (Calls.remove_override other) x db spared h =
      elim (Option-cases (first (has_override_id other) db.overrides)) [
        | inl missing ↦ rw (missing, Calls.run_call, delete_admin_override) h
        | inr (o, found) ↦
            rw (found, Calls.run_call, delete_admin_override)
              (record {
                holds =
                    any-rewrite (has_override_id other) holds_at deactivated db.overrides (λ y hit.
                      ground
                        (arith, spared, hit, eq_iff y.id other, eq_iff y.id id, eq_iff other id))
                    ∙ h.holds;
                live = h.live;
              })
      ]

  pub run_calls-Governs :
      (s : Setup) (cs : List Calls.Call) (x : SpaceRow) (db : PolicyTables)
      → All (λ c. spares id c ≡ true) cs
      → Governs x db
      → Governs x (Calls.run_calls s cs db)
  unfolding Calls.run_calls
  run_calls-Governs s [] x db spared h = h
  run_calls-Governs s (c ∷ cs) x db spared h =
      run_calls-Governs s cs x (Calls.run_call s c db) spared.1
        (run_call-Governs s c x db spared.0 h)
