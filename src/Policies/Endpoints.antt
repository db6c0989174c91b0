-- ===== src/Policies/Endpoints.antt =====
-- The endpoints. `Setup` says what the application's state has: a display state machine, a Redis
-- client, and what that machine's own calls meet: the answer for the version, and the spaces for
-- which the computation raises.
use smart_parking_platform.Prelude.{
  ℕ, ◌+◌, String, text_eq, List, [], ◌∷◌, ◌++◌, Option, none, some, Bool, true, false, ◌&&◌, ◌||◌,
  not, leb, if◌then◌else◌, keep, first, any, is_some,
}
use smart_parking_platform.Access.Types.{Outcome, pass, http_error}
use smart_parking_platform.Display.Policy.{VersionReply, invalidate_policy_cache}
use smart_parking_platform.Display.Compute.{force_recompute_all_spaces}
use smart_parking_platform.Policies.Types.{
  StoredPolicy, PolicyTables, display_world, DisplayPolicyCreate, DisplayPolicyUpdate,
  PolicyCreated,
}

pub record Setup : Type 0 where
  pub has_machine : Bool
  pub has_redis : Bool
  pub reply : VersionReply
  pub fails : String → Bool

-- ORDER BY is_active DESC, created_at DESC
unfoldable pub ranks_before : StoredPolicy → StoredPolicy → Bool
ranks_before p q =
    if p.row.is_active
    then if q.row.is_active then leb q.created_at p.created_at else true
    else if q.row.is_active
    then false
    else leb q.created_at p.created_at

unfoldable pub insert_ranked : StoredPolicy → List StoredPolicy → List StoredPolicy
insert_ranked p [] = p ∷ []
insert_ranked p (q ∷ qs) =
    let rest = insert_ranked p qs in if ranks_before p q then p ∷ q ∷ qs else q ∷ rest

unfoldable pub ranked : List StoredPolicy → List StoredPolicy
ranked [] = []
ranked (p ∷ ps) = insert_ranked p (ranked ps)

-- `list_display_policies`
unfoldable pub list_display_policies : Option String → PolicyTables → Outcome (List StoredPolicy)
list_display_policies none db = http_error 400
list_display_policies (some tenant) db =
    pass (ranked (keep (λ p. text_eq p.row.policy.tenant_id tenant) db.policies))

abbrev pub has_policy_id : String → StoredPolicy → Bool
has_policy_id id p = text_eq p.row.policy.id id

-- `get_display_policy`
unfoldable pub get_display_policy : String → PolicyTables → Outcome StoredPolicy
get_display_policy id db = elim (first (has_policy_id id) db.policies) [
  | none ↦ http_error 404
  | some p ↦ pass p
]

-- What follows a change of a tenant's policy: the invalidation, the version, the recomputation.
unfoldable pub invalidated : Setup → String → PolicyTables → PolicyTables
invalidated s tenant db =
    if s.has_machine then record db { machine = invalidate_policy_cache tenant db.machine } else db

unfoldable pub version_bumped : Setup → String → PolicyTables → PolicyTables
version_bumped s tenant db =
    if s.has_redis
    then record db { versions = λ t. if text_eq tenant t then db.versions t + 1 else db.versions t }
    else db

unfoldable pub recomputed : Setup → ℕ → String → PolicyTables → PolicyTables
recomputed s now tenant db =
    if s.has_machine
    then record db {
      machine = (force_recompute_all_spaces now s.reply tenant s.fails (display_world db)).1;
    }
    else db

abbrev pub announced : Setup → ℕ → String → PolicyTables → PolicyTables
announced s now tenant db =
    recomputed s now tenant (version_bumped s tenant (invalidated s tenant db))

unfoldable pub new_policy : String → ℕ → String → DisplayPolicyCreate → StoredPolicy
new_policy new_id now tenant q = record {
  row = record {
    policy = record {
      id = new_id;
      tenant_id = tenant;
      name = q.name;
      reserved_soon_threshold_sec = q.reserved_soon_threshold_sec;
      sensor_unknown_timeout_sec = q.sensor_unknown_timeout_sec;
      debounce_window_sec = q.debounce_window_sec;
      occupied_color = q.occupied_color;
      free_color = q.free_color;
      reserved_color = q.reserved_color;
      reserved_soon_color = q.reserved_soon_color;
      blocked_color = q.blocked_color;
      out_of_service_color = q.out_of_service_color;
      blink_reserved_soon = q.blink_reserved_soon;
      blink_pattern_ms = q.blink_pattern_ms;
      allow_sensor_override = q.allow_sensor_override;
    };
    is_active = true;
  };
  description = q.description;
  created_at = now;
  updated_at = none;
}

-- uq_display_policies_active_per_tenant ON display_policies(tenant_id) WHERE is_active = TRUE
unfoldable pub is_active_of : String → StoredPolicy → Bool
is_active_of tenant p = p.row.is_active && text_eq p.row.policy.tenant_id tenant

-- The INSERT, which the primary key or the unique index may refuse.
unfoldable pub insert_policy : StoredPolicy → PolicyTables → Option PolicyTables
insert_policy p db =
    if any (has_policy_id p.row.policy.id) db.policies
      || (p.row.is_active && any (is_active_of p.row.policy.tenant_id) db.policies)
    then none
    else some (record db { policies = db.policies ++ p ∷ [] })

-- `create_display_policy`
unfoldable pub create_display_policy :
    Setup
    → String
    → ℕ
    → DisplayPolicyCreate
    → String
    → PolicyTables
    → Outcome PolicyCreated × PolicyTables
create_display_policy s new_id now q tenant db =
    if any (λ t. text_eq t tenant) db.tenants
    then elim (insert_policy (new_policy new_id now tenant q) db) [
      | none ↦ (http_error 500, db)
      | some db' ↦ (
        pass (record { id = new_id; tenant_id = tenant; name = q.name; created_at = now }),
        announced s now tenant db',
      )
    ]
    else (http_error 404, db)

-- Whether update_fields is empty.
unfoldable pub no_policy_fields : DisplayPolicyUpdate → Bool
no_policy_fields u = not (
    is_some u.name
    || (is_some u.description
        || (is_some u.reserved_soon_threshold_sec
            || (is_some u.sensor_unknown_timeout_sec
                || (is_some u.debounce_window_sec
                    || (is_some u.occupied_color
                        || (is_some u.free_color
                            || (is_some u.reserved_color
                                || (is_some u.reserved_soon_color
                                    || (is_some u.blocked_color
                                        || (is_some u.out_of_service_color
                                            || (is_some u.blink_reserved_soon
                                                || (is_some u.blink_pattern_ms
                                                    || is_some u.allow_sensor_override)))))))))))))
