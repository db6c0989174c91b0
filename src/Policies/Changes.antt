-- ===== src/Policies/Changes.antt =====
-- The change of a policy, and the endpoints of the overrides.
use smart_parking_platform.Prelude.{
  ℕ, String, text_eq, List, [], ◌∷◌, ◌++◌, Option, none, some, Bool, true, false, ◌&&◌, not,
  if◌then◌else◌, first, rewrite, is_some,
}
use smart_parking_platform.Access.Types.{Outcome, pass, http_error}
use smart_parking_platform.Display.Types.{DisplayCommand, SpaceRow}
use smart_parking_platform.Display.Compute.{compute_display_state, compute_display_command}
use smart_parking_platform.Estate.Types.{or_kept, or_kept_null}
use smart_parking_platform.Policies.Types.{
  StoredPolicy, StoredOverride, PolicyTables, display_world, DisplayPolicyUpdate,
  AdminOverrideCreate, OverrideCreated,
}
use smart_parking_platform.Policies.Endpoints.{Setup, has_policy_id, announced, no_policy_fields}

-- SET of the fields that are given, and updated_at
unfoldable pub changed_policy : ℕ → DisplayPolicyUpdate → StoredPolicy → StoredPolicy
changed_policy now u p = record p {
  row = record {
    policy = record {
      id = p.row.policy.id;
      tenant_id = p.row.policy.tenant_id;
      name = or_kept p.row.policy.name u.name;
      reserved_soon_threshold_sec =
          or_kept p.row.policy.reserved_soon_threshold_sec u.reserved_soon_threshold_sec;
      sensor_unknown_timeout_sec =
          or_kept p.row.policy.sensor_unknown_timeout_sec u.sensor_unknown_timeout_sec;
      debounce_window_sec = or_kept p.row.policy.debounce_window_sec u.debounce_window_sec;
      occupied_color = or_kept p.row.policy.occupied_color u.occupied_color;
      free_color = or_kept p.row.policy.free_color u.free_color;
      reserved_color = or_kept p.row.policy.reserved_color u.reserved_color;
      reserved_soon_color = or_kept p.row.policy.reserved_soon_color u.reserved_soon_color;
      blocked_color = or_kept p.row.policy.blocked_color u.blocked_color;
      out_of_service_color = or_kept p.row.policy.out_of_service_color u.out_of_service_color;
      blink_reserved_soon = or_kept p.row.policy.blink_reserved_soon u.blink_reserved_soon;
      blink_pattern_ms = or_kept p.row.policy.blink_pattern_ms u.blink_pattern_ms;
      allow_sensor_override = or_kept p.row.policy.allow_sensor_override u.allow_sensor_override;
    };
    is_active = p.row.is_active;
  };
  description = or_kept_null p.description u.description;
  updated_at = some now;
}

-- `update_display_policy`
unfoldable pub update_display_policy :
    Setup → String → ℕ → DisplayPolicyUpdate → PolicyTables → Outcome StoredPolicy × PolicyTables
update_display_policy s id now u db =
    if no_policy_fields u
    then (http_error 400, db)
    else elim (first (has_policy_id id) db.policies) [
      | none ↦ (http_error 404, db)
      | some p ↦ (
        pass (changed_policy now u p),
        announced s now p.row.policy.tenant_id (record db {
          policies = rewrite (has_policy_id id) (changed_policy now u) db.policies;
        }),
      )
    ]

-- SELECT id, tenant_id, code FROM spaces WHERE id = $1 AND deleted_at IS NULL
abbrev pub is_undeleted_space : String → SpaceRow → Bool
is_undeleted_space id x = text_eq x.id id && not (is_some x.deleted_at)

-- `override.start_time or datetime.utcnow()`
unfoldable pub start_or_now : ℕ → Option ℕ → ℕ
start_or_now now none = now
start_or_now now (some t) = t

unfoldable pub new_override : String → ℕ → String → AdminOverrideCreate → StoredOverride
new_override new_id now tenant q = record {
  id = new_id;
  row = record {
    space_id = q.space_id;
    override_type = q.override_type;
    start_time = start_or_now now q.start_time;
    end_time = q.end_time;
    is_active = true;
  };
  tenant_id = tenant;
  reason = q.reason;
  notes = q.notes;
  created_at = now;
}

-- The computation for one space, whose command is only logged.
unfoldable pub displayed : Setup → ℕ → String → String → PolicyTables → PolicyTables
displayed s now space tenant db =
    if s.has_machine
    then record db {
      machine = (compute_display_command now s.reply space tenant (display_world db)).1;
    }
    else db

-- `create_admin_override`
unfoldable pub create_admin_override :
    Setup → String → ℕ → AdminOverrideCreate → PolicyTables → Outcome OverrideCreated × PolicyTables
create_admin_override s new_id now q db =
    elim (first (is_undeleted_space q.space_id) db.machine.spaces) [
      | none ↦ (http_error 404, db)
      | some x ↦ (
        pass (record {
          id = new_id;
          space_id = q.space_id;
          override_type = q.override_type;
          created_at = now;
        }),
        displayed s now q.space_id x.tenant_id
            (record db { overrides = db.overrides ++ new_override new_id now x.tenant_id q ∷ [] }),
      )
    ]

abbrev pub has_override_id : String → StoredOverride → Bool
has_override_id id o = text_eq o.id id

abbrev pub deactivated : StoredOverride → StoredOverride
deactivated o = record o {
  row = record {
    space_id = o.row.space_id;
    override_type = o.row.override_type;
    start_time = o.row.start_time;
    end_time = o.row.end_time;
    is_active = false;
  };
}

-- `delete_admin_override`: the id of the space, and no recomputation.
unfoldable pub delete_admin_override : String → PolicyTables → Outcome String × PolicyTables
delete_admin_override id db = elim (first (has_override_id id) db.overrides) [
  | none ↦ (http_error 404, db)
  | some o ↦ (
    pass o.row.space_id,
    record db { overrides = rewrite (has_override_id id) deactivated db.overrides },
  )
]

-- `get_computed_display_state`: what the function computes for a live space, over its view.
unfoldable pub get_computed_display_state :
    ℕ → String → PolicyTables → Outcome (List DisplayCommand)
get_computed_display_state now space db =
    elim (first (is_undeleted_space space) db.machine.spaces) [
      | none ↦ http_error 404
      | some x ↦ pass (compute_display_state now space x.tenant_id (display_world db))
    ]
