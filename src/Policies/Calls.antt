-- ===== src/Policies/Calls.antt =====
-- Requests to the router as steps on the tables, and what no step changes.
use smart_parking_platform.Prelude.{
  ℕ, ◌+◌, String, List, [], ◌∷◌, Bool, ◌≡◌, refl, ◌∙◌, arith, keep, Option-cases, Bool-cases, inl,
  inr,
}
use smart_parking_platform.Display.Types.{DisplayCommand, SpaceRow, World}
use smart_parking_platform.Display.Policy.{
  VersionReply, get_display_policy, cached_policy, current_version, remember,
  invalidate_policy_cache,
}
use smart_parking_platform.Display.Compute.{
  compute_display_state, compute_display_command, recompute_loop, force_recompute_all_spaces,
  live_space,
}
use smart_parking_platform.Policies.Types.{
  PolicyTables, display_world, DisplayPolicyCreate, DisplayPolicyUpdate, AdminOverrideCreate,
}
use smart_parking_platform.Policies.Endpoints.{
  Setup, invalidated, version_bumped, recomputed, announced, create_display_policy,
}
use smart_parking_platform.Policies.Changes.{
  displayed, update_display_policy, create_admin_override, delete_admin_override,
}

-- The arguments of the handlers.
pub data Call : Type 0 where
  post_policy : String → ℕ → DisplayPolicyCreate → String → Call
  patch_policy : String → ℕ → DisplayPolicyUpdate → Call
  post_override : String → ℕ → AdminOverrideCreate → Call
  remove_override : String → Call

unfoldable pub run_call : Setup → Call → PolicyTables → PolicyTables
run_call s (post_policy new_id now q tenant) db = (create_display_policy s new_id now q tenant db).1
run_call s (patch_policy id now u) db = (update_display_policy s id now u db).1
run_call s (post_override new_id now q) db = (create_admin_override s new_id now q db).1
run_call s (remove_override id) db = (delete_admin_override id db).1

unfoldable pub run_calls : Setup → List Call → PolicyTables → PolicyTables
run_calls s [] db = db
run_calls s (c ∷ cs) db = run_calls s cs (run_call s c db)

-- The same tables, but for the caches and the versions.
pub record SameTables (db db' : PolicyTables) : Type 0 where
  pub same_tenants : db'.tenants ≡ db.tenants
  pub same_policies : db'.policies ≡ db.policies
  pub same_overrides : db'.overrides ≡ db.overrides
  pub same_spaces : db'.machine.spaces ≡ db.machine.spaces

policy_read_spaces :
    (now : ℕ) (reply : VersionReply) (tenant : String) (w : World)
    → (get_display_policy now reply tenant w).1.spaces ≡ w.spaces
unfolding get_display_policy remember
policy_read_spaces now reply tenant w =
    elim (Option-cases (
      cached_policy now (current_version reply) (w.policy_cache_time tenant)
        (w.policy_cache tenant))) [
          | inl missing ↦ rw (missing, get_display_policy) refl
          | inr (p, cached) ↦ rw (cached, get_display_policy) refl
        ]

computed_spaces :
    (now : ℕ) (reply : VersionReply) (space tenant : String) (w : World) (cs : List DisplayCommand)
    → compute_display_state now space tenant w ≡ cs
    → (compute_display_command now reply space tenant w).1.spaces ≡ w.spaces
unfolding compute_display_command
computed_spaces now reply space tenant w [] e =
    rw (e, compute_display_command) (policy_read_spaces now reply tenant w)
computed_spaces now reply space tenant w (c ∷ cs) e = rw (e, compute_display_command) refl

loop_spaces :
    (now : ℕ) (reply : VersionReply) (tenant : String) (fails : String → Bool)
    (rows : List SpaceRow) (n : ℕ) (w : World)
    → (recompute_loop now reply tenant fails rows n w).1.spaces ≡ w.spaces
unfolding recompute_loop
loop_spaces now reply tenant fails [] n w = refl
loop_spaces now reply tenant fails (r ∷ rows) n w = elim (Bool-cases (fails r.id)) [
  | inl raised ↦ rw (raised, recompute_loop) (loop_spaces now reply tenant fails rows n w)
  | inr fine ↦
      rw (fine, recompute_loop)
        (loop_spaces now reply tenant fails rows (n + 1)
            (compute_display_command now reply r.id tenant w).1
          ∙ computed_spaces now reply r.id tenant w (compute_display_state now r.id tenant w) refl)
]

module _ (s : Setup) (now : ℕ) (tenant : String) where
  recomputed-SameTables : (db : PolicyTables) → SameTables db (recomputed s now tenant db)
  unfolding recomputed force_recompute_all_spaces display_world
  recomputed-SameTables db = elim (Bool-cases s.has_machine) [
    | inr off ↦
        rw (off, recomputed)
          (record {
            same_tenants = refl;
            same_policies = refl;
            same_overrides = refl;
            same_spaces = refl;
          })
    | inl on ↦
        rw (on, recomputed)
          (record {
            same_tenants = refl;
            same_policies = refl;
            same_overrides = refl;
            same_spaces =
                loop_spaces now s.reply tenant s.fails (keep (live_space tenant) db.machine.spaces)
                  0 (display_world db);
          })
  ]

  pub announced-SameTables : (db : PolicyTables) → SameTables db (announced s now tenant db)
  unfolding invalidated version_bumped invalidate_policy_cache
  announced-SameTables db =
      let after = version_bumped s tenant (invalidated s tenant db) in
      let same = recomputed-SameTables after in
      record {
        same_tenants = same.same_tenants ∙ ground arith;
        same_policies = same.same_policies ∙ ground arith;
        same_overrides = same.same_overrides ∙ ground arith;
        same_spaces = same.same_spaces ∙ ground arith;
      }

pub displayed-SameTables :
    (s : Setup) (now : ℕ) (space tenant : String) (db : PolicyTables)
    → SameTables db (displayed s now space tenant db)
unfolding displayed display_world
displayed-SameTables s now space tenant db = elim (Bool-cases s.has_machine) [
  | inr off ↦
      rw (off, displayed)
        (record {
          same_tenants = refl;
          same_policies = refl;
          same_overrides = refl;
          same_spaces = refl;
        })
  | inl on ↦
      rw (on, displayed)
        (record {
          same_tenants = refl;
          same_policies = refl;
          same_overrides = refl;
          same_spaces =
              computed_spaces now s.reply space tenant (display_world db)
                (compute_display_state now space tenant (display_world db)) refl;
        })
]
