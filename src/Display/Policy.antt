-- ===== src/Display/Policy.antt =====
-- The policy cache of a `DisplayStateMachine`: `_get_display_policy` and
-- `invalidate_policy_cache`. Redis is asked for one version number; its answer is an argument.
use smart_parking_platform.Prelude.{
  ℕ, String, List, ◌-◌, ◌&&◌, Option, none, some, first, ltb, ◌==◌, text_eq, if◌then◌else◌,
}
use smart_parking_platform.Display.Types.{DisplayPolicy, PolicyRow, World, policy_with_defaults}

-- What becomes of `redis_client.get(version_key)`.
pub data VersionReply : Type 0 where
  no_client failed missing : VersionReply
  found : ℕ → VersionReply

unfoldable pub current_version : VersionReply → ℕ
current_version (found v) = v
current_version _ = 0

abbrev pub policy_cache_ttl : ℕ
policy_cache_ttl = 300000000

-- SELECT * FROM display_policies WHERE tenant_id = $1 AND is_active = true LIMIT 1
unfoldable pub active_policy : String → List PolicyRow → Option DisplayPolicy
active_policy tenant rows =
    elim (first (λ r. text_eq r.policy.tenant_id tenant && r.is_active) rows) [
      | none ↦ none
      | some r ↦ some r.policy
    ]

-- The policy of the database, or the default one.
unfoldable pub database_policy : String → World → DisplayPolicy
unfolding active_policy policy_with_defaults
database_policy tenant w = elim (active_policy tenant w.policies) [
  | none ↦ policy_with_defaults "default" tenant "Default Policy"
  | some p ↦ p
]

-- The cached policy, if it is young enough and of the current version.
unfoldable pub cached_policy : ℕ → ℕ → Option ℕ → Option (DisplayPolicy × ℕ) → Option DisplayPolicy
cached_policy now version none entry = none
cached_policy now version (some cached_at) none = none
cached_policy now version (some cached_at) (some (p, v)) =
    if ltb (now - cached_at) policy_cache_ttl && v == version then some p else none

unfoldable pub remember : ℕ → ℕ → String → DisplayPolicy → World → World
remember now version tenant p w = record w {
  policy_cache = λ t. if text_eq tenant t then some (p, version) else w.policy_cache t;
  policy_cache_time = λ t. if text_eq tenant t then some now else w.policy_cache_time t;
}

-- `_get_display_policy`, with one reading of the clock.
unfoldable pub get_display_policy : ℕ → VersionReply → String → World → DisplayPolicy × World
unfolding remember
get_display_policy now reply tenant w =
    let version = current_version reply in
    elim (cached_policy now version (w.policy_cache_time tenant) (w.policy_cache tenant)) [
      | some p ↦ (p, w)
      | none ↦ (database_policy tenant w, remember now version tenant (database_policy tenant w) w)
    ]

-- `invalidate_policy_cache`
unfoldable pub invalidate_policy_cache : String → World → World
invalidate_policy_cache tenant w = record w {
  policy_cache = λ t. if text_eq tenant t then none else w.policy_cache t;
  policy_cache_time = λ t. if text_eq tenant t then none else w.policy_cache_time t;
}
