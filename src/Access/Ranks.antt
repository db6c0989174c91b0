-- ===== src/Access/Ranks.antt =====
-- Which roles pass which requirement.
use smart_parking_platform.Prelude.{
  ℕ, ◌+◌, ◌≤◌, ◌<◌, true, false, some, ◌≡◌, refl, arith, ltb, if◌then◌else◌,
}
use smart_parking_platform.Access.Types.{
  UserRole, platform_admin, owner, admin, operator, viewer, jwt, TenantContext, pass, http_error,
}
use smart_parking_platform.Access.Roles.{role_level, level_or, check_user_role, require_role}

-- The documented hierarchy, from the least role to the greatest.
abbrev pub rank : UserRole → ℕ
rank viewer = 0
rank operator = 1
rank admin = 2
rank owner = 3
rank platform_admin = 4

-- The check depends on the two roles alone.
require_role-user :
    (minimum role : UserRole) (c : TenantContext)
    → c.source ≡ jwt
    → c.user_role ≡ some role
    → require_role minimum c ≡ (
        if ltb (level_or 0 (role_level role)) (level_or 999 (role_level minimum))
        then http_error 403
        else pass c)
unfolding require_role check_user_role
require_role-user minimum role c user has = ground (arith, user, has)

user_level : (role : UserRole) → rank role < 4 → level_or 0 (role_level role) ≡ rank role + 1
unfolding role_level
user_level viewer h = refl
user_level operator h = refl
user_level admin h = refl
user_level owner h = refl
user_level platform_admin h = omega (arith, h)

required_level :
    (minimum : UserRole) → rank minimum < 4 → level_or 999 (role_level minimum) ≡ rank minimum + 1
unfolding role_level
required_level viewer h = refl
required_level operator h = refl
required_level admin h = refl
required_level owner h = refl
required_level platform_admin h = omega (arith, h)

above_rank : (minimum : UserRole) → rank minimum < level_or 999 (role_level minimum)
unfolding role_level
above_rank viewer = omega arith
above_rank operator = omega arith
above_rank admin = omega arith
above_rank owner = omega arith
above_rank platform_admin = omega arith

platform_level : level_or 0 (role_level platform_admin) ≡ 0
unfolding role_level
platform_level = refl

rank-le : (role : UserRole) → rank role ≤ 4
rank-le viewer = omega arith
rank-le operator = omega arith
rank-le admin = omega arith
rank-le owner = omega arith
rank-le platform_admin = omega arith

ltb_yes : (a b : ℕ) → a < b → ltb a b ≡ true
ltb_yes a b h = ground arith

ltb_no : (a b : ℕ) → b ≤ a → ltb a b ≡ false
ltb_no a b h = ground arith

enough :
    (minimum role : UserRole)
    → rank minimum ≤ rank role
    → rank role < 4
    → ltb (level_or 0 (role_level role)) (level_or 999 (role_level minimum)) ≡ false
enough minimum role h k =
    ltb_no (level_or 0 (role_level role)) (level_or 999 (role_level minimum))
      (omega (arith, user_level role k, required_level minimum (omega (arith, h, k))))

too_low :
    (minimum role : UserRole)
    → rank role < rank minimum
    → ltb (level_or 0 (role_level role)) (level_or 999 (role_level minimum)) ≡ true
too_low minimum role h =
    ltb_yes (level_or 0 (role_level role)) (level_or 999 (role_level minimum))
      (omega (arith, user_level role (omega (arith, h, rank-le minimum)), above_rank minimum))

platform_too_low :
    (minimum : UserRole)
    → ltb (level_or 0 (role_level platform_admin)) (level_or 999 (role_level minimum)) ≡ true
platform_too_low minimum =
    ltb_yes (level_or 0 (role_level platform_admin)) (level_or 999 (role_level minimum))
      (omega (arith, platform_level, above_rank minimum))

-- A user of one of the four roles of the hierarchy passes a requirement exactly if the rank
-- suffices; the platform administrator, the highest role, is refused by every requirement.
pub require_role-ranks :
    (minimum role : UserRole) (c : TenantContext)
    → c.source ≡ jwt
    → c.user_role ≡ some role
    → (rank minimum ≤ rank role → rank role < 4 → require_role minimum c ≡ pass c)
      × (rank role < rank minimum → require_role minimum c ≡ http_error 403)
      × (role ≡ platform_admin → require_role minimum c ≡ http_error 403)
require_role-ranks minimum role c user has = (
  λ h k. rw (require_role-user minimum role c user has, enough minimum role h k) refl,
  λ h. rw (require_role-user minimum role c user has, too_low minimum role h) refl,
  λ e. rw (require_role-user minimum role c user has, e, platform_too_low minimum) refl,
)
