-- ===== src/Access/Grants.antt =====
-- What the scopes of a key grant.
use smart_parking_platform.Prelude.{
  String, text_eq, text_eq_refl, eq_iff, List, [], ◌∷◌, ◌++◌, none, some, true, false, ◌||◌, ◌≡◌,
  refl, sym, arith, Bool-cases, inl, inr, subst, ◌⊎◌, first, first-All, is_some, Option-cases,
}
use smart_parking_platform.Access.Types.{
  api_key, ApiKeyRow, Database, TenantContext, pass, http_error,
}
use smart_parking_platform.Access.Tenant.{key_row}
use smart_parking_platform.Access.Scopes.{
  scope_hierarchy, expansion, expand_scopes, member, subset, scopes_suffice, check_key_scopes,
  check_scopes, enforce_api_key_scopes,
}

-- Every scope of the first list is in the second.
abbrev pub Within : List String → List String → Type 0
Within a b = (s : String) → member s a ≡ true → member s b ≡ true

member-append : (s : String) (a b : List String) → member s (a ++ b) ≡ (member s a || member s b)
member-append s [] b = refl
member-append s (x ∷ a) b = ground (arith, member-append s a b)

Within-subset : (a b : List String) → Within a b → subset a b ≡ true
unfolding subset
Within-subset [] b w = refl
Within-subset (x ∷ a) b w = ground (
  arith,
  w x (ground (arith, text_eq_refl x)),
  Within-subset a b (λ s h. w s (ground (arith, h))),
)

subset-Within : (a b : List String) → subset a b ≡ true → Within a b
unfolding subset
subset-Within [] b h s m = ground arith
subset-Within (x ∷ a) b h s m = elim (Bool-cases (text_eq s x)) [
  | inl same ↦ subst (λ z. member z b ≡ true) (sym ((eq_iff s x).0 same)) (ground (arith, h))
  | inr other ↦ subset-Within a b (ground (arith, h)) s (ground (arith, m, other))
]

expansion-Within :
    (s : String) (b : List String) → member s b ≡ true → Within (expansion s) (expand_scopes b)
unfolding expand_scopes
expansion-Within s [] m z h = ground arith
expansion-Within s (x ∷ b) m z h = elim (Bool-cases (text_eq s x)) [
  | inl same ↦
      rw (member-append z (expansion x) (expand_scopes b)) (rw (← (eq_iff s x).0 same, h) refl)
  | inr other ↦
      rw (member-append z (expansion x) (expand_scopes b))
        (ground (arith, expansion-Within s b (ground (arith, m, other)) z h))
]

expand_scopes-Within : (a b : List String) → Within a b → Within (expand_scopes a) (expand_scopes b)
unfolding expand_scopes
expand_scopes-Within [] b w z h = ground arith
expand_scopes-Within (x ∷ a) b w z h = elim (Bool-cases (member z (expansion x))) [
  | inl here ↦ expansion-Within x b (w x (ground (arith, text_eq_refl x))) z here
  | inr later ↦
      expand_scopes-Within a b (λ s m. w s (ground (arith, m))) z
        (ground (arith, member-append z (expansion x) (expand_scopes a), h, later))
]

-- A key that is accepted for some scopes is accepted for fewer, and stays so if it is given more:
-- from a key with the scopes `a` and the requirement `r` to any key whose scopes contain `a` and any
-- requirement within `r`.
scopes_suffice_monotone :
    (r r' a b : List String)
    → subset r' r ≡ true
    → subset a b ≡ true
    → scopes_suffice r a ≡ true
    → scopes_suffice r' b ≡ true
unfolding scopes_suffice
scopes_suffice_monotone r r' a b less more h =
    let up = expand_scopes-Within a b (subset-Within a b more) in
    let down = expand_scopes-Within r' r (subset-Within r' r less) in
    let fits : subset (expand_scopes r) (expand_scopes a) ≡ true
        → subset (expand_scopes r') (expand_scopes b) ≡ true =
      (λ e.
        Within-subset (expand_scopes r') (expand_scopes b)
          (λ s m. up s (subset-Within (expand_scopes r) (expand_scopes a) e s (down s m)))) in
    ground (arith, h, up "*", up "admin:*", fits)

-- An API key that holds every required scope, at least one, passes.
held_scopes_pass :
    (required : List String) (s : String) (ss : List String) (c : TenantContext)
    → c.source ≡ api_key
    → c.api_key_scopes ≡ some (s ∷ ss)
    → subset required (s ∷ ss) ≡ true
    → check_scopes required c ≡ pass c
unfolding check_scopes check_key_scopes scopes_suffice
held_scopes_pass required s ss c key held all =
    let inside = expand_scopes-Within required (s ∷ ss) (subset-Within required (s ∷ ss) all) in
    let fits = Within-subset (expand_scopes required) (expand_scopes (s ∷ ss)) inside in
    ground (arith, key, held, fits)

absurd_admin :
    (s : String)
    → "admin:*" ≡ s
    → first (λ e. text_eq e.0 s) scope_hierarchy ≡ none
    → member "admin:*" (s ∷ []) ≡ false
absurd_admin s same missing =
    let found : is_some (first (λ e. text_eq e.0 s) scope_hierarchy) ≡ true = rw (← same) refl in
    ground (arith, missing, found)

-- The name of the full scope is never in an expanded set: it stands for "*".
no_admin_name : (s : String) → member "admin:*" (expansion s) ≡ false
unfolding expansion
no_admin_name s = elim (Option-cases (first (λ e. text_eq e.0 s) scope_hierarchy)) [
  | inr (e, found) ↦
      rw (found, expansion)
        (first-All (λ x. member "admin:*" x.1 ≡ false) (λ x. text_eq x.0 s) scope_hierarchy e found
          (
            refl,
            (
              refl,
              (
                refl,
                (
                  refl,
                  (
                    refl,
                    (refl, (refl, (refl, (refl, (refl, (refl, (refl, (refl, (refl, tt))))))))),
                  ),
                ),
              ),
            ),
          )).0
  | inl missing ↦
      rw (missing, expansion)
        (elim (Bool-cases (text_eq "admin:*" s)) [
          | inl same ↦ absurd_admin s ((eq_iff "admin:*" s).0 same) missing
          | inr other ↦ ground (arith, other)
        ])
]

no_admin_names : (ss : List String) → member "admin:*" (expand_scopes ss) ≡ false
unfolding expand_scopes
no_admin_names [] = refl
no_admin_names (s ∷ ss) =
    rw (member-append "admin:*" (expansion s) (expand_scopes ss), no_admin_name s)
      (no_admin_names ss)

-- For an active API key with at least one scope, the check on the row of the key agrees with the check
-- on the context that carries the scopes of the row.
enforce_api_key_scopes-eq-check_scopes :
    (required : List String) (id s : String) (ss : List String) (k : ApiKeyRow) (c : TenantContext)
    (db : Database)
    → key_row id db ≡ some k
    → k.scopes ≡ some (s ∷ ss)
    → c.source ≡ api_key
    → c.api_key_scopes ≡ k.scopes
    → (enforce_api_key_scopes required id db ≡ pass true × check_scopes required c ≡ pass c)
      ⊎ (enforce_api_key_scopes required id db ≡ http_error 403
          × check_scopes required c ≡ http_error 403)
unfolding enforce_api_key_scopes check_scopes check_key_scopes scopes_suffice
enforce_api_key_scopes-eq-check_scopes required id s ss k c db row scopes key same =
    ground (arith, row, scopes, key, same, no_admin_names (s ∷ ss))
