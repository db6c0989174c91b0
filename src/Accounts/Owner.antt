-- ===== src/Accounts/Owner.antt =====
-- From the registration of a user to the first login.
use smart_parking_platform.Prelude.{
  ℕ, String, text_eq, text_eq_refl, [], ◌∷◌, Option, none, some, Bool, true, false, ◌≡◌, refl,
  arith, any,
}
use smart_parking_platform.Access.Types.{TenantRow, Claims, pass, http_error}
use smart_parking_platform.Tokens.Types.{Client}
use smart_parking_platform.Accounts.Refresh.{open_session_refused}
use smart_parking_platform.Accounts.Types.{Account, Member, AccountTables, Registration}
use smart_parking_platform.Accounts.Sessions.{
  oldest_first, insert_older, active_member, active_tenant, join_tenants, fetch_tenants,
  verify_password, has_email, login, with_owner, register,
}
use smart_parking_platform.Accounts.Searches.{first-append_last, keep-append_last, none_of}

module _ (lower : String → String) (checkpw : String → String → Option Bool)
    (hash_password : String → String) (hash_token : String → String) (jwt_encode : Claims → String)
    (accepts : (p : String) → checkpw p (hash_password p) ≡ some true) where
  module _ (user tenant : String) (q : Registration) (db : AccountTables) where
    abbrev new_tenant : TenantRow
    new_tenant = record { id = tenant; name = q.tenant_name; slug = lower q.slug; is_active = true }

    abbrev new_user : Account
    new_user = record {
      row = record { id = user; is_active = true };
      email = lower q.email;
      name = q.user_name;
      password_hash = hash_password q.password;
      last_login_at = none;
    }

    abbrev new_member : ℕ → Member
    new_member now = record {
      row = record { user_id = user; tenant_id = tenant; role = "owner"; is_active = true };
      created_at = now;
    }

    -- The ids are new, and no membership is of an unknown user.
    pub record IsNew : Type 0 where
      pub new_user_id : any (λ u. text_eq u.row.id user) db.users ≡ false
      pub new_tenant_id : any (λ t. text_eq t.id tenant) db.tenants ≡ false
      pub no_members : any (λ m. text_eq m.row.user_id user) db.memberships ≡ false

    owner_tenants :
        (now : ℕ)
        → IsNew
        → fetch_tenants user
            (with_owner lower checkpw hash_password hash_token jwt_encode user tenant now q db)
          ≡ record { tenant = new_tenant; role = "owner" } ∷ []
    unfolding fetch_tenants with_owner oldest_first insert_older join_tenants
    owner_tenants now h =
        let kept =
          keep-append_last (active_member user) (new_member now) db.memberships
            (none_of (λ m. text_eq m.row.user_id user) (active_member user) db.memberships
              (λ m k. ground (arith, k)) h.no_members)
            (ground (arith, text_eq_refl user)) in
        let found =
          first-append_last (active_tenant tenant) new_tenant db.tenants
            (none_of (λ t. text_eq t.id tenant) (active_tenant tenant) db.tenants
              (λ t k. ground (arith, k)) h.new_tenant_id)
            (ground (arith, text_eq_refl tenant)) in
        rw kept (rw (found, join_tenants) refl)

    -- The tables after the registration.
    abbrev pub registered : ℕ → AccountTables
    registered now =
        (register lower checkpw hash_password hash_token jwt_encode user tenant now q db).1

    register_made :
        (now : ℕ)
        → (register lower checkpw hash_password hash_token jwt_encode user tenant now q db).0
          ≡ pass user
        → (any (has_email (lower q.email)) db.users ≡ false)
          × (registered now
              ≡ with_owner lower checkpw hash_password hash_token jwt_encode user tenant now q db)
    unfolding register
    register_made now made = (ground (arith, made), ground (arith, made))

  -- A registration that succeeds, with new ids, makes the user the owner of the new tenant and its
  -- only member, and the email and the password pass the checks of the login: it comes as far as the
  -- refresh token, whose INSERT the migrated schema refuses. The login is answered with 500 and
  -- changes nothing. bcrypt accepts a password for its own hash.
  pub registered_owner_cannot_log_in :
      (user tenant : String) (q : Registration) (db : AccountTables) (token_id : String)
      (now at : ℕ) (fresh : String) (client : Client)
      → IsNew user tenant q db
      → (register lower checkpw hash_password hash_token jwt_encode user tenant now q db).0
        ≡ pass user
      → (fetch_tenants user (registered user tenant q db now)
          ≡ record {
            tenant = record {
              id = tenant;
              name = q.tenant_name;
              slug = lower q.slug;
              is_active = true;
            };
            role = "owner";
          }
            ∷ [])
        × (login lower checkpw hash_password hash_token jwt_encode token_id at fresh client q.email
              q.password
              (registered user tenant q db now)
            ≡ (http_error 500, registered user tenant q db now))
  unfolding login verify_password with_owner
  registered_owner_cannot_log_in user tenant q db token_id now at fresh client h made =
      let (absent, tables) = register_made user tenant q db now made in
      let found =
        first-append_last (has_email (lower q.email)) (new_user user tenant q db) db.users absent
          (text_eq_refl (lower q.email)) in
      let ok : verify_password checkpw q.password (hash_password q.password) ≡ true =
        rw (accepts q.password, verify_password) refl in
      let owned = owner_tenants user tenant q db now h in
      let refused =
        open_session_refused lower checkpw hash_password hash_token jwt_encode token_id at fresh
          client (new_user user tenant q db)
          (record { tenant = new_tenant user tenant q db; role = "owner" }) []
          (with_owner lower checkpw hash_password hash_token jwt_encode user tenant now q db) in
      rw tables (owned, rw (found, login, ok, owned, refused) refl)
