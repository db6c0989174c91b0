-- ===== src/Accounts/Refresh.antt =====
-- The sessions over any calls of register, login and refresh_token.
use smart_parking_platform.Prelude.{
  ℕ, String, List, [], ◌∷◌, Option, Bool, true, false, ◌≡◌, refl, ap, ◌∙◌, arith, All, first,
  Option-cases, Bool-cases, inl, inr,
}
use smart_parking_platform.Access.Types.{Claims, Outcome, pass, http_error}
use smart_parking_platform.Tokens.Types.{Client}
use smart_parking_platform.Tokens.Barren.{create_refresh_token_raises, validate_and_rotate_lem}
use smart_parking_platform.Accounts.Types.{
  Account, AccountTables, Registration, TenantRole, LoginResponse,
}
use smart_parking_platform.Accounts.Sessions.{
  after_rotation, refresh, login, open_session, register, with_owner, has_email, verify_password,
  fetch_tenants,
}

-- A call of one of the three endpoints.
pub data Call : Type 0 where
  sign_up : String → String → ℕ → Registration → Call
  sign_in : String → ℕ → String → Client → String → String → Call
  renew : String → ℕ → String → String → Client → Call

-- What the client is told: the user it registered, a session, or the status of an error.
pub data Reply : Type 0 where
  user : String → Reply
  session : Reply
  refused : ℕ → Reply

abbrev reply : {A : Type 0} → (A → Reply) → Outcome A → Reply
reply f (pass a) = f a
reply f (http_error status) = refused status

abbrev pub is_session : Reply → Bool
is_session session = true
is_session _ = false

module _ (lower : String → String) (checkpw : String → String → Option Bool)
    (hash_password : String → String) (hash_token : String → String)
    (jwt_encode : Claims → String) where
  unfoldable pub call : Call → AccountTables → Reply × AccountTables
  call (sign_up id tenant now q) db =
      let (o, db') =
        register lower checkpw hash_password hash_token jwt_encode id tenant now q db in
      (reply user o, db')
  call (sign_in token_id now fresh client email password) db =
      let (o, db') =
        login lower checkpw hash_password hash_token jwt_encode token_id now fresh client email
          password db in
      (reply (λ _. session) o, db')
  call (renew token_id now fresh token client) db =
      let (o, db') =
        refresh lower checkpw hash_password hash_token jwt_encode token_id now fresh token client
          db in
      (reply (λ _. session) o, db')

  -- The replies to the calls, and the tables after them.
  unfoldable pub run_calls : List Call → AccountTables → List Reply × AccountTables
  run_calls [] db = ([], db)
  run_calls (c ∷ cs) db =
      let (r, db') = call c db in let (rs, db'') = run_calls cs db' in (r ∷ rs, db'')

  pub open_session_refused :
      (token_id : String) (now : ℕ) (fresh : String) (client : Client) (u : Account)
      (t : TenantRole) (ts : List TenantRole) (db : AccountTables)
      → open_session lower checkpw hash_password hash_token jwt_encode token_id now fresh client u t
          ts db
        ≡ (http_error 500, db)
  unfolding open_session
  open_session_refused token_id now fresh client u t ts db =
      ground
        (arith, create_refresh_token_raises hash_token token_id now fresh u.row.id client db.tokens)

  no_tenant_signs_in :
      (token_id : String) (now : ℕ) (fresh : String) (client : Client) (u : Account)
      (db : AccountTables) (ts : List TenantRole)
      → (status : ℕ) × ◌≡◌ {A = Outcome LoginResponse × AccountTables}
          (elim ts [
            | [] ↦ (http_error 403, db)
            | t ∷ ts' ↦
                open_session lower checkpw hash_password hash_token jwt_encode token_id now fresh
                  client u t ts' db
          ])
          (http_error status, db)
  no_tenant_signs_in token_id now fresh client u db [] = (403, refl)
  no_tenant_signs_in token_id now fresh client u db (t ∷ ts) =
      (500, open_session_refused token_id now fresh client u t ts db)

  login_refused :
      (token_id : String) (now : ℕ) (fresh : String) (client : Client) (email password : String)
      (db : AccountTables)
      → (status : ℕ) × (login lower checkpw hash_password hash_token jwt_encode token_id now fresh
            client email password db
          ≡ (http_error status, db))
  unfolding login
  login_refused token_id now fresh client email password db =
      elim (Option-cases (first (has_email (lower email)) db.users)) [
        | inl unknown ↦ (401, rw (unknown, login) refl)
        | inr (u, found) ↦ elim (Bool-cases u.row.is_active) [
          | inr inactive ↦ (403, ground (arith, found, inactive))
          | inl active ↦ elim (Bool-cases (verify_password checkpw password u.password_hash)) [
            | inr wrong ↦ (401, ground (arith, found, active, wrong))
            | inl right ↦
                let (status, e) =
                  no_tenant_signs_in token_id now fresh client u db (fetch_tenants u.row.id db) in
                (status, ground (arith, found, active, right, e))
          ]
        ]
      ]

  -- The reply is no session, and the refresh tokens are as before.
  abbrev Refuses : AccountTables → Reply × AccountTables → Type 0
  Refuses db run = (is_session run.0 ≡ false) × (run.1.tokens ≡ db.tokens)

  call-Refuses : (c : Call) (db : AccountTables) → Refuses db (call c db)
  unfolding call register with_owner login refresh after_rotation
  call-Refuses (sign_up id tenant now q) db = (ground arith, ground arith)
  call-Refuses (sign_in token_id now fresh client email password) db =
      let (status, e) = login_refused token_id now fresh client email password db in
      (ap (λ x. is_session (reply (λ _. session) x.0)) e, ap (λ x. x.1.tokens) e)
  call-Refuses (renew token_id now fresh token client) db = (
    ground (arith, validate_and_rotate_lem hash_token token_id now fresh token client db.tokens),
    ground (arith, validate_and_rotate_lem hash_token token_id now fresh token client db.tokens),
  )

  -- On the migrated schema nobody ever gets a session: over any calls of register, login and
  -- refresh_token on any tables no reply is a session, and the refresh tokens stay as they were.
  pub no_session_is_opened :
      (cs : List Call) (db : AccountTables)
      → All (λ r. is_session r ≡ false) (run_calls cs db).0
        × ((run_calls cs db).1.tokens ≡ db.tokens)
  unfolding run_calls
  no_session_is_opened [] db = (tt, refl)
  no_session_is_opened (c ∷ cs) db =
      let (none_now, kept) = call-Refuses c db in
      let (later, kept') = no_session_is_opened cs (call c db).1 in
      ((none_now, later), kept' ∙ kept)
