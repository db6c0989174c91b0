-- ===== src/Tokens/Barren.antt =====
-- What the calls of the service do to the table.
use smart_parking_platform.Prelude.{
  ℕ, String, List, [], ◌∷◌, Option, none, some, ◌≡◌, ap, ◌∙◌, arith, refl,
}
use smart_parking_platform.Datetime.{later_than}
use smart_parking_platform.Tokens.Types.{TokenTable, TokenRow, Client, Rotation, invalid, raised}
use smart_parking_platform.Tokens.Service.{
  insert_token, new_token, create_refresh_token, fetch_token, validate_row, validate_and_rotate,
  revoke_token, revoke_token_family, cleanup_expired_tokens,
}

-- A call of the service, at its time.
pub data Call : Type 0 where
  create : String → ℕ → String → String → Client → Call
  validate : String → ℕ → String → String → Client → Call
  revoke : ℕ → String → Call
  revoke_family : ℕ → String → Option String → Call
  cleanup : ℕ → Call

module _ (hash_token : String → String) where
  abbrev pub call : Call → TokenTable → TokenTable
  call (Call.create id now token user client) t =
      (create_refresh_token hash_token id now token user client t).1
  call (Call.validate id now fresh token client) t =
      (validate_and_rotate hash_token id now fresh token client t).1
  call (Call.revoke now id) t = revoke_token now id t
  call (Call.revoke_family now user device) t = (revoke_token_family now user device t).1
  call (Call.cleanup now) t = (cleanup_expired_tokens now t).1

  unfoldable pub run_calls : List Call → TokenTable → TokenTable
  run_calls [] t = t
  run_calls (c ∷ cs) t = run_calls cs (call c t)

  pub create_refresh_token_raises :
      (id : String) (now : ℕ) (token user : String) (client : Client) (t : TokenTable)
      → create_refresh_token hash_token id now token user client t ≡ (none, t)
  unfolding create_refresh_token insert_token new_token
  create_refresh_token_raises id now token user client t = refl

  abbrev pub outcome : Option TokenRow → Rotation
  outcome none = invalid
  outcome (some _) = raised

  pub validate_and_rotate_lem :
      (id : String) (now : ℕ) (fresh token : String) (client : Client) (t : TokenTable)
      → validate_and_rotate hash_token id now fresh token client t
        ≡ (outcome (fetch_token (hash_token token) t), t)
  unfolding validate_and_rotate validate_row later_than
  validate_and_rotate_lem id now fresh token client t = ground arith

  call_of_none : (c : Call) (t : TokenTable) → t.rows ≡ [] → (call c t).rows ≡ []
  unfolding revoke_token revoke_token_family cleanup_expired_tokens
  call_of_none (Call.create id now token user client) t h =
      ap (λ x. x.1.rows) (create_refresh_token_raises id now token user client t) ∙ h
  call_of_none (Call.validate id now fresh token client) t h =
      ap (λ x. x.1.rows) (validate_and_rotate_lem id now fresh token client t) ∙ h
  call_of_none (Call.revoke now id) t h = rw h refl
  call_of_none (Call.revoke_family now user device) t h = rw h refl
  call_of_none (Call.cleanup now) t h = rw h refl

  run_of_none : (cs : List Call) (t : TokenTable) → t.rows ≡ [] → (run_calls cs t).rows ≡ []
  unfolding run_calls
  run_of_none [] t h = h
  run_of_none (c ∷ cs) t h = run_of_none cs (call c t) (call_of_none c t h)

  -- On the migrated schema no refresh token comes into being: from an empty table any calls of the
  -- service leave it empty, so that every token is then unknown and answered with (None, None). In
  -- any table at all, creating a token raises, presenting a token that is found raises too, and
  -- neither changes the table.
  pub no_token_is_issued :
      (cs : List Call) (t : TokenTable) (id : String) (now : ℕ) (fresh token user : String)
      (client : Client) (u : TokenTable) (r : TokenRow)
      → t.rows ≡ []
      → fetch_token (hash_token token) u ≡ some r
      → ((run_calls cs t).rows ≡ [])
        × (validate_and_rotate hash_token id now fresh token client (run_calls cs t)
            ≡ (invalid, run_calls cs t))
        × (create_refresh_token hash_token id now fresh user client u ≡ (none, u))
        × (validate_and_rotate hash_token id now fresh token client u ≡ (raised, u))
  unfolding fetch_token
  no_token_is_issued cs t id now fresh token user client u r empty found =
      let still = run_of_none cs t empty in
      (
        still,
        validate_and_rotate_lem id now fresh token client (run_calls cs t) ∙ rw still refl,
        create_refresh_token_raises id now fresh user client u,
        validate_and_rotate_lem id now fresh token client u ∙ rw found refl,
      )
