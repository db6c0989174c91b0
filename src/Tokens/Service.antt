-- ===== src/Tokens/Service.antt =====
-- RefreshTokenService. The hash function is a parameter, and so are the token that the source of
-- randomness yields and the id that the database gives to a row; `now` is the clock of the service
-- and of the database. `none` is an exception.
use smart_parking_platform.Prelude.{
  ℕ, ◌+◌, ◌*◌, String, text_eq, truthy, List, [], ◌∷◌, ◌++◌, map, Option, none, some, Bool, true,
  false, ◌&&◌, not, ltb, leb, if◌then◌else◌, keep, first, tally, rewrite, is_some,
}
use smart_parking_platform.Datetime.{naive, aware, later_than, time_between}
use smart_parking_platform.Tokens.Types.{
  TokenRow, TokenTable, NewToken, Client, Rotation, invalid, rotated, raised, TokenView,
}

-- A day and a minute, in microseconds.
abbrev pub day : ℕ
day = 86400000000

abbrev pub minute : ℕ
minute = 60000000

-- EXPIRY_DAYS and REUSE_DETECTION_WINDOW_MINUTES
abbrev pub expiry_days : ℕ
expiry_days = 30

abbrev pub reuse_detection_window_minutes : ℕ
reuse_detection_window_minutes = 5

-- WHERE token_hash = $1
abbrev pub has_hash : String → TokenRow → Bool
has_hash h r = text_eq r.token_hash h

-- SELECT ... FROM refresh_tokens WHERE token_hash = $1
unfoldable pub fetch_token : String → TokenTable → Option TokenRow
fetch_token h t = first (has_hash h) t.rows

abbrev pub revoked : ℕ → TokenRow → TokenRow
revoked now r = record r { revoked_at = some now }

-- `revoke_token`
unfoldable pub revoke_token : ℕ → String → TokenTable → TokenTable
revoke_token now id t = record t { rows = rewrite (λ r. text_eq r.id id) (revoked now) t.rows }

-- Python's truth of an optional text.
abbrev pub given : Option String → Bool
given none = false
given (some s) = truthy s

-- device_fingerprint = $2, which is never true of NULL
abbrev pub same_device : Option String → Option String → Bool
same_device (some s) (some d) = text_eq s d
same_device _ _ = false

-- The rows that `revoke_token_family` updates.
unfoldable pub in_family : String → Option String → TokenRow → Bool
in_family user device r =
    text_eq r.user_id user
    && ((if given device then same_device r.device_fingerprint device else true)
        && not (is_some r.revoked_at))

-- `revoke_token_family`: the number of rows updated, and the table after it.
unfoldable pub revoke_token_family : ℕ → String → Option String → TokenTable → ℕ × TokenTable
revoke_token_family now user device t = (
  tally (in_family user device) t.rows,
  record t { rows = rewrite (in_family user device) (revoked now) t.rows },
)

-- WHERE expires_at < NOW()
abbrev pub outlived : ℕ → TokenRow → Bool
outlived now r = ltb r.expires_at now

-- `cleanup_expired_tokens`: the number of rows deleted, and the table after it.
unfoldable pub cleanup_expired_tokens : ℕ → TokenTable → ℕ × TokenTable
cleanup_expired_tokens now t =
    (tally (outlived now) t.rows, record t { rows = keep (λ r. not (outlived now r)) t.rows })

-- The columns that `get_user_tokens` selects.
unfoldable pub view_of : Bool → TokenRow → TokenView
view_of include_revoked r = record {
  id = r.id;
  device_fingerprint = r.device_fingerprint;
  ip_address = r.ip_address;
  user_agent = r.user_agent;
  created_at = r.created_at;
  expires_at = r.expires_at;
  revoked_at = if include_revoked then r.revoked_at else none;
  last_used_at = r.last_used_at;
}

-- ORDER BY created_at DESC: an insertion sort that keeps the order of equal rows.
unfoldable pub insert_newest : TokenRow → List TokenRow → List TokenRow
insert_newest r [] = r ∷ []
insert_newest r (q ∷ qs) =
    let rest = insert_newest r qs in if leb q.created_at r.created_at then r ∷ q ∷ qs else q ∷ rest

unfoldable pub newest_first : List TokenRow → List TokenRow
newest_first [] = []
newest_first (r ∷ rs) = insert_newest r (newest_first rs)

-- The rows that `get_user_tokens` selects.
unfoldable pub is_listed : ℕ → String → Bool → TokenRow → Bool
is_listed now user include_revoked r =
    text_eq r.user_id user
    && (if include_revoked then true else not (is_some r.revoked_at) && ltb now r.expires_at)

-- `get_user_tokens`
unfoldable pub get_user_tokens : ℕ → String → Bool → TokenTable → List TokenView
get_user_tokens now user include_revoked t =
    map (view_of include_revoked) (newest_first (keep (is_listed now user include_revoked) t.rows))

-- INSERT INTO refresh_tokens: tenant_id is NOT NULL, token_hash is UNIQUE, and expires_at lies after
-- created_at.
unfoldable pub insert_token : String → ℕ → NewToken → TokenTable → Option TokenTable
insert_token new_id now n t = elim n.tenant_id [
  | none ↦ none
  | some tenant ↦
      if not (is_some (fetch_token n.token_hash t)) && ltb now n.expires_at
      then some (record {
        rows =
            t.rows
            ++ record {
              id = new_id;
              user_id = n.user_id;
              tenant_id = tenant;
              token_hash = n.token_hash;
              device_fingerprint = n.device_fingerprint;
              ip_address = n.ip_address;
              user_agent = n.user_agent;
              created_at = now;
              expires_at = n.expires_at;
              revoked_at = none;
              last_used_at = none;
            }
              ∷ [];
      })
      else none
]

module _ (hash_token : String → String) where
  -- The values that `create_refresh_token` inserts: tenant_id is not among them.
  unfoldable pub new_token : ℕ → String → String → Client → NewToken
  new_token now token user client = record {
    user_id = user;
    tenant_id = none;
    token_hash = hash_token token;
    device_fingerprint = client.device_fingerprint;
    ip_address = client.ip_address;
    user_agent = client.user_agent;
    expires_at = now + expiry_days * day;
  }

  abbrev stored : String → TokenTable → Option TokenTable → Option String × TokenTable
  stored token t none = (none, t)
  stored token t (some t') = (some token, t')

  -- `create_refresh_token` with the generated token.
  unfoldable pub create_refresh_token :
      String → ℕ → String → String → Client → TokenTable → Option String × TokenTable
  create_refresh_token new_id now token user client t =
      stored token t (insert_token new_id now (new_token now token user client) t)

  abbrev pub answer : String → Option String → Rotation
  answer user none = raised
  answer user (some token) = rotated user token

  -- The end of `validate_and_rotate`: revoke the old token, create the new one. A mismatch of the
  -- device is only logged.
  unfoldable pub rotate :
      String → ℕ → String → TokenRow → Client → TokenTable → Rotation × TokenTable
  rotate new_id now fresh r client t =
      let created =
        create_refresh_token new_id now fresh r.user_id client (revoke_token now r.id t) in
      (answer r.user_id created.0, created.1)

  -- A revoked token is presented: within the grace period nothing happens, after it the family of
  -- the token is revoked.
  unfoldable pub reused : ℕ → ℕ → TokenRow → TokenTable → Rotation × TokenTable
  reused now revoked_at r t = elim (time_between (naive now) (aware revoked_at)) [
    | none ↦ (raised, t)
    | some time_since_revoke ↦
        if ltb time_since_revoke (reuse_detection_window_minutes * minute)
        then (invalid, t)
        else (invalid, (revoke_token_family now r.user_id r.device_fingerprint t).1)
  ]

  -- `validate_and_rotate` after the row was found.
  unfoldable pub validate_row :
      String → ℕ → String → TokenRow → Client → TokenTable → Rotation × TokenTable
  validate_row new_id now fresh r client t = elim (later_than (naive now) (aware r.expires_at)) [
    | none ↦ (raised, t)
    | some expired ↦ if expired then (invalid, t) else (elim r.revoked_at [
      | some at ↦ reused now at r t
      | none ↦ rotate new_id now fresh r client t
    ])
  ]

  -- `validate_and_rotate` of a token, with the token to generate.
  unfoldable pub validate_and_rotate :
      String → ℕ → String → String → Client → TokenTable → Rotation × TokenTable
  validate_and_rotate new_id now fresh token client t = elim (fetch_token (hash_token token) t) [
    | none ↦ (invalid, t)
    | some r ↦ validate_row new_id now fresh r client t
  ]
