-- ===== src/Tokens/Examples.antt =====
-- The theorem on refresh tokens at concrete inputs. The hash function is the identity.
use smart_parking_platform.Prelude.{String, ◌∷◌, [], none, some, ◌≡◌, refl, ◌*◌, false}
use smart_parking_platform.Tokens.Types.{TokenRow, TokenTable, Client, invalid, raised}
use smart_parking_platform.Tokens.Service.{
  day, fetch_token, validate_and_rotate, create_refresh_token, is_listed, get_user_tokens,
  newest_first,
}
use smart_parking_platform.Tokens.Barren.{
  create, validate, revoke_family, cleanup, run_calls, no_token_is_issued,
}

abbrev same_text : String → String
same_text s = s

abbrev phone : Client
phone = record { device_fingerprint = some "phone"; ip_address = none; user_agent = none }

abbrev first_row : TokenRow
first_row = record {
  id = "1";
  user_id = "u";
  tenant_id = "t";
  token_hash = "a";
  device_fingerprint = some "phone";
  ip_address = none;
  user_agent = none;
  created_at = 0;
  expires_at = 30 * day;
  revoked_at = none;
  last_used_at = none;
}

abbrev one_token : TokenTable
one_token = record { rows = first_row ∷ [] }

abbrev revoked_table : TokenTable
revoked_table = record { rows = record first_row { revoked_at = some 0 } ∷ [] }

abbrev no_tokens : TokenTable
no_tokens = record { rows = [] }

no_token_is_issued_example :
    let calls =
      create "2" 5 "a" "u" phone
      ∷ validate "3" 6 "b" "a" phone
      ∷ revoke_family 7 "u" none
      ∷ cleanup 8
      ∷ [] in
    ((run_calls same_text calls no_tokens).rows ≡ [])
    × (validate_and_rotate same_text "4" 9 "b" "a" phone (run_calls same_text calls no_tokens)
        ≡ (invalid, run_calls same_text calls no_tokens))
    × (create_refresh_token same_text "4" 9 "b" "u" phone one_token ≡ (none, one_token))
    × (validate_and_rotate same_text "4" 9 "b" "a" phone one_token ≡ (raised, one_token))
unfolding fetch_token
no_token_is_issued_example =
    no_token_is_issued same_text
      (create "2" 5 "a" "u" phone
        ∷ validate "3" 6 "b" "a" phone
        ∷ revoke_family 7 "u" none
        ∷ cleanup 8
        ∷ [])
      no_tokens "4" 9 "b" "a" "u" phone one_token first_row refl refl

listed : get_user_tokens 5 "u" false revoked_table ≡ []
unfolding get_user_tokens newest_first is_listed
listed = refl
