-- ===== src/Accounts/Examples.antt =====
-- The theorems on sessions at concrete inputs.
use smart_parking_platform.Prelude.{
  String, List, [], ◌∷◌, Option, none, some, Bool, true, false, text_eq, text_eq_refl, ◌≡◌, refl,
  ap, All,
}
use smart_parking_platform.Access.Types.{Claims, http_error}
use smart_parking_platform.Tokens.Types.{Client}
use smart_parking_platform.Accounts.Types.{AccountTables, Registration}
use smart_parking_platform.Accounts.Sessions.{login, register, fetch_tenants}
use smart_parking_platform.Accounts.Owner.{registered, registered_owner_cannot_log_in}
use smart_parking_platform.Accounts.Refresh.{
  Call, sign_up, sign_in, renew, is_session, run_calls, no_session_is_opened,
}

abbrev plain : String → String
plain s = s

abbrev checkpw : String → String → Option Bool
checkpw p h = some (text_eq p h)

accepts : (p : String) → checkpw p (plain p) ≡ some true
accepts p = ap (λ b. some b) (text_eq_refl p)

abbrev phone : Client
phone = record { device_fingerprint = some "phone"; ip_address = none; user_agent = none }

abbrev acme : Registration
acme = record {
  email = "ada@acme.com";
  user_name = "Ada";
  password = "secret";
  tenant_name = "Acme";
  slug = "acme";
}

abbrev nothing_yet : AccountTables
nothing_yet = record {
  users = [];
  tenants = [];
  memberships = [];
  api_keys = [];
  sites = [];
  tokens = record { rows = [] };
}

abbrev encode : Claims → String
encode c = "token"

registered_owner_cannot_log_in_example :
    let made = registered plain checkpw plain plain encode accepts "u" "t" acme nothing_yet 5 in
    (fetch_tenants "u" made
      ≡ record {
        tenant = record { id = "t"; name = "Acme"; slug = "acme"; is_active = true };
        role = "owner";
      }
        ∷ [])
    × (login plain checkpw plain plain encode "r" 10 "fresh" phone "ada@acme.com" "secret" made
        ≡ (http_error 500, made))
unfolding register
registered_owner_cannot_log_in_example =
    registered_owner_cannot_log_in plain checkpw plain plain encode accepts "u" "t" acme nothing_yet
      "r" 5 10 "fresh" phone
      (record { new_user_id = refl; new_tenant_id = refl; no_members = refl }) refl

abbrev calls : List Call
calls =
    sign_up "u" "t" 5 acme
    ∷ sign_in "r" 10 "a" phone "ada@acme.com" "secret"
    ∷ renew "s" 20 "b" "a" phone
    ∷ []

no_session_is_opened_example :
    let run = run_calls plain checkpw plain plain encode calls nothing_yet in
    All (λ r. is_session r ≡ false) run.0 × (run.1.tokens ≡ nothing_yet.tokens)
no_session_is_opened_example =
    no_session_is_opened plain checkpw plain plain encode calls nothing_yet
