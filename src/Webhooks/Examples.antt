-- ===== src/Webhooks/Examples.antt =====
-- The theorems on the secrets at concrete inputs.
use smart_parking_platform.Prelude.{
  String, text_append, List, [], ◌∷◌, some, false, ◌≡◌, refl, text_eq,
}
use smart_parking_platform.Webhooks.Secrets.{
  SecretRow, unauthorized, is_ascii, verify_webhook_signature, new_secret, rotate_webhook_secret,
}
use smart_parking_platform.Webhooks.Rotation.{only_the_new_secret_signs}

-- A digest for the examples.
abbrev digest : String → String → String
digest secret body = text_append secret body

abbrev old_rows : List SecretRow
old_rows = new_secret "t" "old" 9 ∷ new_secret "u" "theirs" 9 ∷ []

-- The old secret signed this body, and was created after the new one by the clock.
only_the_new_secret_signs_example :
    let rows' = (rotate_webhook_secret "t" "new" 5 old_rows).1 in
    (verify_webhook_signature digest (some "old{}") (some "t") "{}" rows' ≡ unauthorized)
    × ((other : String)
        → text_eq "t" other ≡ false
        → verify_webhook_signature digest (some "old{}") (some other) "{}" rows'
          ≡ verify_webhook_signature digest (some "old{}") (some other) "{}" old_rows)
unfolding is_ascii new_secret
only_the_new_secret_signs_example =
    only_the_new_secret_signs digest "t" "new" "old{}" "{}" 5 old_rows refl refl
