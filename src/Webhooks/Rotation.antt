-- ===== src/Webhooks/Rotation.antt =====
-- What a rotation does to the signatures.
use smart_parking_platform.Prelude.{
  ℕ, String, List, [], ◌∷◌, ◌++◌, some, true, false, ◌≡◌, arith, text_eq, text_eq_refl, eq_iff,
  truthy, rewrite, if◌then◌else◌,
}
use smart_parking_platform.Webhooks.Secrets.{
  SecretRow, allowed, unauthorized, is_current, fetch_secret, is_ascii, compare_signature,
  verify_signed, verify_webhook_signature, new_secret, rotate_webhook_secret,
}

-- The rows that a rotation switches off.
abbrev switched_off : String → List SecretRow → List SecretRow
switched_off tenant rows =
    rewrite (λ r. text_eq r.tenant_id tenant) (λ r. record r { is_active = false }) rows

own_secret :
    (tenant secret : String) (now : ℕ) (rows : List SecretRow)
    → fetch_secret tenant (switched_off tenant rows ++ new_secret tenant secret now ∷ [])
      ≡ some (new_secret tenant secret now)
unfolding fetch_secret is_current new_secret
own_secret tenant secret now [] = ground (arith, text_eq_refl tenant)
own_secret tenant secret now (r ∷ rs) = ground (arith, own_secret tenant secret now rs)

other_secret :
    (tenant other secret : String) (now : ℕ) (rows : List SecretRow)
    → text_eq tenant other ≡ false
    → fetch_secret other (switched_off tenant rows ++ new_secret tenant secret now ∷ [])
      ≡ fetch_secret other rows
unfolding fetch_secret is_current new_secret
other_secret tenant other secret now [] apart = ground (arith, apart)
other_secret tenant other secret now (r ∷ rs) apart = ground (
  arith,
  apart,
  eq_iff r.tenant_id tenant,
  eq_iff tenant r.tenant_id,
  eq_iff r.tenant_id other,
  eq_iff tenant other,
  other_secret tenant other secret now rs apart,
)

module _ (hmac : String → String → String) where
  -- After a rotation a signature of ASCII characters is accepted for the tenant exactly if it is the
  -- HMAC under the new secret, whatever secrets there were; otherwise the answer is 401. For any
  -- other tenant nothing has changed.
  pub only_the_new_secret_signs :
      (tenant secret signature body : String) (now : ℕ) (rows : List SecretRow)
      → truthy signature ≡ true
      → is_ascii signature ≡ true
      → let rows' = (rotate_webhook_secret tenant secret now rows).1 in
        (verify_webhook_signature hmac (some signature) (some tenant) body rows'
          ≡ (if text_eq signature (hmac secret body) then allowed else unauthorized))
        × ((other : String)
            → text_eq tenant other ≡ false
            → verify_webhook_signature hmac (some signature) (some other) body rows'
              ≡ verify_webhook_signature hmac (some signature) (some other) body rows)
  unfolding rotate_webhook_secret verify_webhook_signature verify_signed compare_signature
      new_secret
  only_the_new_secret_signs tenant secret signature body now rows given ascii = (
    ground (arith, given, ascii, own_secret tenant secret now rows),
    λ other apart. ground (arith, other_secret tenant other secret now rows apart),
  )
