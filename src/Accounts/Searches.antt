-- ===== src/Accounts/Searches.antt =====
-- Searches in a table to which a row was appended.
use smart_parking_platform.Prelude.{
  List, [], ◌∷◌, ◌++◌, some, Bool, true, false, ◌≡◌, refl, arith, first, any, keep,
}

module _ {A : Type 0} (p : A → Bool) where
  pub first-append_last :
      (r : A) (xs : List A) → any p xs ≡ false → p r ≡ true → first p (xs ++ r ∷ []) ≡ some r
  first-append_last r [] absent hit = ground (arith, hit)
  first-append_last r (x ∷ xs) absent hit = ground (arith, absent, first-append_last r xs, hit)

  pub keep-append_last :
      (r : A) (xs : List A) → any p xs ≡ false → p r ≡ true → keep p (xs ++ r ∷ []) ≡ r ∷ []
  keep-append_last r [] absent hit = ground (arith, hit)
  keep-append_last r (x ∷ xs) absent hit = ground (arith, absent, keep-append_last r xs, hit)

  -- A stronger test passes nowhere either.
  pub none_of :
      (q : A → Bool) (xs : List A)
      → ((x : A) → q x ≡ true → p x ≡ true)
      → any p xs ≡ false
      → any q xs ≡ false
  none_of q [] implies h = refl
  none_of q (x ∷ xs) implies h = ground (arith, h, implies x, none_of q xs implies)
