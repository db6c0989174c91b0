-- ===== src/Prelude/Lists.antt =====
-- Lists measured by native numbers and searched by Boolean tests.
use Prim.Native.Nat.{ℕ, zero, suc, ◌+◌, ◌≤◌}
use mathlib.Core.Path.{◌≡◌, refl, ap, subst}
use mathlib.Core.Bool.{Bool, false, true, ◌||◌}
use mathlib.Core.List.{List, [], ◌∷◌, ◌++◌}
use mathlib.Core.Option.{Option, none, some}
use native.Mathlib.Omega.{arith}
use mathlib.Core.Logic.{inl, inr}
use smart_parking_platform.Prelude.Tests.{if◌then◌else◌, Bool-cases}

module _ {ℓ} {A : Type ℓ} where
  abbrev pub length : List A → ℕ
  length [] = 0
  length (x ∷ xs) = suc (length xs)

  abbrev pub drop : ℕ → List A → List A
  drop zero xs = xs
  drop (suc n) [] = []
  drop (suc n) (x ∷ xs) = drop n xs

  -- the rows that pass a test, in order
  abbrev pub keep : (A → Bool) → List A → List A
  keep p [] = []
  keep p (x ∷ xs) = let rest = keep p xs in if p x then x ∷ rest else rest

  -- the first row that passes a test
  abbrev pub first : (A → Bool) → List A → Option A
  first p [] = none
  first p (x ∷ xs) = let rest = first p xs in if p x then some x else rest

  -- whether some row passes a test
  abbrev pub any : (A → Bool) → List A → Bool
  any p [] = false
  any p (x ∷ xs) = p x || any p xs

  -- how many rows pass a test
  abbrev pub tally : (A → Bool) → List A → ℕ
  tally p [] = 0
  tally p (x ∷ xs) = let rest = tally p xs in if p x then suc rest else rest

  -- the rows that pass a test, rewritten; the others as they are
  abbrev pub rewrite : (A → Bool) → (A → A) → List A → List A
  rewrite p f [] = []
  rewrite p f (x ∷ xs) = (if p x then f x else x) ∷ rewrite p f xs

  -- `P` holds of every row
  abbrev pub All {κ} : (A → Type κ) → List A → Type κ
  All P [] = Unit
  All P (x ∷ xs) = P x × All P xs

  pub length-append : (xs ys : List A) → length (xs ++ ys) ≡ length xs + length ys
  length-append [] ys = omega arith
  length-append (x ∷ xs) ys = omega (arith, length-append xs ys)

  pub length-keep-le : (p : A → Bool) (xs : List A) → length (keep p xs) ≤ length xs
  length-keep-le p [] = omega arith
  length-keep-le p (x ∷ xs) = ground (arith, length-keep-le p xs)

  pub length-rewrite :
      (p : A → Bool) (f : A → A) (xs : List A) → length (rewrite p f xs) ≡ length xs
  length-rewrite p f [] = refl
  length-rewrite p f (x ∷ xs) = ap suc (length-rewrite p f xs)

  abbrev pub is_some : Option A → Bool
  is_some none = false
  is_some (some a) = true

  pub first-any : (p : A → Bool) (xs : List A) → is_some (first p xs) ≡ any p xs
  first-any p [] = refl
  first-any p (x ∷ xs) = ground (arith, first-any p xs)

  pub tally-append : (p : A → Bool) (xs ys : List A) → tally p (xs ++ ys) ≡ tally p xs + tally p ys
  tally-append p [] ys = omega arith
  tally-append p (x ∷ xs) ys = ground (arith, tally-append p xs ys)

  pub tally-keep-le : (p q : A → Bool) (xs : List A) → tally p (keep q xs) ≤ tally p xs
  tally-keep-le p q [] = omega arith
  tally-keep-le p q (x ∷ xs) = ground (arith, tally-keep-le p q xs)

  pub tally-rewrite :
      (p q : A → Bool) (f : A → A) (xs : List A)
      → ((x : A) → p (f x) ≡ p x)
      → tally p (rewrite q f xs) ≡ tally p xs
  tally-rewrite p q f [] same = refl
  tally-rewrite p q f (x ∷ xs) same = ground (arith, tally-rewrite p q f xs same, same x)

  -- No row passes a test that the search finds nothing for.
  pub tally-none : (p : A → Bool) (xs : List A) → first p xs ≡ none → tally p xs ≡ 0
  tally-none p [] h = refl
  tally-none p (x ∷ xs) h = ground (arith, tally-none p xs)

  pub first-append :
      (p : A → Bool) (xs ys : List A)
      → first p (xs ++ ys) ≡ (if is_some (first p xs) then first p xs else first p ys)
  first-append p [] ys = refl
  first-append p (x ∷ xs) ys = ground (arith, first-append p xs ys)

  -- What the search finds after rows were rewritten without a change to the test.
  pub first-rewrite :
      (p q : A → Bool) (f : A → A) (xs : List A)
      → ((x : A) → p (f x) ≡ p x)
      → first p (rewrite q f xs)
        ≡ (elim (first p xs) [ none ↦ none | some x ↦ some (if q x then f x else x) ])
  first-rewrite p q f [] same = refl
  first-rewrite p q f (x ∷ xs) same = ground (arith, first-rewrite p q f xs same, same x)

  pub All-append {κ} : (P : A → Type κ) (xs ys : List A) → All P xs → All P ys → All P (xs ++ ys)
  All-append P [] ys h k = k
  All-append P (x ∷ xs) ys h k = (h.0, All-append P xs ys h.1 k)

  pub All-keep {κ} : (P : A → Type κ) (p : A → Bool) (xs : List A) → All P xs → All P (keep p xs)
  All-keep P p [] h = tt
  All-keep P p (x ∷ xs) h = elim (Bool-cases (p x)) [
    | inl e ↦ rw e (h.0, All-keep P p xs h.1)
    | inr e ↦ rw e (All-keep P p xs h.1)
  ]

  pub All-rewrite {κ} :
      (P : A → Type κ) (p : A → Bool) (f : A → A) (xs : List A)
      → ((x : A) → P x → P (f x))
      → All P xs
      → All P (rewrite p f xs)
  All-rewrite P p f [] step h = tt
  All-rewrite P p f (x ∷ xs) step h = elim (Bool-cases (p x)) [
    | inl e ↦ rw e (step x h.0, All-rewrite P p f xs step h.1)
    | inr e ↦ rw e (h.0, All-rewrite P p f xs step h.1)
  ]

  -- What the search finds passes the test, and is a row.
  pub first-All {κ} :
      (P : A → Type κ) (p : A → Bool) (xs : List A) (x : A)
      → first p xs ≡ some x
      → All P xs
      → P x × (p x ≡ true)
  first-All P p [] x e h = ground arith
  first-All P p (y ∷ ys) x e h = elim (Bool-cases (p y)) [
    | inl hit ↦ let same : y ≡ x = ground (arith, e, hit) in (subst P same h.0, rw (← same) hit)
    | inr miss ↦ first-All P p ys x (ground (arith, e, miss)) h.1
  ]
