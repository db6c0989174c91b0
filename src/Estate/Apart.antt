-- ===== src/Estate/Apart.antt =====
-- Lists whose rows do not clash, as a table with unique indexes holds them.
use smart_parking_platform.Prelude.{
  String, text_eq, eq_iff, List, [], ◌∷◌, ◌++◌, some, Bool, true, false, ◌&&◌, not, ◌≡◌, refl, ◌∙◌,
  arith, first, any, rewrite, All, Bool-cases, inl, inr,
}

module _ {A : Type 0} where
  -- What a search finds is a row, and passes the test.
  pub first-any_of :
      (p q : A → Bool) (xs : List A) (x : A) → first p xs ≡ some x → q x ≡ true → any q xs ≡ true
  first-any_of p q [] x e h = ground arith
  first-any_of p q (y ∷ ys) x e h = ground (arith, e, h, first-any_of p q ys x)

  pub first_hit : (p : A → Bool) (xs : List A) (x : A) → first p xs ≡ some x → p x ≡ true
  first_hit p [] x e = ground arith
  first_hit p (y ∷ ys) x e = elim (Bool-cases (p y)) [
    | inl hit ↦ let same : y ≡ x = ground (arith, e, hit) in rw (← same) hit
    | inr miss ↦ first_hit p ys x (ground (arith, e, miss))
  ]

  pub any-implies :
      (q q' : A → Bool) (xs : List A)
      → ((x : A) → q x ≡ true → q' x ≡ true)
      → any q xs ≡ true
      → any q' xs ≡ true
  any-implies q q' [] implies h = ground (arith, h)
  any-implies q q' (x ∷ xs) implies h = ground (arith, h, implies x, any-implies q q' xs implies)

  -- A test that the rewriting does not change.
  pub any-rewrite :
      (p q : A → Bool) (f : A → A) (xs : List A)
      → ((x : A) → p x ≡ true → q (f x) ≡ q x)
      → any q (rewrite p f xs) ≡ any q xs
  any-rewrite p q f [] same = refl
  any-rewrite p q f (x ∷ xs) same = ground (arith, any-rewrite p q f xs same, same x)

module _ {A : Type 0} (clash : A → A → Bool) where
  abbrev pub Apart : List A → Type 0
  Apart [] = Unit
  Apart (x ∷ xs) = All (λ y. clash x y ≡ false) xs × Apart xs

  apart_row-append :
      (x r : A) (xs : List A)
      → clash x r ≡ false
      → All (λ y. clash x y ≡ false) xs
      → All (λ y. clash x y ≡ false) (xs ++ r ∷ [])
  apart_row-append x r [] e h = (e, tt)
  apart_row-append x r (y ∷ ys) e h = (h.0, apart_row-append x r ys e h.1)

  pub Apart-append :
      (r : A) (xs : List A) → any (λ t. clash t r) xs ≡ false → Apart xs → Apart (xs ++ r ∷ [])
  Apart-append r [] none_clash h = (tt, tt)
  Apart-append r (x ∷ xs) none_clash h =
      let here : clash x r ≡ false = ground (arith, none_clash) in
      let rest : any (λ t. clash t r) xs ≡ false = ground (arith, none_clash) in
      (apart_row-append x r xs here h.0, Apart-append r xs rest h.1)

  -- Rows that are rewritten without a change to what clashes.
  module _ (p : A → Bool) (f : A → A) (left : (a b : A) → clash (f a) b ≡ clash a b)
      (right : (a b : A) → clash a (f b) ≡ clash a b) where
    apart_row-rewrite :
        (x : A) (xs : List A)
        → All (λ y. clash x y ≡ false) xs
        → All (λ y. clash x y ≡ false) (rewrite p f xs)
    apart_row-rewrite x [] h = tt
    apart_row-rewrite x (y ∷ ys) h = (ground (arith, right x y, h.0), apart_row-rewrite x ys h.1)

    apart_row_of :
        (x : A) (xs : List A)
        → All (λ y. clash x y ≡ false) xs
        → All (λ y. clash (f x) y ≡ false) xs
    apart_row_of x [] h = tt
    apart_row_of x (y ∷ ys) h = (left x y ∙ h.0, apart_row_of x ys h.1)

    pub Apart-rewrite : (xs : List A) → Apart xs → Apart (rewrite p f xs)
    Apart-rewrite [] h = tt
    Apart-rewrite (x ∷ xs) h = elim (Bool-cases (p x)) [
      | inl hit ↦
          rw hit
            (apart_row_of x (rewrite p f xs) (apart_row-rewrite x xs h.0), Apart-rewrite xs h.1)
      | inr miss ↦ rw miss (apart_row-rewrite x xs h.0, Apart-rewrite xs h.1)
    ]

  -- A row that is replaced by one with its id, which clashes with none of the others.
  module _ (id : A → String)
      (apart_ids : (a b : A) → clash a b ≡ false → text_eq (id a) (id b) ≡ false)
      (clash_sym : (a b : A) → clash a b ≡ clash b a) (p : A → Bool) (s : A)
      (hits : (x : A) → p x ≡ true → id x ≡ id s) where
    abbrev others_clash : A → Bool
    others_clash t = not (text_eq (id t) (id s)) && clash t s

    pub hit_once :
        (x : A) (xs : List A)
        → id x ≡ id s
        → All (λ y. clash x y ≡ false) xs
        → rewrite p (λ _. s) xs ≡ xs
    hit_once x [] e h = refl
    hit_once x (y ∷ ys) e h =
        let other = apart_ids x y h.0 in
        let rest = hit_once x ys e h.1 in
        ground (arith, rest, hits y, other, eq_iff (id x) (id y), e)

    apart_from_new :
        (x : A) (xs : List A)
        → id x ≡ id s
        → any others_clash xs ≡ false
        → All (λ y. clash x y ≡ false) xs
        → All (λ y. clash s y ≡ false) xs
    apart_from_new x [] e none_clash h = tt
    apart_from_new x (y ∷ ys) e none_clash h = (
      ground (
        arith,
        none_clash,
        apart_ids x y h.0,
        eq_iff (id x) (id y),
        eq_iff (id y) (id s),
        e,
        clash_sym s y,
      ),
      apart_from_new x ys e (ground (arith, none_clash)) h.1,
    )

    apart_row-replace :
        (x : A) (xs : List A)
        → others_clash x ≡ false
        → All (λ y. clash x y ≡ false) xs
        → All (λ y. clash x y ≡ false) (rewrite p (λ _. s) xs)
    apart_row-replace x [] fits h = tt
    apart_row-replace x (y ∷ ys) fits h = (
      ground
          (arith, fits, h.0, hits y, apart_ids x y h.0, eq_iff (id x) (id y), eq_iff (id x) (id s)),
      apart_row-replace x ys fits h.1,
    )

    pub Apart-replace :
        (xs : List A) → any others_clash xs ≡ false → Apart xs → Apart (rewrite p (λ _. s) xs)
    Apart-replace [] none_clash h = tt
    Apart-replace (x ∷ xs) none_clash h =
        let rest : any others_clash xs ≡ false = ground (arith, none_clash) in
        elim (Bool-cases (p x)) [
          | inl hit ↦
              let own = hits x hit in
              rw (hit, hit_once x xs own h.0) (apart_from_new x xs own rest h.0, h.1)
          | inr miss ↦
              rw miss
                (apart_row-replace x xs (ground (arith, none_clash)) h.0, Apart-replace xs rest h.1)
        ]
