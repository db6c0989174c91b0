-- ===== src/Prelude/Dict.antt =====
-- A dictionary with text keys, and a directory of files, as an association list.
use Prim.Native.Nat.{Ordering}
use Prim.Native.String.{String, compare}
use mathlib.Core.Path.{◌≡◌, refl, ap, ◌∙◌}
use mathlib.Core.Bool.{Bool, true, false, ◌||◌}
use mathlib.Core.List.{List, [], ◌∷◌}
use mathlib.Core.Option.{Option, none, some}
use native.Mathlib.Omega.{arith}
use text.Mathlib.Text.{◌==◌ as text_eq}
use text.Mathlib.TextEquality.{eq_iff}
use smart_parking_platform.Prelude.Tests.{if◌then◌else◌}
use smart_parking_platform.Prelude.Lists.{any}

abbrev Dict {ℓ} : Type ℓ → Type ℓ
Dict V = List (String × V)

module _ {ℓ} {V : Type ℓ} where
  unfoldable pub lookup : String → Dict V → Option V
  lookup key [] = none
  lookup key (e ∷ d) = let later = lookup key d in if text_eq e.0 key then some e.1 else later

  -- A key keeps its place when its value is replaced.
  unfoldable pub insert : String → V → Dict V → Dict V
  insert key value [] = (key, value) ∷ []
  insert key value (e ∷ d) =
      let later = insert key value d in if text_eq e.0 key then (key, value) ∷ d else e ∷ later

  unfoldable pub erase : String → Dict V → Dict V
  erase key [] = []
  erase key (e ∷ d) = let later = erase key d in if text_eq e.0 key then later else e ∷ later

  abbrev pub keys : Dict V → List String
  keys [] = []
  keys (e ∷ d) = e.0 ∷ keys d

  -- What is read after a write, and after a removal.
  pub lookup-insert :
      (key seen : String) (value : V) (d : Dict V)
      → lookup seen (insert key value d) ≡ (if text_eq key seen then some value else lookup seen d)
  unfolding insert lookup
  lookup-insert key seen value [] = refl
  lookup-insert key seen value (e ∷ d) =
      let rest = lookup-insert key seen value d in
      ground (arith, rest, eq_iff e.0 seen, eq_iff e.0 key, eq_iff key seen)

  pub lookup-erase :
      (key seen : String) (d : Dict V)
      → lookup seen (erase key d) ≡ (if text_eq key seen then none else lookup seen d)
  unfolding erase lookup
  lookup-erase key seen [] = ground arith
  lookup-erase key seen (e ∷ d) =
      let rest = lookup-erase key seen d in
      ground (arith, rest, eq_iff e.0 seen, eq_iff e.0 key, eq_iff key seen)

  -- A key that is found is among the keys.
  pub any-keys :
      (key : String) (value : V) (d : Dict V)
      → lookup key d ≡ some value
      → any (text_eq key) (keys d) ≡ true
  unfolding lookup
  any-keys key value [] h = ground arith
  any-keys key value (e ∷ d) h =
      ground (arith, eq_iff key e.0, eq_iff e.0 key, any-keys key value d)

-- Whether a text comes no later than another, by code points.
abbrev pub text_leb : String → String → Bool
text_leb a b = elim (compare a b) [ Ordering.gt ↦ false | _ ↦ true ]

unfoldable pub insert_text : String → List String → List String
insert_text s [] = s ∷ []
insert_text s (t ∷ ts) =
    let rest = insert_text s ts in if text_leb s t then s ∷ t ∷ ts else t ∷ rest

-- `sorted` of a list of texts
unfoldable pub sorted : List String → List String
sorted [] = []
sorted (s ∷ ss) = insert_text s (sorted ss)

any-insert_text :
    (p : String → Bool) (s : String) (ts : List String)
    → any p (insert_text s ts) ≡ (p s || any p ts)
unfolding insert_text
any-insert_text p s [] = refl
any-insert_text p s (t ∷ ts) = ground (arith, any-insert_text p s ts)

pub any-sorted : (p : String → Bool) (ts : List String) → any p (sorted ts) ≡ any p ts
unfolding sorted
any-sorted p [] = refl
any-sorted p (t ∷ ts) = any-insert_text p t (sorted ts) ∙ ap (λ b. p t || b) (any-sorted p ts)
