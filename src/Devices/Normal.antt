-- ===== src/Devices/Normal.antt =====
-- The normal form of identifiers.
use smart_parking_platform.Prelude.{
  ℕ, suc, zero, ◌+◌, ◌≤◌, List, [], ◌∷◌, some, true, ◌||◌, ◌==◌, length, All, ◌≡◌, refl, ap, arith,
  Bool-cases, inl, inr,
}
use smart_parking_platform.Hex.{is_hex, is_upper_hex, is_digit}
use smart_parking_platform.Devices.Eui.{matches, upper, upper_text, cleaned, normalize_deveui}

-- A digit, A to F, or the newline that `$` lets through.
abbrev pub IsNormal : ℕ → Type 0
IsNormal c = (is_digit c || (is_upper_hex c || c == 10)) ≡ true

upper_idem : (c : ℕ) → upper (upper c) ≡ upper c
upper_idem c = ground arith

upper-is_hex : (c : ℕ) → is_hex (upper c) ≡ is_hex c
upper-is_hex c = ground arith

upper_text_idem : (cs : List ℕ) → upper_text (upper_text cs) ≡ upper_text cs
unfolding upper_text
upper_text_idem [] = refl
upper_text_idem (c ∷ cs) = ground (arith, upper_idem c, upper_text_idem cs)

-- What the pattern accepts, it accepts in upper case, in the normal characters.
matches-upper_text : (n : ℕ) (cs : List ℕ) → matches n cs ≡ true → matches n (upper_text cs) ≡ true
unfolding matches upper_text
matches-upper_text zero [] h = refl
matches-upper_text zero (c ∷ []) h = ground (arith, h)
matches-upper_text zero (c ∷ d ∷ cs) h = ground (arith, h)
matches-upper_text (suc n) [] h = h
matches-upper_text (suc n) (c ∷ cs) h = ground (arith, h, upper-is_hex c, matches-upper_text n cs)

digits-IsNormal : (n : ℕ) (cs : List ℕ) → matches n cs ≡ true → All IsNormal (upper_text cs)
unfolding matches upper_text
digits-IsNormal zero [] h = tt
digits-IsNormal zero (c ∷ []) h = (ground (arith, h), tt)
digits-IsNormal zero (c ∷ d ∷ cs) h = ground (arith, h)
digits-IsNormal (suc n) [] h = ground (arith, h)
digits-IsNormal (suc n) (c ∷ cs) h = (ground (arith, h), digits-IsNormal n cs (ground (arith, h)))

-- Nothing is cleaned from it.
digits_stay : (cs : List ℕ) → All IsNormal cs → cleaned cs ≡ cs
digits_stay [] h = refl
digits_stay (c ∷ cs) h = ground (arith, h.0, digits_stay cs h.1)

matches-length :
    (n : ℕ) (cs : List ℕ)
    → matches n cs ≡ true
    → (n ≤ length (upper_text cs)) × (length (upper_text cs) ≤ n + 1)
unfolding matches upper_text
matches-length zero [] h = (omega arith, omega arith)
matches-length zero (c ∷ []) h = (omega arith, omega arith)
matches-length zero (c ∷ d ∷ cs) h = ground (arith, h)
matches-length (suc n) [] h = ground (arith, h)
matches-length (suc n) (c ∷ cs) h =
    let rest = matches-length n cs (ground (arith, h)) in
    (omega (arith, rest.0), omega (arith, rest.1))

normalize_again :
    (cs : List ℕ) → matches 16 cs ≡ true → normalize_deveui (upper_text cs) ≡ some (upper_text cs)
unfolding normalize_deveui upper_text
normalize_again [] h = refl
normalize_again (c ∷ cs) h =
    let same = digits_stay (upper_text (c ∷ cs)) (digits-IsNormal 16 (c ∷ cs) h) in
    let good = matches-upper_text 16 (c ∷ cs) h in
    rw (same, good) (ap some (upper_text_idem (c ∷ cs)))

-- An identifier that is not empty and is accepted comes out in a normal form: 16 or 17 characters, all
-- of them digits, A to F or a newline, which a second normalization leaves as they are.
normalize_deveui-IsNormal :
    (c : ℕ) (cs t : List ℕ)
    → normalize_deveui (c ∷ cs) ≡ some t
    → (normalize_deveui t ≡ some t) × (All IsNormal t × ((16 ≤ length t) × (length t ≤ 17)))
unfolding normalize_deveui
normalize_deveui-IsNormal c cs t h = elim (Bool-cases (matches 16 (cleaned (c ∷ cs)))) [
  | inr bad ↦ ground (arith, h, bad)
  | inl good ↦
      let same : upper_text (cleaned (c ∷ cs)) ≡ t = ground (arith, h, good) in
      rw (← same) (
        normalize_again (cleaned (c ∷ cs)) good,
        (digits-IsNormal 16 (cleaned (c ∷ cs)) good, matches-length 16 (cleaned (c ∷ cs)) good),
      )
]
