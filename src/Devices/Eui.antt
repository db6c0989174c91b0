-- ===== src/Devices/Eui.antt =====
-- `normalize_deveui` and `normalize_gateway_eui` of src/utils.py, on the list of code points.
use smart_parking_platform.Prelude.{
  ℕ, suc, zero, ◌-◌, List, [], ◌∷◌, Option, none, some, Bool, true, false, ◌&&◌, ◌||◌, not, ◌==◌,
  keep, if◌then◌else◌,
}
use smart_parking_platform.Hex.{is_hex, is_lower_hex}

-- ":", "-" and " "
abbrev pub is_separator : ℕ → Bool
is_separator c = c == 58 || (c == 45 || c == 32)

-- `n` hexadecimal digits up to `$`, which also stands before a newline at the end
unfoldable pub matches : ℕ → List ℕ → Bool
matches zero [] = true
matches zero (c ∷ []) = c == 10
matches zero (c ∷ d ∷ cs) = false
matches (suc n) [] = false
matches (suc n) (c ∷ cs) = is_hex c && matches n cs

-- `upper` of a character that the pattern accepts
abbrev pub upper : ℕ → ℕ
upper c = if is_lower_hex c then c - 32 else c

unfoldable pub upper_text : List ℕ → List ℕ
upper_text [] = []
upper_text (c ∷ cs) = upper c ∷ upper_text cs

abbrev pub cleaned : List ℕ → List ℕ
cleaned s = keep (λ c. not (is_separator c)) s

-- `none` is the ValueError. Both functions have the same text but for its message.
unfoldable pub normalize_deveui : List ℕ → Option (List ℕ)
normalize_deveui [] = some []
normalize_deveui (c ∷ cs) =
    if matches 16 (cleaned (c ∷ cs)) then some (upper_text (cleaned (c ∷ cs))) else none
