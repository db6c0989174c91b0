-- ===== src/Hex.antt =====
-- Hexadecimal texts, as Python's `bytes.fromhex` reads them: pairs of digits, with ASCII whitespace
-- allowed between the pairs. A text is the list of its code points.
use Prim.Native.Char.{code}
use smart_parking_platform.Prelude.{
  ℕ, String, List, [], ◌∷◌, ◌+◌, ◌-◌, ◌*◌, Bool, ◌&&◌, ◌||◌, Option, none, some, leb, ◌==◌,
  if◌then◌else◌,
}

abbrev pub codes : String → List ℕ
codes String.[] = []
codes (String.◌∷◌ c s) = code c ∷ codes s

abbrev pub is_digit : ℕ → Bool
is_digit c = leb b'0' c && leb c b'9'

abbrev pub is_lower_hex : ℕ → Bool
is_lower_hex c = leb b'a' c && leb c b'f'

abbrev pub is_upper_hex : ℕ → Bool
is_upper_hex c = leb b'A' c && leb c b'F'

-- [0-9a-fA-F]
abbrev pub is_hex : ℕ → Bool
is_hex c = is_digit c || (is_lower_hex c || is_upper_hex c)

abbrev pub is_space : ℕ → Bool
is_space c = c == 32 || (leb 9 c && leb c 13)

unfoldable pub digit_value : ℕ → Option ℕ
digit_value c =
    if is_digit c
    then some (c - b'0')
    else if is_lower_hex c
    then some (c - b'a' + 10)
    else if is_upper_hex c
    then some (c - b'A' + 10)
    else none

abbrev pub byte_then : Option ℕ → Option ℕ → Option (List ℕ) → Option (List ℕ)
byte_then (some h) (some l) (some rest) = some ((16 * h + l) ∷ rest)
byte_then _ _ _ = none

-- `bytes.fromhex`; `none` is a ValueError.
unfoldable pub from_hex : List ℕ → Option (List ℕ)
unfolding digit_value
from_hex [] = some []
from_hex (c ∷ []) = if is_space c then some [] else none
from_hex (c ∷ d ∷ rest) =
    let skip = from_hex (d ∷ rest) in
    let pair = from_hex rest in
    if is_space c then skip else byte_then (digit_value c) (digit_value d) pair
