-- ===== src/Pin/Policy.antt =====
-- What a new PIN must be like: `pin_policy_pass` and `pin_codepoint_len`.
pub mod Laws
use fido_touch.Prelude.{
  ℕ, suc, ◌+◌, ◌-◌, ◌%◌, ◌^◌, Bool, true, false, not, ◌&&◌, ◌||◌, List, [], ◌∷◌, length, leb, ltb,
  ◌==◌, bit_and, has_bits, if◌then◌else◌,
}
use fido_touch.Platform.{Platform}

-- The classes of characters that the loop has met.
pub record Classes : Type 0 where
  pub upper : Bool
  pub lower : Bool
  pub digit : Bool
  pub symbol : Bool

abbrev pub no_classes : Classes
no_classes = record { upper = false; lower = false; digit = false; symbol = false }

abbrev pub is_upper : ℕ → Bool
is_upper c = leb b'A' c && leb c b'Z'

abbrev pub is_lower : ℕ → Bool
is_lower c = leb b'a' c && leb c b'z'

abbrev pub is_digit : ℕ → Bool
is_digit c = leb b'0' c && leb c b'9'

unfoldable pub meet : ℕ → Classes → Classes
meet c k =
    if is_upper c
    then record k { upper = true }
    else if is_lower c
    then record k { lower = true }
    else if is_digit c
    then record k { digit = true }
    else record k { symbol = true }

unfoldable pub classes : List ℕ → Classes → Classes
classes [] k = k
classes (c ∷ pin) k = classes pin (meet c k)

abbrev pub policy_upper : ℕ
policy_upper = 1

abbrev pub policy_lower : ℕ
policy_lower = 2

abbrev pub policy_digit : ℕ
policy_digit = 4

abbrev pub policy_symbol : ℕ
policy_symbol = 8

-- The four tests after the loop.
unfoldable pub classes_pass : ℕ → Classes → Bool
classes_pass policy k =
    if has_bits policy policy_upper && not k.upper
    then false
    else if has_bits policy policy_lower && not k.lower
    then false
    else if has_bits policy policy_digit && not k.digit
    then false
    else if has_bits policy policy_symbol && not k.symbol
    then false
    else true

module _ (P : Platform) where
  -- `pin_policy_pass`, with the contents of EF_PIN_COMPLEXITY_POLICY
  unfoldable pub policy_pass : List ℕ → List ℕ → Bool
  policy_pass stored pin =
      if length stored == 0
      then true
      else if P.get_be16 stored == 0
      then true
      else classes_pass (P.get_be16 stored) (classes pin no_classes)

-- `pin_codepoint_len`: the bytes that do not continue a character, in a uint16_t
unfoldable pub codepoints_from : ℕ → List ℕ → ℕ
codepoints_from count [] = count
codepoints_from count (c ∷ pin) =
    codepoints_from (if bit_and c 0xc0 == 0x80 then count else (count + 1) % 2 ^ 16) pin

unfoldable pub codepoints : List ℕ → ℕ
unfolding codepoints_from
codepoints pin = codepoints_from 0 pin

-- The bytes before the first that is 0.
unfoldable pub until_zero : List ℕ → List ℕ
until_zero [] = []
until_zero (c ∷ pin) = let rest = until_zero pin in if c == 0 then [] else c ∷ rest
