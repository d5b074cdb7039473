-- ===== src/Pin/Policy/Laws.antt =====
-- The policy test and the count of characters, as what they say of the bytes of the PIN.
use fido_touch.Prelude.{
  ℕ, suc, ◌+◌, ◌^◌, ◌≤◌, ◌<◌, ◌≡◌, Bool, true, false, not, ◌&&◌, ◌||◌, List, [], ◌∷◌, length, arith,
  ◌==◌, bit_and, has_bits, if◌then◌else◌,
}
use fido_touch.Pin.Policy.{
  Classes, no_classes, is_upper, is_lower, is_digit, meet, classes, classes_pass, codepoints_from,
  codepoints, policy_upper, policy_lower, policy_digit, policy_symbol,
}

-- Some byte of the PIN passes the test.
abbrev pub any : (ℕ → Bool) → List ℕ → Bool
any f [] = false
any f (c ∷ pin) = f c || any f pin

abbrev pub is_symbol : ℕ → Bool
is_symbol c = not (is_upper c) && not (is_lower c) && not (is_digit c)

-- The policy asks for the class, and the PIN has none of it.
abbrev pub lacks : ℕ → ℕ → (ℕ → Bool) → List ℕ → Bool
lacks policy bit f pin = has_bits policy bit && not (any f pin)

upper_lem : (c : ℕ) → is_upper c ≡ true → (is_lower c ≡ false) × (is_digit c ≡ false)
upper_lem c h = ground arith

lower_lem : (c : ℕ) → is_lower c ≡ true → (is_upper c ≡ false) × (is_digit c ≡ false)
lower_lem c h = ground arith

digit_lem : (c : ℕ) → is_digit c ≡ true → (is_upper c ≡ false) × (is_lower c ≡ false)
digit_lem c h = ground arith

classes_lem :
    (pin : List ℕ) (k : Classes)
    → classes pin k ≡ record {
      upper = k.upper || any is_upper pin;
      lower = k.lower || any is_lower pin;
      digit = k.digit || any is_digit pin;
      symbol = k.symbol || any is_symbol pin;
    }
unfolding classes meet
classes_lem [] k = ground arith
classes_lem (c ∷ pin) k =
    ground (arith, classes_lem pin (meet c k), upper_lem c, lower_lem c, digit_lem c)

-- Every class that the policy asks for is in the PIN, and no other test is made of it.
pub classes_pass_lem :
    (policy : ℕ) (pin : List ℕ)
    → classes_pass policy (classes pin no_classes)
      ≡ not (
          lacks policy policy_upper is_upper pin
          || lacks policy policy_lower is_lower pin
          || lacks policy policy_digit is_digit pin
          || lacks policy policy_symbol is_symbol pin)
unfolding classes_pass
classes_pass_lem policy pin = ground (arith, classes_lem pin no_classes)

-- The bytes that begin a character
abbrev pub count_starts : List ℕ → ℕ
count_starts [] = 0
count_starts (c ∷ pin) =
    let rest = count_starts pin in if bit_and c 0xc0 == 0x80 then rest else suc rest

codepoints_from_lem :
    (pin : List ℕ) (n : ℕ)
    → n + length pin < 2 ^ 16
    → (codepoints_from n pin ≡ n + count_starts pin) × (count_starts pin ≤ length pin)
unfolding codepoints_from
codepoints_from_lem [] n h = ground arith
codepoints_from_lem (c ∷ pin) n h =
    ground (arith, codepoints_from_lem pin n, codepoints_from_lem pin (n + 1))

pub codepoints_lem :
    (pin : List ℕ)
    → length pin < 2 ^ 16
    → (codepoints pin ≡ count_starts pin) × (codepoints pin ≤ length pin)
unfolding codepoints
codepoints_lem pin h = ground (arith, codepoints_from_lem pin 0)
