-- ===== src/Otp/Crc.antt =====
-- `calculate_crc` of src/fido/otp.c.
use fido_touch.Prelude.{
  ℕ, zero, suc, ◌+◌, ◌-◌, ◌*◌, ◌/◌, ◌%◌, ◌^◌, ◌≤◌, ◌<◌, ◌≡◌, refl, ap, sym, ◌∙◌, Bool, true, ◌&&◌,
  List, [], ◌∷◌, ◌++◌, ◌==◌, ==_iff, bit_xor, if◌then◌else◌, arith,
}
use Prim.Native.Nat.{digits, differ, bit_xor-bitwise}

-- One turn of the inner loop
unfoldable pub crc_bit : ℕ → ℕ
crc_bit crc = if crc % 2 == 1 then bit_xor (crc / 2) 0x8408 else crc / 2

unfoldable pub crc_bits : ℕ → ℕ → ℕ
unfolding crc_bit
crc_bits zero crc = crc
crc_bits (suc n) crc = crc_bits n (crc_bit crc)

unfoldable pub crc_bytes : ℕ → List ℕ → ℕ
unfolding crc_bits
crc_bytes crc [] = crc
crc_bytes crc (x ∷ xs) = crc_bytes (crc_bits 8 (bit_xor crc x)) xs

-- `calculate_crc`
unfoldable pub calculate_crc : List ℕ → ℕ
unfolding crc_bytes
calculate_crc d = crc_bytes 0xffff d

-- A CRC, complemented, as `put_uint16_le` writes it
abbrev pub complement : ℕ → List ℕ
complement crc = (0xffff - crc) % 256 ∷ ((0xffff - crc) / 256 ∷ [])

-- a test of every number below `n`
unfoldable pub every : (ℕ → Bool) → ℕ → Bool
every p zero = true
every p (suc n) = p n && every p n

pub every_lem : (p : ℕ → Bool) (n i : ℕ) → every p n ≡ true → i < n → p i ≡ true
unfolding every
every_lem p zero i h lt = absurd (omega (arith, lt))
every_lem p (suc n) i h lt = ground (arith, every_lem p n i)

abbrev xor_digits : ℕ → ℕ → ℕ → ℕ
xor_digits n a b = digits (λ b. b) differ n a b

differ_zero : (a : ℕ) → differ a 0 ≡ a
differ_zero zero = refl
differ_zero (suc a) = refl

digits_enough : (n m a b : ℕ) → a ≤ n → a ≤ m → xor_digits n a b ≡ xor_digits m a b
digits_enough zero zero a b hn hm = refl
digits_enough zero (suc m) zero b hn hm = refl
digits_enough zero (suc m) (suc a) b hn hm = absurd (omega (arith, hn))
digits_enough (suc n) zero zero b hn hm = refl
digits_enough (suc n) zero (suc a) b hn hm = absurd (omega (arith, hm))
digits_enough (suc n) (suc m) zero b hn hm = refl
digits_enough (suc n) (suc m) (suc a) b hn hm =
    let e = digits_enough n m (suc a / 2) (b / 2) (omega arith) (omega arith) in omega (arith, e)

xor_step : (a b : ℕ) → bit_xor a b ≡ bit_xor (a / 2) (b / 2) * 2 + differ (a % 2) (b % 2)
xor_step zero b = omega (arith, bit_xor-bitwise 0 b, bit_xor-bitwise 0 (b / 2))
xor_step (suc a) b =
    let e = digits_enough a (suc a / 2) (suc a / 2) (b / 2) (omega arith) (omega arith) in
    omega (arith, e, bit_xor-bitwise (suc a) b, bit_xor-bitwise (suc a / 2) (b / 2))

digits_nil : (n a : ℕ) → a ≤ n → xor_digits n a 0 ≡ a
digits_nil zero a h = omega (arith, h)
digits_nil (suc n) zero h = refl
digits_nil (suc n) (suc a) h =
    omega (arith, digits_nil n (suc a / 2) (omega arith), differ_zero (suc a % 2))

xor_nil : (a : ℕ) → bit_xor a 0 ≡ a
xor_nil a = bit_xor-bitwise a 0 ∙ digits_nil a a (omega arith)

shift : ℕ → ℕ → ℕ
shift zero m = m
shift (suc k) m = 2 * shift k m

-- The high part of a number passes through.
xor_high :
    (k m l x : ℕ)
    → l < shift k 1
    → x < shift k 1
    → bit_xor (shift k m + l) x ≡ shift k m + bit_xor l x
unfolding shift
xor_high zero m l x hl hx = ground (arith, xor_nil m, xor_nil 0)
xor_high (suc k) m l x hl hx =
    let e = xor_high k m (l / 2) (x / 2) (omega arith) (omega arith) in
    let half : (2 * shift k m + l) / 2 ≡ shift k m + l / 2 = omega arith in
    let bit : (2 * shift k m + l) % 2 ≡ l % 2 = omega arith in
    let split : bit_xor (2 * shift k m + l) x
        ≡ bit_xor (shift k m + l / 2) (x / 2) * 2 + differ (l % 2) (x % 2) =
      rw (xor_step (2 * shift k m + l) x, half, bit) in
    omega (arith, split, e, xor_step l x)

low_bytes : every (λ l. bit_xor l (255 - l) == 255) 256 ≡ true
unfolding every
low_bytes = refl

low_byte : (h l : ℕ) → l < 256 → bit_xor (256 * h + l) (255 - l) ≡ 256 * h + 255
unfolding shift
low_byte h l lt =
    let e = xor_high 8 h l (255 - l) (omega arith) (omega arith) in
    let b = every_lem (λ l. bit_xor l (255 - l) == 255) 256 l low_bytes lt in ground (arith, e, b)

high_bytes :
    every (λ h. crc_bits 8 (bit_xor (crc_bits 8 (256 * h + 255)) (255 - h)) == 0xf0b8) 256 ≡ true
unfolding every crc_bits crc_bit
high_bytes = refl

differ_bit : (a b : ℕ) → a < 2 → b < 2 → differ a b < 2
differ_bit zero b ha hb = hb
differ_bit (suc zero) zero ha hb = ha
differ_bit (suc zero) (suc b) ha hb = omega (arith, hb)
differ_bit (suc (suc a)) b ha hb = absurd (omega (arith, ha))

xor_bound : (k a b : ℕ) → a < shift k 1 → b < shift k 1 → bit_xor a b < shift k 1
unfolding shift
xor_bound zero a b ha hb = ground (arith, xor_nil 0)
xor_bound (suc k) a b ha hb =
    let e = xor_bound k (a / 2) (b / 2) (omega arith) (omega arith) in
    let d = differ_bit (a % 2) (b % 2) (omega arith) (omega arith) in
    omega (arith, xor_step a b, e, d)

crc_bits_bound : (n c : ℕ) → c < 2 ^ 16 → crc_bits n c < 2 ^ 16
unfolding crc_bits crc_bit shift
crc_bits_bound zero c h = h
crc_bits_bound (suc n) c h =
    crc_bits_bound n (crc_bit c)
      (ground (arith, xor_bound 16 (c / 2) 0x8408 (omega arith) (omega arith)))

-- A list of bytes
unfoldable pub Bytes : List ℕ → Type 0
Bytes [] = Unit
Bytes (x ∷ xs) = (x < 256) × Bytes xs

crc_bytes_bound : (xs : List ℕ) (c : ℕ) → Bytes xs → c < 2 ^ 16 → crc_bytes c xs < 2 ^ 16
unfolding crc_bytes Bytes shift
crc_bytes_bound [] c b h = h
crc_bytes_bound (x ∷ xs) c b h =
    crc_bytes_bound xs (crc_bits 8 (bit_xor c x)) b.1
      (crc_bits_bound 8 (bit_xor c x) (xor_bound 16 c x h (omega (arith, b.0))))

crc_bytes-append : (xs ys : List ℕ) (c : ℕ) → crc_bytes c (xs ++ ys) ≡ crc_bytes (crc_bytes c xs) ys
unfolding crc_bytes
crc_bytes-append [] ys c = refl
crc_bytes-append (x ∷ xs) ys c = crc_bytes-append xs ys (crc_bits 8 (bit_xor c x))

crc_bytes-complement : (c : ℕ) → c < 2 ^ 16 → crc_bytes c (complement c) ≡ 0xf0b8
unfolding crc_bytes
crc_bytes-complement c h =
    let high : c / 256 < 256 = omega arith in
    let first : (0xffff - c) % 256 ≡ 255 - c % 256 = omega arith in
    let second : (0xffff - c) / 256 ≡ 255 - c / 256 = omega arith in
    let whole : 256 * (c / 256) + c % 256 ≡ c = omega arith in
    let low = low_byte (c / 256) (c % 256) (omega arith) in
    let test =
      every_lem (λ h. crc_bits 8 (bit_xor (crc_bits 8 (256 * h + 255)) (255 - h)) == 0xf0b8) 256
        (c / 256) high_bytes high in
    let low_c : bit_xor c (255 - c % 256) ≡ 256 * (c / 256) + 255 =
      ap (λ z. bit_xor z (255 - c % 256)) (sym whole) ∙ low in
    rw (first, second, low_c)
      ((==_iff (crc_bits 8 (bit_xor (crc_bits 8 (256 * (c / 256) + 255)) (255 - c / 256))) 0xf0b8).0
        test)

-- The complemented CRC of some bytes, appended to them low byte first, brings the CRC of the whole to
-- 0xf0b8, whatever the bytes: the value that `check_crc` compares with.
pub crc-complement :
    (xs : List ℕ) → Bytes xs → calculate_crc (xs ++ complement (calculate_crc xs)) ≡ 0xf0b8
unfolding calculate_crc
crc-complement xs b =
    crc_bytes-append xs (complement (crc_bytes 0xffff xs)) 0xffff
    ∙ crc_bytes-complement (crc_bytes 0xffff xs) (crc_bytes_bound xs 0xffff b (omega arith))
