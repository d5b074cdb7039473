-- ===== src/Otp/Modhex.antt =====
-- `encode_modhex` of src/fido/otp.c.
use fido_touch.Prelude.{
  ℕ, suc, ◌+◌, ◌*◌, ◌/◌, ◌%◌, ◌<◌, ◌≡◌, refl, Bool, true, false, Option, none, some, List, [], ◌∷◌,
  get_or, ◌==◌, if◌then◌else◌, arith,
}
use fido_touch.Otp.Crc.{Bytes, every, every_lem}

-- "cbdefghijklnrtuv"
abbrev pub modhex_tab : List ℕ
modhex_tab =
    0x63
    ∷ (0x62
        ∷ (0x64
            ∷ (0x65
                ∷ (0x66
                    ∷ (0x67
                        ∷ (0x68
                            ∷ (0x69
                                ∷ (0x6a
                                    ∷ (0x6b
                                        ∷ (0x6c
                                            ∷ (0x6e
                                                ∷ (0x72 ∷ (0x74 ∷ (0x75 ∷ (0x76 ∷ [])))))))))))))))

-- `in[l] >> 4` and `in[l] & 0xf` of a byte
unfoldable pub encode_modhex : List ℕ → List ℕ
encode_modhex [] = []
encode_modhex (x ∷ xs) =
    get_or modhex_tab (x / 16) 0 ∷ (get_or modhex_tab (x % 16) 0 ∷ encode_modhex xs)

-- What reads it back: the place of a character in the table, and two places to a byte.
unfoldable pub place : ℕ → ℕ → List ℕ → Option ℕ
place c i [] = none
place c i (x ∷ xs) = let later = place c (suc i) xs in if c == x then some i else later

abbrev pub join : Option ℕ → Option ℕ → Option (List ℕ) → Option (List ℕ)
join (some a) (some b) (some xs) = some ((16 * a + b) ∷ xs)
join _ _ _ = none

unfoldable pub decode_modhex : List ℕ → Option (List ℕ)
unfolding place
decode_modhex [] = some []
decode_modhex (c ∷ []) = none
decode_modhex (c ∷ d ∷ rest) =
    join (place c 0 modhex_tab) (place d 0 modhex_tab) (decode_modhex rest)

same_place : Option ℕ → ℕ → Bool
same_place none i = false
same_place (some j) i = j == i

same_place_lem : (o : Option ℕ) (i : ℕ) → same_place o i ≡ true → o ≡ some i
unfolding same_place
same_place_lem none i h = ground arith
same_place_lem (some j) i h = ground arith

places : every (λ i. same_place (place (get_or modhex_tab i 0) 0 modhex_tab) i) 16 ≡ true
unfolding every same_place place
places = refl

place_lem : (i : ℕ) → i < 16 → place (get_or modhex_tab i 0) 0 modhex_tab ≡ some i
place_lem i h =
    same_place_lem (place (get_or modhex_tab i 0) 0 modhex_tab) i
      (every_lem (λ i. same_place (place (get_or modhex_tab i 0) 0 modhex_tab) i) 16 i places h)

-- Modhex is read back: decoding the encoding of any bytes gives them again.
pub decode_modhex-encode_modhex :
    (xs : List ℕ) → Bytes xs → decode_modhex (encode_modhex xs) ≡ some xs
unfolding decode_modhex encode_modhex Bytes
decode_modhex-encode_modhex [] b = refl
decode_modhex-encode_modhex (x ∷ xs) b =
    let whole : 16 * (x / 16) + x % 16 ≡ x = omega arith in
    rw (
      place_lem (x / 16) (omega (arith, b.0)),
      place_lem (x % 16) (omega arith),
      decode_modhex-encode_modhex xs b.1,
      whole,
    )
