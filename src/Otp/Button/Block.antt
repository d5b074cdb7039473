-- ===== src/Otp/Button/Block.antt =====
-- The block that Yubico OTP encrypts and types, with the two counters in it.
use fido_touch.Prelude.{
  ℕ, ◌+◌, ◌-◌, ◌*◌, ◌/◌, ◌%◌, ◌^◌, ◌<◌, ◌≡◌, ◌⊎◌, inl, inr, refl, sym, ap, ◌∙◌, true, false, List,
  [], ◌∷◌, ◌++◌, append-nil, append_assoc, length, length-append, length-take, length-drop, take,
  take-append, drop, drop-append, get_or, get_or-append, arith, Bool-cases, has_bits,
}
use fido_touch.Platform.{Platform}
use fido_touch.Otp.{
  OtpOf, Press, add_keyboard_buffer, append_keyboard_buffer, uid, fixed_data, aes_key, tkt_flags,
}
use fido_touch.Otp.Crc.{calculate_crc, complement}
use fido_touch.Otp.Flags
use fido_touch.Otp.Modhex.{encode_modhex}
use fido_touch.Otp.Slot.{sized}
use fido_touch.Otp.Button.{current, usage, otp_block, append_key, press_yubico}

regroup : (u l t crc : List ℕ) → (u ++ (l ++ t)) ++ crc ≡ u ++ (l ++ (t ++ crc))
regroup u l t crc = append_assoc u (l ++ t) crc ∙ ap (λ x. u ++ x) (append_assoc l t crc)

length-uid : (c : List ℕ) → sized (length c) ≡ true → length (uid c) ≡ 6
length-uid c h = ground (arith, length-take 6 (drop 16 c), length-drop 16 c)

module _ (P : Platform) where
  open P use {be16, get_be16, le16, get_le16, random, aes_ecb}

  -- What the two bytes of a number promise, in either order
  unfoldable pub TwoBytes : Type 0
  TwoBytes =
      ((n : ℕ) → length (be16 n) ≡ 2)
      × ((n : ℕ) → n < 2 ^ 16 → get_be16 (be16 n) ≡ n)
      × ((n : ℕ) → length (le16 n) ≡ 2)
      × ((n : ℕ) → n < 2 ^ 16 → get_le16 (le16 n) ≡ n)

  -- The number that the usage counter and the session counter of a block are together
  unfoldable pub number_in : List ℕ → ℕ
  number_in block = 256 * get_le16 (take 2 (drop 6 block)) + get_or block 11 0

  number_in-otp_block :
      (c : List ℕ) (counter ts session : ℕ) (rnd : List ℕ)
      → TwoBytes
      → sized (length c) ≡ true
      → counter < 2 ^ 16
      → number_in (otp_block P c counter ts session rnd) ≡ 256 * counter + session
  unfolding TwoBytes number_in otp_block
  number_in-otp_block c counter ts session rnd (_, _, two, back) h small =
      let head : List ℕ = ts % 256 ∷ (ts / 2 ^ 8 % 256 ∷ (ts / 2 ^ 16 % 256 ∷ [])) in
      let tail : List ℕ = head ++ (session ∷ rnd) in
      let crc = complement (calculate_crc (uid c ++ (le16 counter ++ tail))) in
      let at = regroup (uid c) (le16 counter) tail crc in
      let used =
        ap (λ b. get_le16 (take 2 (drop 6 b))) at
        ∙ ap (λ b. get_le16 (take 2 b))
            (drop-append (uid c) (le16 counter ++ (tail ++ crc)) 0 (length-uid c h))
        ∙ ap get_le16 (take-append (le16 counter) (tail ++ crc) (two counter))
        ∙ back counter small in
      let front = uid c ++ (le16 counter ++ head) in
      let eleven : length front ≡ 11 = omega (
        arith,
        length-append (uid c) (le16 counter ++ head),
        length-append (le16 counter) head,
        length-uid c h,
        two counter,
      ) in
      let last =
        ap (λ b. get_or b 11 0)
          (at ∙ sym (regroup (uid c) (le16 counter) head (session ∷ (rnd ++ crc))))
        ∙ get_or-append front session 0 (rnd ++ crc) eleven in
      omega (arith, used, last)

  append_key-typed :
      (key : ℕ) (c : List ℕ) (s : OtpOf P)
      → (rest : List Press) × ((append_key P key c s).typed ≡ s.typed ++ rest)
  append_key-typed key c s = by_flag (Bool-cases (has_bits (tkt_flags c) Flags.append_cr))
    where
      by_flag :
          (has_bits (tkt_flags c) Flags.append_cr ≡ true)
            ⊎ (has_bits (tkt_flags c) Flags.append_cr ≡ false)
          → (rest : List Press) × ((append_key P key c s).typed ≡ s.typed ++ rest)
      by_flag (inl e) = (append_keyboard_buffer (key ∷ []) ∷ [], rw e refl)
      by_flag (inr e) = ([], rw e (sym (append-nil s.typed)))

  -- The password of `block`: the public identity and the encrypted block, typed in modhex
  abbrev pub password : List ℕ → List ℕ → Press
  password c block =
      add_keyboard_buffer (encode_modhex (take 6 (fixed_data c) ++ (aes_ecb (aes_key c) block).1))
        true

  -- What a press types next is the password of a block that carries this number.
  unfoldable pub Types : List ℕ → ℕ → OtpOf P → OtpOf P → Type 0
  Types c number s s' =
      (block : List ℕ) × (rest : List Press) × (s'.typed ≡ s.typed ++ (password c block ∷ rest))
      × (number_in block ≡ number)

  pub press_yubico-Types :
      (millis slot fid : ℕ) (c : List ℕ) (s : OtpOf P)
      → TwoBytes
      → sized (length c) ≡ true
      → current (usage P c) < 2 ^ 16
      → Types c
          (256 * current (usage P c) + get_or s.session_counter (slot - 1) 0)
          s
          (press_yubico P millis slot fid c s)
  unfolding Types press_yubico
  press_yubico-Types millis slot fid c s two h small =
      let session = get_or s.session_counter (slot - 1) 0 in
      let block =
        otp_block P c (current (usage P c)) (millis / 1000 / 2) session (random 2 s.rng).0 in
      let shown = record s { typed = s.typed ++ (password c block ∷ []) } in
      let (rest, e) = append_key-typed 0x0d c shown in
      (
        block,
        rest,
        e ∙ append_assoc s.typed (password c block ∷ []) rest,
        number_in-otp_block c (current (usage P c)) (millis / 1000 / 2) session (random 2 s.rng).0
            two h small,
      )
