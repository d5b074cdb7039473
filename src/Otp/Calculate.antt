-- ===== src/Otp/Calculate.antt =====
-- Challenge and response over a slot.
use fido_touch.Prelude.{
  ℕ, zero, suc, ◌+◌, Bool, not, ◌||◌, List, ◌++◌, length, take, get_or, ltb, ◌==◌, has_bits,
  if◌then◌else◌,
}
use fido_touch.Platform.{Platform, Picokeys, success, Md}
use fido_touch.Ctap.Ef
use fido_touch.Otp.{
  OtpOf, Apdu, Sw, ok_sw, wrong_length, incorrect_p1p2, exec_error, wrong_data,
  conditions_not_satisfied, uid, aes_key, tkt_flags, cfg_flags, overlay,
}
use fido_touch.Otp.Flags
use fido_touch.Otp.Slot.{slot_load}
use fido_touch.Otp.Status.{otp_status}
use fido_touch.Otp.Configure.{slot_offset_valid}

-- The length of a challenge without the bytes at its end that repeat the last one
unfoldable pub chal_len : List ℕ → ℕ → ℕ
chal_len d zero = zero
chal_len d (suc n) =
    let shorter = chal_len d n in if get_or d 63 0 == get_or d n 0 then shorter else suc n

-- The challenge of which the HMAC is taken
unfoldable pub hmac_challenge : List ℕ → List ℕ → List ℕ
hmac_challenge c d =
    if has_bits (cfg_flags c) Flags.hmac_lt64 then take (chal_len d 64) d else take 64 d

module _ (P : Platform) where
  open P use {contents, hmac, aes_ecb, serial_str}

  abbrev pub with_status : ℕ → OtpOf P → OtpOf P
  with_status b s = record s { status_byte = b }

  -- P1 0x30 and 0x38; what the HMAC returns as its code is not read.
  unfoldable pub hmac_response : List ℕ → List ℕ → OtpOf P → Sw × OtpOf P
  hmac_response c d s =
      let mac = (hmac Md.sha1 (aes_key c ++ uid c) (hmac_challenge c d)).1 in
      if ltb (length d) 64
      then (wrong_length, s)
      else if not (has_bits (cfg_flags c) Flags.chal_hmac)
      then (wrong_data, s)
      else (ok_sw, record s { out = overlay 0 mac s.out; size = 20; status_byte = 0 })

  abbrev pub ciphered : ℕ × List ℕ → OtpOf P → Sw × OtpOf P
  ciphered (ret, block) s =
      if ret == 0
      then (ok_sw, record s { out = overlay 0 block s.out; size = 16; status_byte = 0 })
      else (ok_sw, s)

  -- P1 0x20 and 0x28
  unfoldable pub yubico_response : List ℕ → List ℕ → OtpOf P → Sw × OtpOf P
  yubico_response c d s =
      if ltb (length d) 6
      then (wrong_length, s)
      else if not (has_bits (cfg_flags c) Flags.chal_yubico)
      then (wrong_data, s)
      else ciphered (aes_ecb (aes_key c) (take 6 d ++ take 10 serial_str)) s

  abbrev pub respond : Apdu → List ℕ → OtpOf P → Sw × OtpOf P
  respond apdu c =
      if apdu.p1 == 0x30 || apdu.p1 == 0x38
      then hmac_response c apdu.bytes
      else yubico_response c apdu.bytes

  -- The touch, where the slot asks for it; `refused` is what `button_wait` returns.
  unfoldable pub touch_and_respond : Bool → Apdu → List ℕ → OtpOf P → Sw × OtpOf P
  touch_and_respond refused apdu c s =
      let waiting = (otp_status P s.is_otp (with_status 0x20 s)).1 in
      if not (has_bits (cfg_flags c) Flags.chal_btn_trig)
      then respond apdu c s
      else if refused
      then (conditions_not_satisfied, (otp_status P s.is_otp (with_status 0x00 waiting)).1)
      else respond apdu c (with_status 0x10 waiting)

  abbrev pub calculate_loaded : Bool → Apdu → Picokeys × List ℕ → OtpOf P → Sw × OtpOf P
  calculate_loaded refused apdu (success, c) s =
      if not (has_bits (tkt_flags c) Flags.chal_resp)
      then (wrong_data, s)
      else touch_and_respond refused apdu c s
  calculate_loaded refused apdu _ s = (exec_error, s)

  -- `cmd_otp` for P1 0x20, 0x28, 0x30 and 0x38
  unfoldable pub calculate : Bool → Apdu → OtpOf P → Sw × OtpOf P
  calculate refused apdu s =
      let fid =
        (if apdu.p1 == 0x30 || apdu.p1 == 0x20 then Ef.otp_slot1 else Ef.otp_slot2) + apdu.p2 in
      if not (slot_offset_valid apdu.p1 apdu.p2)
      then (incorrect_p1p2, s)
      else if length (contents s.fs fid) == 0
      then (ok_sw, s)
      else calculate_loaded refused apdu (slot_load P fid s.fs) s
