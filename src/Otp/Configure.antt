-- ===== src/Otp/Configure.antt =====
-- Configuring, deleting and updating a slot.
use fido_touch.Prelude.{
  ℕ, ◌+◌, ◌-◌, ◌%◌, Bool, true, not, ◌&&◌, ◌||◌, List, [], ◌∷◌, ◌++◌, length, take, drop, replicate,
  get_or, leb, ltb, ◌==◌, eq_bytes, bit_and, bit_or, has_bits, if◌then◌else◌,
}
use fido_touch.Platform.{Platform, Picokeys, success}
use fido_touch.Ctap.Ef
use fido_touch.Otp.{
  OtpOf, Apdu, Sw, wrong_length, incorrect_p1p2, exec_error, security_status_not_satisfied,
  wrong_data, config_size, acc_code, fixed_size, ext_flags, tkt_flags, cfg_flags,
}
use fido_touch.Otp.Crc.{calculate_crc}
use fido_touch.Otp.Flags
use fido_touch.Otp.Slot.{slot_load, slot_store}
use fido_touch.Otp.Status.{otp_status}

-- `check_crc`
unfoldable pub check_crc : List ℕ → Bool
check_crc c = calculate_crc (take config_size c) == 0xf0b8

-- `otp_slot_offset_valid`
unfoldable pub slot_offset_valid : ℕ → ℕ → Bool
slot_offset_valid p1 p2 =
    if p1 == 0x01 || p1 == 0x04 || p1 == 0x20 || p1 == 0x30 then leb p2 3 else p2 == 0

-- `odata->rfu[0] != 0 || odata->rfu[1] != 0 || check_crc(odata) == false`
unfoldable pub malformed : List ℕ → Bool
malformed c = not (get_or c 48 0 == 0) || not (get_or c 49 0 == 0) || not (check_crc c)

unfoldable pub all_zero : List ℕ → Bool
all_zero [] = true
all_zero (x ∷ xs) = x == 0 && all_zero xs

-- The bits of `old` outside the mask, and those of `new` inside it
abbrev merge_bits : ℕ → ℕ → ℕ → ℕ
merge_bits mask old new = bit_or (bit_and old (255 - mask)) (bit_and new mask)

-- What an update stores: the identity and the key of the slot stay, and so do the flags but those that
-- may change. The access code and what follows the flags come with the update.
unfoldable pub updated : List ℕ → List ℕ → List ℕ
updated current sent =
    let cfg =
      if not (has_bits (tkt_flags current) Flags.chal_resp)
      then merge_bits Flags.cfg_update (cfg_flags current) (cfg_flags sent)
      else cfg_flags current in
    take 38 current
    ++ (acc_code sent
        ++ (fixed_size current
            ∷ (merge_bits Flags.ext_update (ext_flags current) (ext_flags sent)
                ∷ (merge_bits Flags.tkt_update (tkt_flags current) (tkt_flags sent)
                    ∷ (cfg ∷ take 4 (drop 48 sent))))))

module _ (P : Platform) where
  open P use {Fs, contents, create, delete, commit}

  abbrev pub next_seq : OtpOf P → OtpOf P
  next_seq s = record s { config_seq = (s.config_seq + 1) % 256 }

  abbrev pub answer : Sw → OtpOf P → Sw × OtpOf P
  answer sw s = (sw, s)

  -- The slot is empty, or the six bytes behind the configuration are its access code.
  abbrev pub checked :
      Apdu → Picokeys × List ℕ → OtpOf P → (List ℕ → OtpOf P → Sw × OtpOf P) → Sw × OtpOf P
  checked apdu (success, current) s rest =
      if eq_bytes (acc_code current) (take 6 (drop config_size apdu.bytes))
      then rest current s
      else (security_status_not_satisfied, s)
  checked apdu _ s rest = (exec_error, s)

  abbrev pub stored : Picokeys × Fs → OtpOf P → Sw × OtpOf P
  stored (success, fs) s = otp_status P s.is_otp (next_seq (record s { fs = commit fs }))
  stored (code, fs) s = (exec_error, record s { fs = fs })

  -- The end of configuring: the slot is written, or deleted where all bytes are zero.
  unfoldable pub write_slot : Apdu → ℕ → OtpOf P → Sw × OtpOf P
  write_slot apdu fid s =
      let c = take config_size apdu.bytes in
      if all_zero c
      then otp_status P s.is_otp (next_seq (record s { fs = delete s.fs fid }))
      else if malformed c
      then (wrong_data, s)
      else stored (slot_store P fid (c ++ replicate 8 0) s.fs) s

  -- `cmd_otp` for P1 1 and 3
  unfoldable pub configure : Apdu → OtpOf P → Sw × OtpOf P
  configure apdu s =
      let fid = (if apdu.p1 == 0x01 then Ef.otp_slot1 else Ef.otp_slot2) + apdu.p2 in
      let t = record s { fs = (create s.fs fid).1 } in
      if ltb (length apdu.bytes) config_size
      then (wrong_length, s)
      else if not (slot_offset_valid apdu.p1 apdu.p2)
      then (incorrect_p1p2, s)
      else if length (contents t.fs fid) == 0
      then write_slot apdu fid t
      else if ltb (length apdu.bytes) (config_size + 6)
      then (wrong_length, t)
      else checked apdu (slot_load P fid t.fs) t (λ current. write_slot apdu fid)

  -- What is behind the configuration in the slot, a counter, stays.
  unfoldable pub store_update : Apdu → ℕ → List ℕ → OtpOf P → Sw × OtpOf P
  store_update apdu fid current s =
      stored (slot_store P fid (updated current apdu.bytes ++ drop config_size current) s.fs) s

  -- `cmd_otp` for P1 4 and 5
  unfoldable pub update : Apdu → OtpOf P → Sw × OtpOf P
  update apdu s =
      let fid = (if apdu.p1 == 0x04 then Ef.otp_slot1 else Ef.otp_slot2) + apdu.p2 in
      if ltb (length apdu.bytes) config_size
      then (wrong_length, s)
      else if not (slot_offset_valid apdu.p1 apdu.p2)
      then (incorrect_p1p2, s)
      else if malformed (take config_size apdu.bytes)
      then (wrong_data, s)
      else if length (contents s.fs fid) == 0
      then otp_status P s.is_otp s
      else if ltb (length apdu.bytes) (config_size + 6)
      then (wrong_length, s)
      else checked apdu (slot_load P fid s.fs) s (store_update apdu fid)
