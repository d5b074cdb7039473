-- ===== src/Otp/Guard/Calculate.antt =====
-- The slots after a challenge.
use fido_touch.Prelude.{
  ℕ, ◌+◌, ◌≡◌, refl, ◌∙◌, Bool, true, not, List, length, take, ◌==◌, if◌then◌else◌, arith, ◌++◌,
  ◌||◌, if-elim, has_bits,
}
use fido_touch.Platform.{Platform, Picokeys, success}
use fido_touch.Ctap.Ef
use fido_touch.Otp.{OtpOf, Apdu, Sw, aes_key, tkt_flags, cfg_flags}
use fido_touch.Otp.Slot.{slot_load}
use fido_touch.Otp.Status.{otp_status}
use fido_touch.Otp.Configure.{slot_offset_valid}
use fido_touch.Otp.Calculate.{
  calculate, calculate_loaded, touch_and_respond, respond, with_status, ciphered, hmac_response,
  yubico_response,
}
use fido_touch.Otp.Flags
use fido_touch.Otp.Guard.{otp_status-fs, otp_status-scanned}

module _ (P : Platform) where
  open P use {
    Fs, contents, put, create, delete, commit, contents-put_ne, contents-create, contents-commit,
    contents-delete,
  }

  hmac_response-fs : (c d : List ℕ) (s : OtpOf P) → (hmac_response P c d s).1.fs ≡ s.fs
  unfolding hmac_response
  hmac_response-fs c d s = ground arith

  ciphered-fs : (r : ℕ × List ℕ) (s : OtpOf P) → (ciphered P r s).1.fs ≡ s.fs
  ciphered-fs (ret, block) s = ground arith

  yubico_response-fs : (c d : List ℕ) (s : OtpOf P) → (yubico_response P c d s).1.fs ≡ s.fs
  unfolding yubico_response
  yubico_response-fs c d s =
      ground (arith, ciphered-fs (P.aes_ecb (aes_key c) (take 6 d ++ take 10 P.serial_str)) s)

  respond-fs : (apdu : Apdu) (c : List ℕ) (s : OtpOf P) → (respond P apdu c s).1.fs ≡ s.fs
  respond-fs apdu c s =
      ground (arith, hmac_response-fs c apdu.bytes s, yubico_response-fs c apdu.bytes s)

  touch_and_respond-fs :
      (refused : Bool) (apdu : Apdu) (c : List ℕ) (s : OtpOf P)
      → s.scanned ≡ true
      → (touch_and_respond P refused apdu c s).1.fs ≡ s.fs
  unfolding touch_and_respond
  touch_and_respond-fs refused apdu c s hs =
      let Same : Sw × OtpOf P → Type 0 = λ r. r.1.fs ≡ s.fs in
      let waiting = (otp_status P s.is_otp (with_status P 0x20 s)).1 in
      let first = otp_status-fs P s.is_otp (with_status P 0x20 s) hs in
      let still = otp_status-scanned P s.is_otp (with_status P 0x20 s) in
      if-elim Same (not (has_bits (cfg_flags c) Flags.chal_btn_trig)) (λ _. respond-fs apdu c s)
        (λ _.
          if-elim Same refused
            (λ _. otp_status-fs P s.is_otp (with_status P 0x00 waiting) still ∙ first)
            (λ _. respond-fs apdu c (with_status P 0x10 waiting) ∙ first))

  calculate_loaded-fs :
      (refused : Bool) (apdu : Apdu) (l : Picokeys × List ℕ) (s : OtpOf P)
      → s.scanned ≡ true
      → (calculate_loaded P refused apdu l s).1.fs ≡ s.fs
  calculate_loaded-fs refused apdu (success, c) s hs =
      if-elim (λ (r : Sw × OtpOf P). r.1.fs ≡ s.fs) (not (has_bits (tkt_flags c) Flags.chal_resp))
        (λ _. refl) (λ _. touch_and_respond-fs refused apdu c s hs)
  calculate_loaded-fs refused apdu (code, c) s hs = refl

  pub calculate-fs :
      (refused : Bool) (apdu : Apdu) (s : OtpOf P)
      → s.scanned ≡ true
      → (calculate P refused apdu s).1.fs ≡ s.fs
  unfolding calculate
  calculate-fs refused apdu s hs =
      let fid =
        (if apdu.p1 == 0x30 || apdu.p1 == 0x20 then Ef.otp_slot1 else Ef.otp_slot2) + apdu.p2 in
      let Same : Sw × OtpOf P → Type 0 = λ r. r.1.fs ≡ s.fs in
      if-elim Same (not (slot_offset_valid apdu.p1 apdu.p2)) (λ _. refl)
        (λ _.
          if-elim Same (length (contents s.fs fid) == 0) (λ _. refl)
            (λ _. calculate_loaded-fs refused apdu (slot_load P fid s.fs) s hs))
