-- ===== src/Otp/Command.antt =====
-- The commands of the OTP application, by P1.
use fido_touch.Prelude.{
  ℕ, Bool, true, false, not, ◌||◌, List, ◌∷◌, length, take, drop, get_or, ◌==◌, bit_and,
  if◌then◌else◌,
}
use fido_touch.Exec.{Exec, Result, ok, err, fault}
use fido_touch.Platform.{Platform}
use fido_touch.Management.Cap
use fido_touch.Management.{cap_supported, man_get_config}
use fido_touch.Otp.{OtpOf, Apdu, Sw, ok_sw, cla_not_supported, ins_not_supported, overlay}
use fido_touch.Otp.Status.{otp_status_ext}
use fido_touch.Otp.Configure.{configure, update}
use fido_touch.Otp.Swap.{swap}
use fido_touch.Otp.Calculate.{calculate}

module _ (P : Platform) where
  open P use {Fs, serial}

  abbrev show : List ℕ → OtpOf P → Sw × OtpOf P
  show d s = (ok_sw, record s { out = overlay 0 d s.out; size = length d })

  -- `cmd_otp`, with what `button_wait` returns
  unfoldable pub cmd_otp : Bool → Apdu → OtpOf P → Sw × OtpOf P
  cmd_otp refused apdu s =
      if apdu.p1 == 0x01 || apdu.p1 == 0x03
      then configure P apdu s
      else if apdu.p1 == 0x04 || apdu.p1 == 0x05
      then update P apdu s
      else if apdu.p1 == 0x06
      then swap P apdu s
      else if apdu.p1 == 0x10
      then show (bit_and (get_or serial 0 0) 0x03 ∷ take 3 (drop 1 serial)) s
      else if apdu.p1 == 0x13
      then show (man_get_config P s.fs) s
      else if apdu.p1 == 0x14
      then otp_status_ext P s
      else if apdu.p1 == 0x30 || apdu.p1 == 0x38 || apdu.p1 == 0x20 || apdu.p1 == 0x28
      then calculate P refused apdu s
      else (ok_sw, s)

  abbrev where_supported : Result Bool → (OtpOf P → Sw × OtpOf P) → Exec (OtpOf P) Sw
  where_supported (ok true) run s = let (sw, t) = run s in (ok sw, t)
  where_supported (ok false) run s = (ok ins_not_supported, s)
  where_supported (err e) run s = (err e, s)
  where_supported fault run s = (fault, s)

  -- The table has one command.
  abbrev by_ins : Bool → Apdu → OtpOf P → Sw × OtpOf P
  by_ins refused apdu s =
      if apdu.ins == 0x01 then cmd_otp refused apdu s else (ins_not_supported, s)

  -- `otp_process_apdu`
  unfoldable pub process_apdu : Bool → Apdu → Exec (OtpOf P) Sw
  process_apdu refused apdu s =
      if not (apdu.cla == 0)
      then (ok cla_not_supported, s)
      else where_supported (cap_supported P Cap.otp s.fs) (by_ins refused apdu) s
