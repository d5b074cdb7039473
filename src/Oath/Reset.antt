-- ===== src/Oath/Reset.antt =====
-- RESET of the OATH application.
pub mod Laws
use fido_touch.Prelude.{
  ℕ, zero, suc, ◌+◌, Bool, true, false, not, ◌&&◌, length, ◌==◌, if◌then◌else◌,
}
use fido_touch.Exec.{Exec, ok}
use fido_touch.Platform.{Platform}
use fido_touch.Ctap.Ef
use fido_touch.Oath.{Sw, ok_sw, incorrect_p1p2, Apdu, Oath, OathOf}
use fido_touch.Oath.Credentials.{max_oath_cred}

module _ (P : Platform) where
  open P use {Fs, contents, delete, commit}

  -- The files with data among the `n` from `fid` on are deleted.
  unfoldable pub wipe : ℕ → ℕ → Fs → Fs
  wipe zero fid fs = fs
  wipe (suc n) fid fs =
      wipe n (fid + 1) (if length (contents fs fid) == 0 then fs else delete fs fid)

  -- `cmd_reset`, in any state of `validated`
  unfoldable pub cmd_reset : Apdu → Exec (OathOf P) Sw
  cmd_reset apdu s =
      if apdu.p1 == 0xde && apdu.p2 == 0xad
      then (
        ok ok_sw,
        record s {
          fs =
              commit
                (delete (delete (wipe max_oath_cred Ef.oath_cred s.fs) Ef.oath_code) Ef.otp_pin);
          validated = true;
        },
      )
      else (ok incorrect_p1p2, s)
