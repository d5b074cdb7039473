-- ===== src/Otp/Switch.antt =====
-- What the stored configuration switches off.
use fido_touch.Prelude.{ℕ, ◌≡◌, ◌≢◌, refl, ap, ◌∙◌, Bool, false, List, ◌∷◌, length, arith}
use fido_touch.Exec.{ok}
use fido_touch.Platform.{Platform, success}
use fido_touch.Ctap.Ef
use fido_touch.Management.Cap
use fido_touch.Management.{
  Manager, cap_supported, find_enabled, cmd_write_config, cmd_write_config-man_get_config,
}
use fido_touch.Otp.{OtpOf, Apdu, ins_not_supported}
use fido_touch.Otp.Command.{process_apdu}

module _ (P : Platform) where
  open P use {Fs, put, walk}

  -- Once a configuration has been written that switches OTP off, every command of the application is
  -- refused and changes nothing, and the keyboard is no longer among the interfaces.
  pub process_apdu-cmd_write_config :
      (present : Bool) (n : ℕ) (config : List ℕ) (m : Manager Fs) (refused : Bool) (apdu : Apdu)
      (s : OtpOf P)
      → ((f : Fs) → (put f Ef.dev_conf config).0 ≡ success)
      → length config ≢ 0
      → find_enabled P Cap.otp (walk config) ≡ ok false
      → (cmd_write_config P present (n ∷ config) m).0 ≡ ok fido_touch.Management.ok_sw
      → s.fs ≡ (cmd_write_config P present (n ∷ config) m).1.fs
      → apdu.cla ≡ 0
      → (process_apdu P refused apdu s ≡ (ok ins_not_supported, s))
        × ((cmd_write_config P present (n ∷ config) m).1.keyboard ≡ false)
  unfolding process_apdu
  process_apdu-cmd_write_config present n config m refused apdu s hp ne off done same cla =
      let laws = cmd_write_config-man_get_config P present n config m hp ne done in
      let disabled = laws.2 Cap.otp ∙ off in
      let here : cap_supported P Cap.otp s.fs ≡ ok false =
        ap (cap_supported P Cap.otp) same ∙ disabled in
      (rw (cla, here) refl, ground (arith, laws.3, disabled))
