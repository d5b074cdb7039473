-- ===== src/Pin/SetPin.antt =====
-- setPIN, subcommand 3 of `cbor_client_pin`.
use fido_touch.Prelude.{ℕ, ◌%◌, false, not, ◌&&◌, none, some, List, [], ◌∷◌, length, take, ◌==◌}
use fido_touch.Exec.{Exec, ok, raise, fail_if, ◌>>=◌, ◌>>◌}
use fido_touch.Platform.{Platform, sha256}
use fido_touch.Ctap.Err
use fido_touch.Ctap.Ef
use fido_touch.Pin.Device.{DeviceOf, store, check_keydev_encrypted}
use fido_touch.Pin.Policy.{codepoints}
use fido_touch.Pin.Request.{Request, needed, both}
use fido_touch.Pin.Attempt.{max_pin_retries}
use fido_touch.Pin.NewPin.{
  cut16, bad_new_pin_enc, read_point, shared_secret, check_signature, receive_pin,
}

module _ (P : Platform) where
  open P use {contents, digest, derive_verifier, derive_session}

  -- The record of a PIN: retries, characters, format, and what a try is compared with
  unfoldable pub pin_record : List ℕ → List ℕ
  pin_record pin =
      max_pin_retries ∷ (codepoints pin % 256 ∷ (1 ∷ derive_verifier (take 16 (digest sha256 pin))))

  -- The record is stored before the key of the device is encrypted under the PIN.
  unfoldable pub adopt_pin : List ℕ → DeviceOf P → DeviceOf P
  unfolding pin_record
  adopt_pin pin d =
      let d1 = store P Ef.pin (pin_record pin) d in
      let s = derive_session (take 16 (digest sha256 pin)) in
      let d2 = check_keydev_encrypted P s (record d1 { session_pin = s }) in
      record d2 { new_pin_mismatches = 0; needs_power_cycle = false }

  -- setPIN, once its parameters are there
  unfoldable pub set_pin_with : ℕ → List ℕ → List ℕ → List ℕ → List ℕ → Exec (DeviceOf P) (List ℕ)
  unfolding adopt_pin
  set_pin_with protocol x y enc sign d =
      (do
        fail_if (not (protocol == 1) && not (protocol == 2)) Err.invalid_parameter
        fail_if (not (length (contents d.fs Ef.pin) == 0)) Err.not_allowed
        fail_if (bad_new_pin_enc protocol enc) Err.invalid_parameter
        read_point P x y
        key ← shared_secret P protocol x y
        check_signature P protocol key (cut16 enc) sign
        pin ← receive_pin P protocol key enc
        λ e. (ok [], adopt_pin pin e))
        d

  unfoldable pub set_pin : Request → Exec (DeviceOf P) (List ℕ)
  unfolding set_pin_with
  set_pin q = elim (needed q (both q.new_pin_enc q.auth_param)) [
    | none ↦ raise Err.missing_parameter
    | some (x, (y, (enc, sign))) ↦ set_pin_with q.protocol x y enc sign
  ]
