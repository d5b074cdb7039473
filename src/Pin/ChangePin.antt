-- ===== src/Pin/ChangePin.antt =====
-- changePIN, subcommand 4 of `cbor_client_pin`.
use fido_touch.Prelude.{
  ℕ, ◌+◌, Bool, true, false, not, ◌&&◌, ◌||◌, none, some, List, [], ◌++◌, length, take, drop,
  get_or, set, ltb, ◌==◌, if◌then◌else◌,
}
use fido_touch.Exec.{Exec, Result, ok, err, fault, pure, raise, lift, fail_if, ◌>>=◌, ◌>>◌}
use fido_touch.Platform.{Platform, sha256}
use fido_touch.Ctap.Err
use fido_touch.Ctap.Ef
use fido_touch.Protocol.{iv_size, compare_bytes}
use fido_touch.Pin.Device.{
  DeviceOf, store, check_keydev_encrypted, encrypt_keydev_f1, reset_auth_token,
  reset_persistent_token,
}
use fido_touch.Pin.Request.{Request, needed, both}
use fido_touch.Pin.Attempt.{max_pin_retries, Verified, try_pin, upgrade_pin, load_keydev_or_invalid}
use fido_touch.Pin.NewPin.{
  bad_new_pin_enc, force_change, read_point, shared_secret, check_signature, receive_pin,
}
use fido_touch.Pin.SetPin.{pin_record}

-- The test of the length of `pinHashEnc`
unfoldable pub bad_pin_hash_enc : ℕ → List ℕ → Bool
bad_pin_hash_enc protocol enc =
    (protocol == 1 && not (length enc == 16)) || (protocol == 2 && not (length enc == 16 + iv_size))

module _ (P : Platform) where
  open P use {Fs, contents, put, commit, digest, derive_session}

  -- The old PIN is right: the retries are stored anew, and the key of the device encrypted under it.
  -- What it gives is `keydev`.
  unfoldable pub settle_old : Verified → Exec (DeviceOf P) (List ℕ)
  settle_old v = do
    (pin_data, keydev) ← upgrade_pin P v
    λ e.
        let s = derive_session v.hash in
        let e1 = store P Ef.pin (set pin_data 0 max_pin_retries) (record e { session_pin = s }) in
        let e2 = check_keydev_encrypted P s e1 in (ok keydev, record e2 { new_pin_mismatches = 0 })

  -- The key of the device is encrypted under the new PIN.
  unfoldable pub rekey : List ℕ → List ℕ → Exec (DeviceOf P) (Unit {0})
  rekey keydev pin = do
    key ← load_keydev_or_invalid P keydev
    λ e.
        let s = derive_session (take 16 (digest sha256 pin)) in
        let e1 = encrypt_keydev_f1 P key e in
        let e2 = check_keydev_encrypted P s (record e1 { session_pin = s }) in
        (ok tt, record e2 { fs = commit e2.fs })

  abbrev same_pin : Result ℕ → Result Bool
  same_pin (ok r) = ok (r == 0)
  same_pin (err e) = err e
  same_pin fault = fault

  -- Where a change is demanded, the new PIN must be another one.
  unfoldable pub check_change : Bool → List ℕ → Exec (DeviceOf P) (Unit {0})
  check_change false pin = pure tt
  check_change true pin = λ d.
      (do
        same ← lift (
            same_pin (compare_bytes 32 (drop 3 (pin_record P pin)) (drop 3 (contents d.fs Ef.pin))))
        fail_if same Err.pin_policy_violation)
        d

  -- Byte 1 of EF_MINPINLEN, which demands the change, is cleared.
  abbrev change_made : Bool → DeviceOf P → DeviceOf P
  change_made false d = d
  change_made true d = record d {
    fs = (put d.fs Ef.minpinlen (set (contents d.fs Ef.minpinlen) 1 0)).1;
  }

  -- The end of changePIN: the new record, and new tokens.
  unfoldable pub adopt_new : List ℕ → Bool → DeviceOf P → DeviceOf P
  adopt_new pin forced d =
      let d1 = change_made forced (record d { fs = (put d.fs Ef.pin (pin_record P pin)).1 }) in
      let d2 = reset_auth_token P (record d1 { fs = commit d1.fs }) in
      record (reset_persistent_token P d2) { needs_power_cycle = false }

  unfoldable pub replace_pin : List ℕ → List ℕ → Exec (DeviceOf P) (List ℕ)
  unfolding rekey check_change
  replace_pin keydev pin = do
    rekey keydev pin
    λ e.
        (do
          forced ← lift (force_change (contents e.fs Ef.minpinlen))
          check_change forced pin
          λ f. (ok [], adopt_new pin forced f))
          e

  -- The guards of changePIN, once its parameters are there
  unfoldable pub change_guards :
      ℕ → List ℕ → List ℕ → List ℕ → List ℕ → List ℕ → Exec (DeviceOf P) (List ℕ)
  change_guards protocol x y enc hash_enc sign d =
      let stored = contents d.fs Ef.pin in
      (do
        fail_if (not (protocol == 1) && not (protocol == 2)) Err.invalid_parameter
        fail_if (length stored == 0) Err.pin_not_set
        fail_if (get_or stored 0 0 == 0) Err.pin_blocked
        fail_if (bad_new_pin_enc protocol enc || bad_pin_hash_enc protocol hash_enc)
            Err.invalid_parameter
        fail_if (ltb (if protocol == 1 then 256 else 256 + iv_size) (length enc))
            Err.invalid_parameter
        read_point P x y
        fail_if d.needs_power_cycle Err.pin_auth_blocked
        key ← shared_secret P protocol x y
        check_signature P protocol key (enc ++ hash_enc) sign
        pure key)
        d

  unfoldable pub change_pin_with :
      ℕ → List ℕ → List ℕ → List ℕ → List ℕ → List ℕ → Exec (DeviceOf P) (List ℕ)
  unfolding change_guards settle_old
  change_pin_with protocol x y enc hash_enc sign = do
    key ← change_guards protocol x y enc hash_enc sign
    v ← try_pin P (256 + iv_size) true protocol key hash_enc
    keydev ← settle_old v
    pin ← receive_pin P protocol key enc
    replace_pin keydev pin

  unfoldable pub change_pin : Request → Exec (DeviceOf P) (List ℕ)
  unfolding change_pin_with
  change_pin q = elim (needed q (both q.new_pin_enc (both q.auth_param q.pin_hash_enc))) [
    | none ↦ raise Err.missing_parameter
    | some (x, (y, (enc, (sign, hash_enc)))) ↦ change_pin_with q.protocol x y enc hash_enc sign
  ]
