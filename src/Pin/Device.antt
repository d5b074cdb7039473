-- ===== src/Pin/Device.antt =====
-- The state that the PIN commands share, and the functions that change one part of it: the key of the
-- device (src/fido/fido.c), the tokens, and the key agreement (src/fido/cbor_client_pin.c).
use fido_touch.Prelude.{
  ℕ, Bool, not, ◌&&◌, ◌||◌, Option, none, some, List, [], ◌∷◌, length, take, drop, get_or, ltb,
  ◌==◌, if◌then◌else◌,
}
use fido_touch.Exec.{Exec, ok, err, fault, code, pure, ◌>>=◌, ◌>>◌}
use fido_touch.Platform.{Platform}
use fido_touch.Ctap.Ef
use fido_touch.Token.{Session, reset_token}
use fido_touch.Authorization.{invalidate}

pub record Device (F R K : Type 0) : Type 0 where
  pub fs : F
  pub rng : R
  -- `paut` and its timers, and the persistent token `ppaut`
  pub session : Session
  pub persistent_token : List ℕ
  pub persistent_permissions : ℕ
  -- `hkey`, if `hkey_init`
  pub hkey : Option K
  pub new_pin_mismatches : ℕ
  pub needs_power_cycle : Bool
  pub session_pin : List ℕ
  -- `keydev_dec`, if `has_keydev_dec`
  pub keydev_dec : Option (List ℕ)

-- `file_put_data` where its code is not read, then `flash_commit`
abbrev pub DeviceOf : Platform → Type 0
DeviceOf P = Device P.Fs P.Rng P.Keypair

module _ (P : Platform) where
  open P use {
    contents, put, commit, aes_decrypt, aes_encrypt, encrypt_with_aad, decrypt_with_aad,
    derive_kbase, serial_hash, otp_key_1, exec_error, memory_fatal, random, generate,
  }

  abbrev pub store : ℕ → List ℕ → DeviceOf P → DeviceOf P
  store fid bytes d = record d { fs = commit (put d.fs fid bytes).1 }

  -- The outcome of a cipher, whose own code is not passed on.
  abbrev filled : ℕ × List ℕ → Exec (DeviceOf P) (List ℕ)
  filled (ret, out) d = if ret == 0 then (ok out, d) else (err (code exec_error), d)

  -- Format 2 is rewritten in format 3 under the same session key.
  abbrev upgrade_keydev : ℕ → List ℕ → Exec (DeviceOf P) (Unit {0})
  upgrade_keydev format key d =
      if format == 2
      then (let (ret, out) = encrypt_with_aad d.session_pin 2 key in
          if ret == 0 then (ok tt, store Ef.key_dev (3 ∷ out) d) else (err (code exec_error), d))
      else (ok tt, d)

  -- The branches of `load_keydev` by the format of a record of 33 or 61 bytes. A record of 33 bytes
  -- in format 2 or 3 is read past its end.
  unfoldable pub load_format : List ℕ → List ℕ → Exec (DeviceOf P) (List ℕ)
  load_format key stored d =
      let format = get_or stored 0 0 in
      if format == 2 || format == 3
      then (if ltb (length stored) 61
          then (fault, d)
          else (do
            plain ← λ e.
                filled
                  (decrypt_with_aad e.session_pin (if format == 3 then 2 else 1)
                    (take 60 (drop 1 stored)))
                  e
            upgrade_keydev format plain
            filled (aes_decrypt derive_kbase serial_hash plain))
              d)
      else if format == 1
      then filled (aes_decrypt derive_kbase serial_hash (take 32 (drop 1 stored))) d
      else (ok key, d)

  -- A record of 32 bytes, perhaps under the key of the one-time programmable memory
  abbrev load_plain : List ℕ → Option (List ℕ) → Exec (DeviceOf P) (List ℕ)
  load_plain stored none = pure stored
  load_plain stored (some k) = filled (aes_decrypt k [] stored)

  -- `load_keydev`, with what the buffer held before: a record of another size leaves that.
  unfoldable pub load_keydev : List ℕ → Exec (DeviceOf P) (List ℕ)
  unfolding load_format
  load_keydev key d = elim d.keydev_dec [
    | some dec ↦ (ok dec, d)
    | none ↦
        let stored = contents d.fs Ef.key_dev in
        if length stored == 0
        then (err (code memory_fatal), d)
        else if length stored == 32
        then load_plain stored otp_key_1 d
        else if length stored == 33 || length stored == 61
        then load_format key stored d
        else (ok key, d)
  ]

  -- `encrypt_keydev_f1`: the record in format 1, or nothing if the cipher fails
  unfoldable pub encrypt_keydev_f1 : List ℕ → DeviceOf P → DeviceOf P
  encrypt_keydev_f1 key d =
      let (ret, out) = aes_encrypt derive_kbase serial_hash key in
      if ret == 0 then store Ef.key_dev (1 ∷ out) d else d

  -- `check_keydev_encrypted`: a record in format 1 is encrypted under the session key of the PIN. The
  -- code of the cipher is not read.
  unfoldable pub check_keydev_encrypted : List ℕ → DeviceOf P → DeviceOf P
  check_keydev_encrypted pin_token d =
      let stored = contents d.fs Ef.key_dev in
      if not (length stored == 0) && get_or stored 0 0 == 1
      then store Ef.key_dev (3 ∷ (encrypt_with_aad pin_token 2 (take 32 (drop 1 stored))).1) d
      else d

  -- `resetPinUvAuthToken`: new bytes in EF_AUTHTOKEN, and the token is what is there afterwards.
  unfoldable pub reset_auth_token : DeviceOf P → DeviceOf P
  reset_auth_token d =
      let (t, rng') = random 32 d.rng in
      let d' = store Ef.authtoken t (record d { rng = rng' }) in
      record d' { session = reset_token (contents d'.fs Ef.authtoken) d'.session }

  -- `resetPersistentPinUvAuthToken`
  unfoldable pub reset_persistent_token : DeviceOf P → DeviceOf P
  reset_persistent_token d =
      let (t, rng') = random 32 d.rng in
      let d' = store Ef.pauthtoken t (record d { rng = rng' }) in
      record d' {
        persistent_token = contents d'.fs Ef.pauthtoken;
        persistent_permissions = 0;
        session = record d'.session { epoch = invalidate d'.session.epoch };
      }

  -- `regenerate`: a failure leaves the key that was there.
  unfoldable pub regenerate : DeviceOf P → DeviceOf P
  regenerate d =
      let (key, rng') = generate d.rng in
      elim key [ none ↦ record d { rng = rng' } | some k ↦ record d { rng = rng'; hkey = some k } ]

  -- `initialize`, on the first PIN command
  unfoldable pub initialize : DeviceOf P → DeviceOf P
  unfolding regenerate reset_auth_token
  initialize d = elim d.hkey [ none ↦ reset_auth_token (regenerate d) | some _ ↦ d ]
