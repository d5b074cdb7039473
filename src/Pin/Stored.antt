-- ===== src/Pin/Stored.antt =====
-- What the functions of Pin/Device leave in the files.
use fido_touch.Prelude.{ℕ, ◌≡◌, ◌≢◌, ◌∙◌, List, ◌∷◌, take, drop, arith}
use fido_touch.Platform.{Platform, success}
use fido_touch.Ctap.Ef
use fido_touch.Pin.Device.{
  DeviceOf, store, reset_auth_token, reset_persistent_token, regenerate, initialize,
  check_keydev_encrypted, encrypt_keydev_f1,
}

module _ (P : Platform) where
  open P use {
    Fs, contents, put, commit, contents-commit, contents-put, contents-put_ne, random, generate,
    derive_kbase, serial_hash, aes_encrypt,
  }

  pub contents-store_ne :
      (k j : ℕ) (b : List ℕ) (d : DeviceOf P)
      → k ≢ j
      → contents (store P k b d).fs j ≡ contents d.fs j
  contents-store_ne k j b d h = contents-commit (put d.fs k b).1 j ∙ contents-put_ne d.fs k j b h

  pub contents-store :
      (k : ℕ) (b : List ℕ) (d : DeviceOf P)
      → (put d.fs k b).0 ≡ success
      → contents (store P k b d).fs k ≡ b
  contents-store k b d h = contents-commit (put d.fs k b).1 k ∙ contents-put d.fs k b h

  contents-reset_auth_token :
      (d : DeviceOf P) → contents (reset_auth_token P d).fs Ef.pin ≡ contents d.fs Ef.pin
  unfolding reset_auth_token
  contents-reset_auth_token d =
      contents-store_ne Ef.authtoken Ef.pin (random 32 d.rng).0
        (record d { rng = (random 32 d.rng).1 }) (omega arith)

  contents-reset_persistent_token :
      (d : DeviceOf P) → contents (reset_persistent_token P d).fs Ef.pin ≡ contents d.fs Ef.pin
  unfolding reset_persistent_token
  contents-reset_persistent_token d =
      contents-store_ne Ef.pauthtoken Ef.pin (random 32 d.rng).0
        (record d { rng = (random 32 d.rng).1 }) (omega arith)

  pub regenerate_same :
      (d : DeviceOf P)
      → ((regenerate P d).fs ≡ d.fs)
        × ((regenerate P d).needs_power_cycle ≡ d.needs_power_cycle)
        × ((regenerate P d).new_pin_mismatches ≡ d.new_pin_mismatches)
        × ((regenerate P d).session ≡ d.session)
  unfolding regenerate
  regenerate_same d = ground arith

  -- The first command makes a key and a token, and leaves the PIN as it is.
  pub contents-initialize :
      (d : DeviceOf P) → contents (initialize P d).fs Ef.pin ≡ contents d.fs Ef.pin
  unfolding initialize
  contents-initialize d =
      ground (arith, contents-reset_auth_token (regenerate P d), regenerate_same d)

  pub needs_power_cycle-initialize :
      (d : DeviceOf P) → (initialize P d).needs_power_cycle ≡ d.needs_power_cycle
  unfolding initialize regenerate reset_auth_token
  needs_power_cycle-initialize d = ground arith

  pub contents-check_keydev :
      (s : List ℕ) (d : DeviceOf P)
      → contents (check_keydev_encrypted P s d).fs Ef.pin ≡ contents d.fs Ef.pin
  unfolding check_keydev_encrypted
  contents-check_keydev s d = ground (
    arith,
    contents-store_ne Ef.key_dev Ef.pin
        (3 ∷ (P.encrypt_with_aad s 2 (take 32 (drop 1 (contents d.fs Ef.key_dev)))).1) d,
  )

  pub contents-encrypt_keydev :
      (key : List ℕ) (d : DeviceOf P)
      → contents (encrypt_keydev_f1 P key d).fs Ef.pin ≡ contents d.fs Ef.pin
  unfolding encrypt_keydev_f1
  contents-encrypt_keydev key d = ground (
    arith,
    contents-store_ne Ef.key_dev Ef.pin (1 ∷ (aes_encrypt derive_kbase serial_hash key).1) d,
  )
