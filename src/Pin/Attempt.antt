-- ===== src/Pin/Attempt.antt =====
-- A try of the PIN: what changePIN and getPinUvAuthToken do with `pinHashEnc`, which their texts
-- repeat. The retry is counted in the flash before the PIN is looked at.
use fido_touch.Prelude.{
  ℕ, ◌+◌, ◌%◌, Bool, true, false, not, ◌&&◌, Option, none, some, List, ◌∷◌, ◌++◌, length, take,
  drop, get_or, set, replicate, ltb, leb, ◌==◌, eq_bytes, if◌then◌else◌,
}
use fido_touch.Exec.{Exec, Result, ok, err, fault, code, pure, raise, lift, ◌>>=◌}
use fido_touch.Platform.{Platform, is_success}
use fido_touch.Ctap.Err
use fido_touch.Ctap.Ef
use fido_touch.Protocol.{decrypt}
use fido_touch.Pin.Device.{DeviceOf, load_keydev, encrypt_keydev_f1, regenerate}

abbrev pub pin_legacy_data_len : ℕ
pin_legacy_data_len = 34

abbrev pub pin_data_len : ℕ
pin_data_len = 35

abbrev pub max_pin_retries : ℕ
max_pin_retries = 8

-- `--` on a uint8_t
abbrev pub decrement : ℕ → ℕ
decrement n = (n + 255) % 256

-- `pin_data`, always of 35 bytes, and how many of them are of the record
unfoldable pub load_pin_data : List ℕ → Option (List ℕ × ℕ)
load_pin_data stored =
    if not (length stored == pin_legacy_data_len) && not (length stored == pin_data_len)
    then none
    else some (take pin_data_len (stored ++ replicate pin_data_len 0), length stored)

-- The PIN is right: the 16 bytes of its hash, `pin_data`, and whether the record has the old format.
pub record Verified : Type 0 where
  pub hash : List ℕ
  pub pin_data : List ℕ
  pub legacy : Bool

module _ (P : Platform) where
  open P use {Fs, contents, put, commit_sync, derive_verifier, double_hash, hash_multi}

  -- The tests of `persist_pin_retry_counter` on the flash once it is written.
  abbrev persisted : List ℕ → ℕ → Bool × Fs → Bool
  persisted pin_data len (done, fs) =
      let stored = contents fs Ef.pin in
      done && length stored == len && get_or stored 0 0 == get_or pin_data 0 0

  -- `persist_pin_retry_counter`
  unfoldable pub persist_retries : List ℕ → ℕ → DeviceOf P → Bool × DeviceOf P
  persist_retries pin_data len d =
      let (ret, fs1) = put d.fs Ef.pin (take len pin_data) in
      if is_success ret
      then (persisted pin_data len (commit_sync fs1), record d { fs = (commit_sync fs1).1 })
      else (false, record d { fs = fs1 })

  unfoldable pub spend_loaded : Option (List ℕ × ℕ) → Exec (DeviceOf P) (List ℕ × ℕ)
  unfolding persist_retries
  spend_loaded none d = raise Err.processing d
  spend_loaded (some (stored, len)) d =
      let pin_data = set stored 0 (decrement (get_or stored 0 0)) in
      let (done, d') = persist_retries pin_data len d in
      if done then (ok (pin_data, len), d') else raise Err.processing d'

  -- One retry less, which must be in the flash before the PIN is compared.
  unfoldable pub spend_retry : Exec (DeviceOf P) (List ℕ × ℕ)
  unfolding load_pin_data spend_loaded
  spend_retry d = spend_loaded (load_pin_data (contents d.fs Ef.pin)) d

  -- The first 16 bytes of the buffer after decryption, which was cleared or not.
  abbrev pub first_half : Bool → ℕ × List ℕ → Result (List ℕ)
  first_half cleared (ret, out) =
      if not (ret == 0)
      then err (code Err.pin_auth_invalid)
      else if cleared
      then ok (take 16 (out ++ replicate 16 0))
      else if ltb (length out) 16
      then fault
      else ok (take 16 out)

  abbrev pub half_of : Bool → Result (ℕ × List ℕ) → Result (List ℕ)
  half_of cleared (ok out) = first_half cleared out
  half_of cleared (err e) = err e
  half_of cleared fault = fault

  -- The answer to a wrong PIN.
  unfoldable pub wrong_pin : ℕ → {A : Type 0} → Exec (DeviceOf P) A
  wrong_pin retries d =
      let d' = regenerate P d in
      let mismatches = (d'.new_pin_mismatches + 1) % 256 in
      if retries == 0
      then raise Err.pin_blocked d'
      else if leb 3 mismatches
      then raise Err.pin_auth_blocked
          (record d' { new_pin_mismatches = mismatches; needs_power_cycle = true })
      else raise Err.pin_invalid (record d' { new_pin_mismatches = mismatches })

  -- The test of the hash against the record.
  unfoldable pub matches : List ℕ → List ℕ → ℕ → Bool
  matches hash pin_data len =
      if len == pin_legacy_data_len
      then eq_bytes (take 32 (double_hash hash)) (take 32 (drop 2 pin_data))
      else eq_bytes (take 32 (derive_verifier hash)) (take 32 (drop 3 pin_data))

  unfoldable pub compare_pin : List ℕ → List ℕ → ℕ → Exec (DeviceOf P) Verified
  compare_pin hash pin_data len =
      if matches hash pin_data len
      then pure (record { hash = hash; pin_data = pin_data; legacy = len == pin_legacy_data_len })
      else wrong_pin (get_or pin_data 0 0)

  -- The whole try. `room` is the size of the buffer for the hash, and `cleared` says that it was.
  unfoldable pub try_pin : ℕ → Bool → ℕ → List ℕ → List ℕ → Exec (DeviceOf P) Verified
  unfolding spend_retry compare_pin
  try_pin room cleared protocol key pin_hash_enc = do
    (pin_data, len) ← spend_retry
    hash ← lift (half_of cleared (decrypt P protocol key pin_hash_enc room))
    compare_pin hash pin_data len

  -- An error of `load_keydev` is reported as a wrong PIN.
  abbrev pub as_pin_invalid : {A : Type 0} → Result A → Result A
  as_pin_invalid (err e) = err (code Err.pin_invalid)
  as_pin_invalid (ok a) = ok a
  as_pin_invalid fault = fault

  unfoldable pub load_keydev_or_invalid : List ℕ → Exec (DeviceOf P) (List ℕ)
  load_keydev_or_invalid keydev d = let (r, d') = load_keydev P keydev d in (as_pin_invalid r, d')

  -- A record of the old format is brought to the new one, and the key of the device out of its old
  -- encryption: what `pin_data` and `keydev` are then.
  unfoldable pub upgrade_pin : Verified → Exec (DeviceOf P) (List ℕ × List ℕ)
  unfolding load_keydev_or_invalid
  upgrade_pin v d =
      if v.legacy
      then (do
        keydev ← load_keydev_or_invalid (replicate 32 0)
        λ e. (
          ok (take 2 v.pin_data ++ (1 ∷ derive_verifier v.hash), keydev),
          encrypt_keydev_f1 P keydev e,
        ))
          (record d { session_pin = hash_multi v.hash })
      else (ok (v.pin_data, replicate 32 0), d)
