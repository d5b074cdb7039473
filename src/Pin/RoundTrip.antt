-- ===== src/Pin/RoundTrip.antt =====
-- The PIN that setPIN stores, and the PIN that a try accepts.
use fido_touch.Prelude.{
  ℕ, ◌%◌, ◌≡◌, refl, ap, ◌∙◌, Bool, true, false, some, List, ◌∷◌, length, take, replicate, get_or,
  set, arith, eq_bytes_refl, take-append, take_self,
}
use fido_touch.Exec.{ok}
use fido_touch.Platform.{Platform, success, sha256}
use fido_touch.Ctap.Ef
use fido_touch.Protocol.{decrypt}
use fido_touch.Pin.Device.{DeviceOf, store}
use fido_touch.Pin.Stored.{contents-store, contents-check_keydev}
use fido_touch.Pin.Policy.{codepoints}
use fido_touch.Pin.Attempt.{
  load_pin_data, persist_retries, spend_loaded, spend_retry, matches, compare_pin, try_pin, half_of,
}
use fido_touch.Pin.SetPin.{pin_record, adopt_pin}

module _ (P : Platform) where
  open P use {
    Fs, contents, put, commit_sync, digest, derive_verifier, derive_session, length-derive_verifier,
    contents-put, contents-commit_sync,
  }

  -- The first 16 bytes of the hash of a PIN
  abbrev pub pin_hash : List ℕ → List ℕ
  pin_hash pin = take 16 (digest sha256 pin)

  -- The record of a new PIN after one try
  abbrev pub spent : List ℕ → List ℕ
  spent pin = 7 ∷ (codepoints pin % 256 ∷ (1 ∷ derive_verifier (pin_hash pin)))

  contents-adopt_pin :
      (pin : List ℕ) (d : DeviceOf P)
      → (put d.fs Ef.pin (pin_record P pin)).0 ≡ success
      → contents (adopt_pin P pin d).fs Ef.pin ≡ pin_record P pin
  unfolding adopt_pin
  contents-adopt_pin pin d h =
      let d1 = store P Ef.pin (pin_record P pin) d in
      let s = derive_session (take 16 (digest sha256 pin)) in
      contents-check_keydev P s (record d1 { session_pin = s })
      ∙ contents-store P Ef.pin (pin_record P pin) d h

  length-pin_record : (pin : List ℕ) → length (pin_record P pin) ≡ 35
  unfolding pin_record
  length-pin_record pin = omega (arith, length-derive_verifier (pin_hash pin))

  load_pin_record : (pin : List ℕ) → load_pin_data (pin_record P pin) ≡ some (pin_record P pin, 35)
  unfolding load_pin_data
  load_pin_record pin = ground (
    arith,
    length-pin_record pin,
    take-append (pin_record P pin) (replicate 35 0) (length-pin_record pin),
  )

  spent_lem : (pin : List ℕ) → set (pin_record P pin) 0 7 ≡ spent pin
  unfolding pin_record
  spent_lem pin = refl

  retries_lem : (pin : List ℕ) → get_or (pin_record P pin) 0 0 ≡ 8
  unfolding pin_record
  retries_lem pin = refl

  persist_spent :
      (pin : List ℕ) (d : DeviceOf P)
      → ((s : Fs) (b : List ℕ) → (put s Ef.pin b).0 ≡ success)
      → ((s : Fs) → (commit_sync s).0 ≡ true)
      → (persist_retries P (spent pin) 35 d).0 ≡ true
  unfolding persist_retries
  persist_spent pin d hp hc =
      let h35 : length (spent pin) ≡ 35 = omega (arith, length-derive_verifier (pin_hash pin)) in
      let s1 = (put d.fs Ef.pin (spent pin)).1 in
      ground (
        arith,
        take_self (spent pin) h35,
        hp d.fs (spent pin),
        hc s1,
        contents-commit_sync s1 Ef.pin,
        contents-put d.fs Ef.pin (spent pin),
        h35,
      )

  spend_record :
      (pin : List ℕ) (d : DeviceOf P)
      → ((s : Fs) (b : List ℕ) → (put s Ef.pin b).0 ≡ success)
      → ((s : Fs) → (commit_sync s).0 ≡ true)
      → (spend_loaded P (some (pin_record P pin, 35)) d).0 ≡ ok (spent pin, 35)
  unfolding spend_loaded
  spend_record pin d hp hc = rw (retries_lem pin, spent_lem pin, persist_spent pin d hp hc)

  spend_new :
      (pin : List ℕ) (d : DeviceOf P)
      → ((s : Fs) (b : List ℕ) → (put s Ef.pin b).0 ≡ success)
      → ((s : Fs) → (commit_sync s).0 ≡ true)
      → contents d.fs Ef.pin ≡ pin_record P pin
      → (spend_retry P d).0 ≡ ok (spent pin, 35)
  unfolding spend_retry
  spend_new pin d hp hc h =
      ap (λ o. (spend_loaded P o d).0) (ap load_pin_data h ∙ load_pin_record pin)
      ∙ spend_record pin d hp hc

  matches_new : (pin : List ℕ) → matches P (pin_hash pin) (spent pin) 35 ≡ true
  unfolding matches
  matches_new pin = eq_bytes_refl (take 32 (derive_verifier (pin_hash pin)))

  compare_new :
      (pin : List ℕ) (d : DeviceOf P)
      → (compare_pin P (pin_hash pin) (spent pin) 35 d).0
        ≡ ok (record { hash = pin_hash pin; pin_data = spent pin; legacy = false })
  unfolding compare_pin
  compare_new pin d = rw (matches_new pin)

  -- With a flash that stores what it is given, the PIN that setPIN has stored is accepted: a try whose
  -- `pinHashEnc` decrypts to the first half of its SHA-256 answers that the PIN is right.
  pub set_pin-try_pin :
      (pin : List ℕ) (room : ℕ) (cleared : Bool) (protocol : ℕ) (key enc : List ℕ) (d : DeviceOf P)
      → ((s : Fs) (b : List ℕ) → (put s Ef.pin b).0 ≡ success)
      → ((s : Fs) → (commit_sync s).0 ≡ true)
      → half_of P cleared (decrypt P protocol key enc room) ≡ ok (pin_hash pin)
      → (try_pin P room cleared protocol key enc (adopt_pin P pin d)).0
        ≡ ok (record { hash = pin_hash pin; pin_data = spent pin; legacy = false })
  unfolding try_pin
  set_pin-try_pin pin room cleared protocol key enc d hp hc hd =
      let d1 = adopt_pin P pin d in
      ground (
        arith,
        spend_new pin d1 hp hc (contents-adopt_pin pin d (hp d.fs (pin_record P pin))),
        hd,
        compare_new pin (spend_retry P d1).1,
      )
