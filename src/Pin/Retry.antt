-- ===== src/Pin/Retry.antt =====
-- The retry counter of the PIN: what a try has stored before it gives any answer.
use fido_touch.Prelude.{
  ℕ, ◌+◌, ◌≤◌, ◌<◌, ◌≡◌, ◌≢◌, refl, ◌⊎◌, Bool, true, Option, none, some, List, [], ◌∷◌, length,
  get_or, set, arith,
}
use fido_touch.Exec.{Result, ok, err, fault, code}
use fido_touch.Platform.{Platform}
use fido_touch.Ctap.Err
use fido_touch.Ctap.Ef
use fido_touch.Protocol.{decrypt}
use fido_touch.Pin.Device.{DeviceOf}
use fido_touch.Pin.Stored.{regenerate_same}
use fido_touch.Pin.Attempt.{
  decrement, load_pin_data, persist_retries, spend_retry, wrong_pin, compare_pin, try_pin, half_of,
}
use fido_touch.Pin.Lock.{IsLocked}

-- The first byte of the record is that of `pin_data`, and the record is not empty.
load_pin_data_lem :
    (stored pd : List ℕ) (len : ℕ)
    → load_pin_data stored ≡ some (pd, len)
    → (get_or pd 0 0 ≡ get_or stored 0 0)
      × (len ≡ length stored)
      × (length stored ≢ 0)
      × ((v : ℕ) → get_or (set pd 0 v) 0 0 ≡ v)
unfolding load_pin_data
load_pin_data_lem [] pd len h = ground arith
load_pin_data_lem (x ∷ stored) pd len h = ground arith

module _ (P : Platform) where
  open P use {Fs, contents, put, commit_sync}

  persist_retries_lem :
      (pd : List ℕ) (len : ℕ) (d : DeviceOf P)
      → (persist_retries P pd len d).0 ≡ true
      → (get_or (contents (persist_retries P pd len d).1.fs Ef.pin) 0 0 ≡ get_or pd 0 0)
        × (length (contents (persist_retries P pd len d).1.fs Ef.pin) ≡ len)
  unfolding persist_retries
  persist_retries_lem pd len d h = ground arith

  -- What is in the flash once the retry is spent.
  pub spend_retry_lem :
      (d : DeviceOf P)
      → (spend_retry P d).0 ≢ err (code Err.processing)
      → (get_or (contents (spend_retry P d).1.fs Ef.pin) 0 0
          ≡ decrement (get_or (contents d.fs Ef.pin) 0 0))
        × (length (contents (spend_retry P d).1.fs Ef.pin) ≡ length (contents d.fs Ef.pin))
        × (length (contents d.fs Ef.pin) ≢ 0)
  unfolding spend_retry
  spend_retry_lem d h = by_load (load_pin_data (contents d.fs Ef.pin)) refl
    where
      by_load :
          (o : Option (List ℕ × ℕ))
          → load_pin_data (contents d.fs Ef.pin) ≡ o
          → (get_or (contents (spend_retry P d).1.fs Ef.pin) 0 0
              ≡ decrement (get_or (contents d.fs Ef.pin) 0 0))
            × (length (contents (spend_retry P d).1.fs Ef.pin) ≡ length (contents d.fs Ef.pin))
            × (length (contents d.fs Ef.pin) ≢ 0)
      by_load none e = ground arith
      by_load (some (pd, len)) e =
          let l = load_pin_data_lem (contents d.fs Ef.pin) pd len e in
          let v = decrement (get_or pd 0 0) in
          ground (arith, l.0, l.1, l.2, l.3 v, persist_retries_lem (set pd 0 v) len d)

  -- A comparison writes no file, and an answer that the PIN is blocked is true.
  compare_pin_lem :
      (hash pd : List ℕ) (len : ℕ) (d : DeviceOf P)
      → ((compare_pin P hash pd len d).1.fs ≡ d.fs)
        × ((compare_pin P hash pd len d).0 ≡ err (code Err.pin_blocked) → get_or pd 0 0 ≡ 0)
        × ((compare_pin P hash pd len d).0 ≡ err (code Err.pin_auth_blocked)
            → (compare_pin P hash pd len d).1.needs_power_cycle ≡ true)
  unfolding compare_pin wrong_pin
  compare_pin_lem hash pd len d = ground (arith, regenerate_same P d)

  try_pin_fs :
      (room : ℕ) (cleared : Bool) (protocol : ℕ) (key enc : List ℕ) (d : DeviceOf P)
      → (try_pin P room cleared protocol key enc d).1.fs ≡ (spend_retry P d).1.fs
  unfolding try_pin
  try_pin_fs room cleared protocol key enc d =
      by_spent (spend_retry P d).0 refl (half_of P cleared (decrypt P protocol key enc room)) refl
    where
      by_spent :
          (r : Result (List ℕ × ℕ))
          → (spend_retry P d).0 ≡ r
          → (h : Result (List ℕ)) → half_of P cleared (decrypt P protocol key enc room) ≡ h
          → (try_pin P room cleared protocol key enc d).1.fs ≡ (spend_retry P d).1.fs
      by_spent (ok (pd, len)) e (ok hash) eh =
          ground (arith, compare_pin_lem hash pd len (spend_retry P d).1)
      by_spent (ok (pd, len)) e (err c) eh = ground arith
      by_spent (ok (pd, len)) e fault eh = ground arith
      by_spent (err c) e h eh = ground arith
      by_spent fault e h eh = ground arith

  try_pin-processing :
      (room : ℕ) (cleared : Bool) (protocol : ℕ) (key enc : List ℕ) (d : DeviceOf P)
      → (spend_retry P d).0 ≡ err (code Err.processing)
      → (try_pin P room cleared protocol key enc d).0 ≡ err (code Err.processing)
  unfolding try_pin
  try_pin-processing room cleared protocol key enc d h = ground arith

  -- A try of the PIN that is not refused as a failure of the flash has taken one retry from the record
  -- in the flash, whatever else it answers, and a right PIN is no exception.
  pub try_pin_spends :
      (room : ℕ) (cleared : Bool) (protocol : ℕ) (key enc : List ℕ) (d : DeviceOf P)
      → 1 ≤ get_or (contents d.fs Ef.pin) 0 0
      → get_or (contents d.fs Ef.pin) 0 0 < 256
      → (try_pin P room cleared protocol key enc d).0 ≢ err (code Err.processing)
      → get_or (contents (try_pin P room cleared protocol key enc d).1.fs Ef.pin) 0 0 + 1
        ≡ get_or (contents d.fs Ef.pin) 0 0
  try_pin_spends room cleared protocol key enc d least most h = ground (
    arith,
    try_pin_fs room cleared protocol key enc d,
    spend_retry_lem d,
    try_pin-processing room cleared protocol key enc d,
  )

  spend_retry-ne-blocked :
      (d : DeviceOf P)
      → ((spend_retry P d).0 ≢ err (code Err.pin_blocked))
        × ((spend_retry P d).0 ≢ err (code Err.pin_auth_blocked))
  unfolding spend_retry
  spend_retry-ne-blocked d = by_load (load_pin_data (contents d.fs Ef.pin)) refl
    where
      by_load :
          (o : Option (List ℕ × ℕ))
          → load_pin_data (contents d.fs Ef.pin) ≡ o
          → ((spend_retry P d).0 ≢ err (code Err.pin_blocked))
            × ((spend_retry P d).0 ≢ err (code Err.pin_auth_blocked))
      by_load none e = ground arith
      by_load (some (pd, len)) e = ground arith

  half_of-ne-blocked :
      (cleared : Bool) (protocol : ℕ) (key enc : List ℕ) (room : ℕ)
      → (half_of P cleared (decrypt P protocol key enc room) ≢ err (code Err.pin_blocked))
        × (half_of P cleared (decrypt P protocol key enc room) ≢ err (code Err.pin_auth_blocked))
  unfolding decrypt
  half_of-ne-blocked cleared protocol key enc room = ground arith

  spend_retry-ok :
      (d : DeviceOf P) (pd : List ℕ) (len : ℕ)
      → (spend_retry P d).0 ≡ ok (pd, len)
      → get_or (contents (spend_retry P d).1.fs Ef.pin) 0 0 ≡ get_or pd 0 0
  unfolding spend_retry
  spend_retry-ok d pd len h = by_load (load_pin_data (contents d.fs Ef.pin)) refl
    where
      by_load :
          (o : Option (List ℕ × ℕ))
          → load_pin_data (contents d.fs Ef.pin) ≡ o
          → get_or (contents (spend_retry P d).1.fs Ef.pin) 0 0 ≡ get_or pd 0 0
      by_load none e = ground arith
      by_load (some (stored, n)) e =
          ground (arith, persist_retries_lem (set stored 0 (decrement (get_or stored 0 0))) n d)

  -- A try that is answered with PIN_BLOCKED or PIN_AUTH_BLOCKED leaves the device locked.
  pub try_pin-IsLocked :
      (room : ℕ) (cleared : Bool) (protocol : ℕ) (key enc : List ℕ) (d : DeviceOf P)
      → ((try_pin P room cleared protocol key enc d).0 ≡ err (code Err.pin_blocked))
        ⊎ ((try_pin P room cleared protocol key enc d).0 ≡ err (code Err.pin_auth_blocked))
      → IsLocked P (try_pin P room cleared protocol key enc d).1
  unfolding try_pin IsLocked
  try_pin-IsLocked room cleared protocol key enc d h =
      by_spent (spend_retry P d).0 refl (half_of P cleared (decrypt P protocol key enc room)) refl
    where
      by_spent :
          (r : Result (List ℕ × ℕ))
          → (spend_retry P d).0 ≡ r
          → (o : Result (List ℕ)) → half_of P cleared (decrypt P protocol key enc room) ≡ o
          → IsLocked P (try_pin P room cleared protocol key enc d).1
      by_spent (ok (pd, len)) e (ok hash) eh = ground (
        arith,
        compare_pin_lem hash pd len (spend_retry P d).1,
        spend_retry-ok d pd len e,
        spend_retry_lem d,
      )
      by_spent (ok (pd, len)) e (err c) eh =
          ground (arith, half_of-ne-blocked cleared protocol key enc room)
      by_spent (ok (pd, len)) e fault eh = ground arith
      by_spent (err c) e o eh = ground (arith, spend_retry-ne-blocked d)
      by_spent fault e o eh = ground arith
