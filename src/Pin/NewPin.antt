-- ===== src/Pin/NewPin.antt =====
-- What setPIN and changePIN share: their tests of the encrypted PIN, of the platform's key, and of the
-- new PIN itself.
pub mod Laws
use fido_touch.Prelude.{
  ℕ, ◌+◌, ◌-◌, ◌%◌, ◌^◌, Bool, true, false, not, ◌&&◌, ◌||◌, Option, none, some, List, length, take,
  get_or, replicate, ltb, ◌==◌, if◌then◌else◌,
}
use fido_touch.Exec.{Exec, Result, ok, err, fault, code, pure, raise, lift, fail_if, ◌>>=◌, ◌>>◌}
use fido_touch.Platform.{Platform}
use fido_touch.Ctap.Err
use fido_touch.Ctap.Ef
use fido_touch.Protocol.{iv_size, verify, ecdh, kdf, decrypt}
use fido_touch.Pin.Device.{Device, DeviceOf}
use fido_touch.Pin.Policy.{policy_pass, codepoints, until_zero}

-- A byte string cut to a length of type uint16_t
abbrev pub cut16 : List ℕ → List ℕ
cut16 b = take (length b % 2 ^ 16) b

-- `new_pin_plain_len`
abbrev pub plain_len : ℕ → List ℕ → ℕ
plain_len protocol enc =
    if protocol == 1 then length enc % 2 ^ 16 else (length enc - iv_size) % 2 ^ 16

-- The test of the length of `newPinEnc`
unfoldable pub bad_new_pin_enc : ℕ → List ℕ → Bool
bad_new_pin_enc protocol enc =
    let len = length enc in
    (protocol == 1 && (ltb len 64 || not (len % 16 == 0)))
    || (protocol == 2 && (ltb len (64 + iv_size) || not ((len - iv_size) % 16 == 0)))

-- `file_get_data(ef_minpin)[1] == 1`, where the file has data
unfoldable pub force_change : List ℕ → Result Bool
force_change stored =
    if length stored == 0
    then ok false
    else if ltb (length stored) 2
    then fault
    else ok (get_or stored 1 0 == 1)

module _ (P : Platform) where
  open P use {contents, Keypair, read_binary}

  -- The point of the platform is read.
  unfoldable pub read_point : List ℕ → List ℕ → Exec (DeviceOf P) (Unit {0})
  read_point x y = do
    fail_if (not (read_binary x == 0)) Err.invalid_parameter
    fail_if (not (read_binary y == 0)) Err.invalid_parameter

  abbrev pub agreed : ℕ × List ℕ → Result (List ℕ)
  agreed (ret, out) = if ret == 0 then ok out else err (code Err.invalid_parameter)

  -- `sharedSecret`. Without a key pair, `initialize` having failed, the agreement fails and leaves `z`
  -- 0, which is not noticed.
  unfoldable pub shared_secret : ℕ → List ℕ → List ℕ → Exec (DeviceOf P) (List ℕ)
  shared_secret protocol x y d = elim d.hkey [
    | none ↦ (agreed (kdf P protocol (replicate 32 0)), d)
    | some key ↦ (agreed (ecdh P protocol key x y), d)
  ]

  abbrev pub if_zero : Result ℕ → Result (Unit {0})
  if_zero (ok r) = if r == 0 then ok tt else err (code Err.pin_auth_invalid)
  if_zero (err e) = err e
  if_zero fault = fault

  -- The signature of the platform
  unfoldable pub check_signature : ℕ → List ℕ → List ℕ → List ℕ → Exec (DeviceOf P) (Unit {0})
  check_signature protocol key msg sign = lift (if_zero (verify P protocol key msg sign))

  abbrev pub decrypted : Result (ℕ × List ℕ) → Result (List ℕ)
  decrypted (ok (ret, out)) = if ret == 0 then ok out else err (code Err.pin_auth_invalid)
  decrypted (err e) = err e
  decrypted fault = fault

  -- The least number of characters: the first byte of EF_MINPINLEN, or 4
  unfoldable pub min_pin : List ℕ → ℕ
  min_pin stored = if length stored == 0 then 4 else get_or stored 0 0

  -- The tests of the new PIN, in its padding to 64 bytes: the PIN without it.
  unfoldable pub accept_pin : ℕ → List ℕ → Exec (DeviceOf P) (List ℕ)
  unfolding min_pin
  accept_pin len padded d =
      let pin = until_zero padded in
      (do
        fail_if (ltb 64 len || not (get_or padded 63 0 == 0)) Err.pin_policy_violation
        fail_if (ltb (codepoints pin) (min_pin (contents d.fs Ef.minpinlen)))
            Err.pin_policy_violation
        fail_if (not (policy_pass P (contents d.fs Ef.pin_complexity_policy) pin))
            Err.pin_policy_violation
        pure pin)
        d

  -- `newPinEnc` is decrypted into a buffer of 272 bytes, and tested. Its output is of at least 64
  -- bytes, so it covers what the buffer held where the PIN is.
  unfoldable pub receive_pin : ℕ → List ℕ → List ℕ → Exec (DeviceOf P) (List ℕ)
  unfolding accept_pin
  receive_pin protocol key enc = do
    fail_if (ltb (256 + iv_size) (plain_len protocol enc)) Err.invalid_parameter
    padded ← lift (decrypted (decrypt P protocol key (cut16 enc) (256 + iv_size)))
    accept_pin (plain_len protocol enc) padded
