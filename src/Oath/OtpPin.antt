-- ===== src/Oath/OtpPin.antt =====
-- The PIN of the OATH application: `oath_check_pin`, and the commands that set, change and verify it.
use fido_touch.Prelude.{
  ℕ, ◌+◌, ◌%◌, Bool, true, false, not, ◌&&◌, none, some, List, ◌∷◌, length, take, drop, get_or, set,
  ltb, ◌==◌, eq_bytes, if◌then◌else◌,
}
use fido_touch.Exec.{Exec, ok}
use fido_touch.Platform.{Platform, is_success}
use fido_touch.Ctap.Ef
use fido_touch.Oath.{
  Sw, ok_sw, security_status_not_satisfied, conditions_not_satisfied, incorrect_params,
  memory_failure, Apdu, OathOf, return, return_if, value,
}

abbrev pub max_otp_counter : ℕ
max_otp_counter = 3

abbrev pub legacy_size : ℕ
legacy_size = 33

abbrev pub v1_size : ℕ
v1_size = 34

abbrev pub tag_password : ℕ
tag_password = 0x80

abbrev pub tag_new_password : ℕ
tag_new_password = 0x81

pub data Match : Type 0 where
  matched mismatched blocked storage_error : Match

abbrev pub bad_size : List ℕ → Bool
bad_size stored = not (length stored == legacy_size) && not (length stored == v1_size)

module _ (P : Platform) where
  open P use {Fs, contents, put, commit, commit_sync, derive_verifier, double_hash}

  -- `otp_pin_matches`
  unfoldable pub otp_pin_matches : List ℕ → List ℕ → Bool
  otp_pin_matches stored pin =
      if length stored == v1_size && get_or stored 1 0 == 1
      then eq_bytes (take 32 (drop 2 stored)) (take 32 (derive_verifier pin))
      else if length stored == legacy_size && ltb 0 (length pin)
      then eq_bytes (take 32 (drop 1 stored)) (take 32 (double_hash pin))
      else false

  -- `otp_pin_record_v1`
  unfoldable pub record_v1 : List ℕ → List ℕ
  record_v1 pin = max_otp_counter ∷ (1 ∷ take 32 (derive_verifier pin))

  abbrev decremented : List ℕ → List ℕ
  decremented stored = set stored 0 ((get_or stored 0 0 + 255) % 256)

  -- The flash, read again, holds the new counter.
  abbrev kept : List ℕ → Bool × Fs → Bool
  kept spent (done, fs) =
      let now = contents fs Ef.otp_pin in
      done && length now == length spent && get_or now 0 0 == get_or spent 0 0

  unfoldable pub spend_otp : List ℕ → OathOf P → Bool × OathOf P
  spend_otp stored s =
      let spent = decremented stored in
      let (ret, fs1) = put s.fs Ef.otp_pin spent in
      if is_success ret
      then (kept spent (commit_sync fs1), record s { fs = (commit_sync fs1).1 })
      else (false, record s { fs = fs1 })

  -- `oath_check_pin`: the counter goes down in the flash before the PIN is compared.
  unfoldable pub check_pin : List ℕ → OathOf P → Match × OathOf P
  unfolding spend_otp otp_pin_matches
  check_pin pin s =
      let stored = contents s.fs Ef.otp_pin in
      if bad_size stored
      then (storage_error, s)
      else if get_or stored 0 0 == 0
      then (blocked, s)
      else (let (done, s') = spend_otp stored s in
          if not done
          then (storage_error, s')
          else if otp_pin_matches (contents s'.fs Ef.otp_pin) pin
          then (matched, s')
          else (mismatched, s'))

  -- The record of a new PIN; `validated` is as it is given where it is stored.
  unfoldable pub store_pin : List ℕ → Bool → Exec (OathOf P) Sw
  unfolding record_v1
  store_pin pin validated s =
      let (ret, fs') = put s.fs Ef.otp_pin (record_v1 pin) in
      if is_success ret
      then (ok ok_sw, record s { fs = commit fs'; validated = validated })
      else (ok memory_failure, record s { fs = fs' })

  -- `cmd_set_otp_pin`
  unfoldable pub set_otp_pin : Apdu → Exec (OathOf P) Sw
  unfolding store_pin
  set_otp_pin apdu s =
      return_if (not s.validated) security_status_not_satisfied
        (return_if (not (length (contents s.fs Ef.otp_pin) == 0)) conditions_not_satisfied
          (elim (value P apdu.bytes tag_password) [
            | none ↦ return incorrect_params
            | some pin ↦ store_pin pin true
          ]))
        s

  abbrev pub changed : List ℕ → Bool → Match → Exec (OathOf P) Sw
  changed new validated storage_error = return memory_failure
  changed new validated matched = store_pin new validated
  changed new validated _ = return security_status_not_satisfied

  -- `cmd_change_otp_pin`
  unfoldable pub change_otp_pin : Apdu → Exec (OathOf P) Sw
  unfolding store_pin check_pin
  change_otp_pin apdu s =
      return_if (bad_size (contents s.fs Ef.otp_pin)) conditions_not_satisfied
        (elim (value P apdu.bytes tag_password) [
          | none ↦ return incorrect_params
          | some old ↦ elim (value P apdu.bytes tag_new_password) [
            | none ↦ return incorrect_params
            | some new ↦ λ t. let (m, t') = check_pin old t in changed new t.validated m t'
          ]
        ])
        s

  abbrev pub verified : List ℕ → Match → Exec (OathOf P) Sw
  verified pin storage_error s = (ok memory_failure, s)
  verified pin matched s = store_pin pin true s
  verified pin _ s = (ok security_status_not_satisfied, record s { validated = false })

  -- `cmd_verify_otp_pin`, with the PIN
  unfoldable pub verify_with : List ℕ → Exec (OathOf P) Sw
  unfolding store_pin check_pin
  verify_with pin s = let (m, s') = check_pin pin s in verified pin m s'

  -- `cmd_verify_otp_pin`
  unfoldable pub verify_otp_pin : Apdu → Exec (OathOf P) Sw
  unfolding verify_with
  verify_otp_pin apdu s =
      return_if (bad_size (contents s.fs Ef.otp_pin)) conditions_not_satisfied
        (elim (value P apdu.bytes tag_password) [
          | none ↦ return incorrect_params
          | some pin ↦ verify_with pin
        ])
        s
