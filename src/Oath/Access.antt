-- ===== src/Oath/Access.antt =====
-- What opens the OATH application: the access code, or its PIN.
use fido_touch.Prelude.{
  ℕ, ◌+◌, ◌%◌, ◌<◌, ◌≤◌, ◌≡◌, ◌≢◌, refl, ◌⊎◌, inl, Bool, true, false, Option, none, some, List, [],
  ◌∷◌, length, get_or, arith,
}
use fido_touch.Exec.{ok}
use fido_touch.Platform.{Platform, Md}
use fido_touch.Ctap.Ef
use fido_touch.Oath.{ok_sw, security_status_not_satisfied, Apdu, OathOf, value}
use fido_touch.Oath.Keys.{md_info, decrypt_key}
use fido_touch.Oath.Code.{
  tag_challenge, tag_response, code_mac, proves, set_code, answer_challenge, validate_key,
  validate_with, validate,
}
use fido_touch.Oath.Credentials.{max_oath_cred, tag_name, find_oath_cred, cmd_delete}
use fido_touch.Oath.Reset.{cmd_reset}
use fido_touch.Oath.Reset.Laws.{cmd_reset_clears}
use fido_touch.Oath.OtpPin.{
  Match, matched, mismatched, blocked, storage_error, tag_password, tag_new_password,
  otp_pin_matches, spend_otp, check_pin, store_pin, set_otp_pin, change_otp_pin, verify_with,
  verify_otp_pin,
}

module _ (P : Platform) where
  open P use {Fs, contents, contents-delete, put, commit_sync, derive_verifier}

  spend_otp_lem :
      (stored : List ℕ) (s : OathOf P)
      → (spend_otp P stored s).0 ≡ true
      → length stored ≢ 0
      → get_or (contents (spend_otp P stored s).1.fs Ef.otp_pin) 0 0
        ≡ (get_or stored 0 0 + 255) % 256
  unfolding spend_otp
  spend_otp_lem [] s h ne = absurd (ne refl)
  spend_otp_lem (x ∷ stored) s h ne = ground arith

  -- What `oath_check_pin` answers for a PIN, once it is compared
  abbrev pub answer_of : Bool → Match
  answer_of true = matched
  answer_of false = mismatched

  -- A PIN of OATH that is found right or wrong has taken one try from the counter in the flash. The
  -- answer is that of the comparison with the record as it is in the flash afterwards, and what the
  -- device is left with is the same for every PIN.
  pub check_pin_spends :
      (pin other : List ℕ) (s : OathOf P)
      → get_or (contents s.fs Ef.otp_pin) 0 0 < 256
      → ((check_pin P pin s).0 ≡ matched) ⊎ ((check_pin P pin s).0 ≡ mismatched)
      → let s' = (check_pin P pin s).1 in
        (get_or (contents s'.fs Ef.otp_pin) 0 0 + 1 ≡ get_or (contents s.fs Ef.otp_pin) 0 0)
        × ((check_pin P pin s).0 ≡ answer_of (otp_pin_matches P (contents s'.fs Ef.otp_pin) pin))
        × ((check_pin P other s).1 ≡ s')
  unfolding check_pin
  check_pin_spends pin other s small h = ground (arith, spend_otp_lem (contents s.fs Ef.otp_pin) s)

  -- Without an access code
  validate_without_code :
      (apdu : Apdu) (chal resp : List ℕ) (s : OathOf P)
      → value P apdu.bytes tag_challenge ≡ some chal
      → value P apdu.bytes tag_response ≡ some resp
      → length (contents s.fs Ef.oath_code) ≡ 0
      → ((validate P apdu s).1.fs ≡ s.fs) × ((validate P apdu s).1.validated ≡ true)
  unfolding validate validate_with
  validate_without_code apdu chal resp s hc hr h = ground arith

  -- A closed application refuses to delete a credential. Where no access code is stored, a PIN or not,
  -- VALIDATE with any challenge and any response before it is enough for the credential to be deleted.
  pub validate-cmd_delete :
      (apdu del : Apdu) (chal resp name : List ℕ) (k : ℕ) (s : OathOf P)
      → value P apdu.bytes tag_challenge ≡ some chal
      → value P apdu.bytes tag_response ≡ some resp
      → length (contents s.fs Ef.oath_code) ≡ 0
      → s.validated ≡ false
      → value P del.bytes tag_name ≡ some name
      → find_oath_cred P name s.fs ≡ some k
      → (cmd_delete P del s ≡ (ok security_status_not_satisfied, s))
        × ((cmd_delete P del (validate P apdu s).1).0 ≡ ok ok_sw)
        × (contents (cmd_delete P del (validate P apdu s).1).1.fs k ≡ [])
  unfolding cmd_delete
  validate-cmd_delete apdu del chal resp name k s hc hr h closed hn found =
      let (same, opened) = validate_without_code apdu chal resp s hc hr h in
      ground (arith, contents-delete s.fs k k)

  -- The response is the MAC of the challenge of the device under the access code that is stored.
  unfoldable pub KnowsCode : Apdu → OathOf P → Type 0
  KnowsCode apdu s =
      (resp : List ℕ) × (key : List ℕ) × (md : Md) × (value P apdu.bytes tag_response ≡ some resp)
      × (decrypt_key P (contents s.fs Ef.oath_code) ≡ some key)
      × (md_info (get_or key 0 0) ≡ some md)
      × (proves P md (code_mac P md key s.challenge).1 resp ≡ true)

  validate_key_lem :
      (key chal resp : List ℕ) (s : OathOf P)
      → s.validated ≡ false
      → (validate_key P key chal resp s).1.validated ≡ true
      → (md : Md) × (md_info (get_or key 0 0) ≡ some md)
        × (proves P md (code_mac P md key s.challenge).1 resp ≡ true)
  unfolding validate_key answer_challenge
  validate_key_lem key chal resp s hv h = by_md (md_info (get_or key 0 0)) refl
    where
      by_md :
          (o : Option Md)
          → md_info (get_or key 0 0) ≡ o
          → (md : Md) × (md_info (get_or key 0 0) ≡ some md)
            × (proves P md (code_mac P md key s.challenge).1 resp ≡ true)
      by_md none e = ground arith
      by_md (some md) e = (md, e, ground arith)

  -- VALIDATE opens an application with an access code only for a response that proves knowledge of it.
  pub validate-KnowsCode :
      (apdu : Apdu) (s : OathOf P)
      → length (contents s.fs Ef.oath_code) ≢ 0
      → s.validated ≡ false
      → (validate P apdu s).1.validated ≡ true
      → KnowsCode apdu s
  unfolding validate validate_with KnowsCode
  validate-KnowsCode apdu s ne hv h =
      by_tags (value P apdu.bytes tag_challenge) refl (value P apdu.bytes tag_response) refl
        (decrypt_key P (contents s.fs Ef.oath_code)) refl
    where
      by_tags :
          (c : Option (List ℕ))
          → value P apdu.bytes tag_challenge ≡ c
          → (r : Option (List ℕ)) → value P apdu.bytes tag_response ≡ r
          → (k : Option (List ℕ)) → decrypt_key P (contents s.fs Ef.oath_code) ≡ k
          → KnowsCode apdu s
      by_tags none ec r er k ek = ground arith
      by_tags (some chal) ec none er k ek = ground arith
      by_tags (some chal) ec (some resp) er none ek = ground arith
      by_tags (some chal) ec (some resp) er (some key) ek =
          let (md, em, hp) = validate_key_lem key chal resp s hv (ground arith) in
          (resp, key, md, er, ek, em, hp)

  -- The counter allows a try, and the record, as it is after the counter went down, matches the PIN
  -- that was sent.
  unfoldable pub KnowsPin : Apdu → OathOf P → Type 0
  KnowsPin apdu s =
      (pin : List ℕ) × (value P apdu.bytes tag_password ≡ some pin)
      × (get_or (contents s.fs Ef.otp_pin) 0 0 ≢ 0)
      × (otp_pin_matches P (contents (check_pin P pin s).1.fs Ef.otp_pin) pin ≡ true)

  check_pin-matched :
      (pin : List ℕ) (s : OathOf P)
      → ((check_pin P pin s).1.validated ≡ s.validated)
        × ((check_pin P pin s).0 ≡ matched
            → (get_or (contents s.fs Ef.otp_pin) 0 0 ≢ 0)
              × (otp_pin_matches P (contents (check_pin P pin s).1.fs Ef.otp_pin) pin ≡ true))
  unfolding check_pin spend_otp
  check_pin-matched pin s = ground arith

  verify_with_lem :
      (pin : List ℕ) (s : OathOf P)
      → s.validated ≡ false
      → (verify_with P pin s).1.validated ≡ true
      → (check_pin P pin s).0 ≡ matched
  unfolding verify_with store_pin
  verify_with_lem pin s hv h = by_match (check_pin P pin s).0 refl
    where
      by_match : (m : Match) → (check_pin P pin s).0 ≡ m → (check_pin P pin s).0 ≡ matched
      by_match matched e = e
      by_match mismatched e = ground (arith, check_pin-matched pin s)
      by_match blocked e = ground (arith, check_pin-matched pin s)
      by_match storage_error e = ground (arith, check_pin-matched pin s)

  -- VERIFY PIN opens the application only for a PIN that matches the record.
  verify-KnowsPin :
      (apdu : Apdu) (s : OathOf P)
      → s.validated ≡ false
      → (verify_otp_pin P apdu s).1.validated ≡ true
      → KnowsPin apdu s
  unfolding verify_otp_pin KnowsPin
  verify-KnowsPin apdu s hv h = by_tag (value P apdu.bytes tag_password) refl
    where
      by_tag : (o : Option (List ℕ)) → value P apdu.bytes tag_password ≡ o → KnowsPin apdu s
      by_tag none e = ground arith
      by_tag (some pin) e =
          let m = verify_with_lem pin s hv (ground arith) in
          let (tries, right) = (check_pin-matched pin s).1 m in (pin, e, tries, right)

  set_code_closed : (apdu : Apdu) (s : OathOf P) → s.validated ≡ false → (set_code P apdu s).1 ≡ s
  unfolding set_code
  set_code_closed apdu s hv = ground arith

  set_pin_closed : (apdu : Apdu) (s : OathOf P) → s.validated ≡ false → (set_otp_pin P apdu s).1 ≡ s
  unfolding set_otp_pin
  set_pin_closed apdu s hv = ground arith

  change_pin_closed :
      (apdu : Apdu) (s : OathOf P)
      → s.validated ≡ false
      → (change_otp_pin P apdu s).1.validated ≡ false
  unfolding change_otp_pin store_pin
  change_pin_closed apdu s hv =
      by_tags (value P apdu.bytes tag_password) refl (value P apdu.bytes tag_new_password) refl
    where
      by_tags :
          (o : Option (List ℕ))
          → value P apdu.bytes tag_password ≡ o
          → (n : Option (List ℕ)) → value P apdu.bytes tag_new_password ≡ n
          → (change_otp_pin P apdu s).1.validated ≡ false
      by_tags none e n en = ground arith
      by_tags (some pin) e none en = ground arith
      by_tags (some pin) e (some new) en = by_match (check_pin P pin s).0 refl
        where
          by_match :
              (m : Match)
              → (check_pin P pin s).0 ≡ m
              → (change_otp_pin P apdu s).1.validated ≡ false
          by_match matched em = ground (arith, check_pin-matched pin s)
          by_match mismatched em = ground (arith, check_pin-matched pin s)
          by_match blocked em = ground (arith, check_pin-matched pin s)
          by_match storage_error em = ground (arith, check_pin-matched pin s)

  -- The commands that may open the application
  pub data Op : Type 0 where
    set_code_op validate_op set_pin_op change_pin_op verify_pin_op reset_op : Apdu → Op

  unfoldable pub step : Op → OathOf P → OathOf P
  step (set_code_op apdu) s = (set_code P apdu s).1
  step (validate_op apdu) s = (validate P apdu s).1
  step (set_pin_op apdu) s = (set_otp_pin P apdu s).1
  step (change_pin_op apdu) s = (change_otp_pin P apdu s).1
  step (verify_pin_op apdu) s = (verify_otp_pin P apdu s).1
  step (reset_op apdu) s = (cmd_reset P apdu s).1

  -- RESET with its two magic parameters, after which no credential is left
  unfoldable pub Wiped : Apdu → OathOf P → Type 0
  Wiped apdu s =
      (apdu.p1 ≡ 0xde)
      × (apdu.p2 ≡ 0xad)
      × ((j : ℕ)
          → Ef.oath_cred ≤ j
          → j < Ef.oath_cred + max_oath_cred
          → contents (cmd_reset P apdu s).1.fs j ≡ [])

  reset_magic :
      (apdu : Apdu) (s : OathOf P)
      → s.validated ≡ false
      → (cmd_reset P apdu s).1.validated ≡ true
      → (apdu.p1 ≡ 0xde) × (apdu.p2 ≡ 0xad)
  unfolding cmd_reset
  reset_magic apdu s hv h = ground arith

  reset-Wiped :
      (apdu : Apdu) (s : OathOf P)
      → s.validated ≡ false
      → (cmd_reset P apdu s).1.validated ≡ true
      → Wiped apdu s
  unfolding Wiped
  reset-Wiped apdu s hv h =
      let (one, two) = reset_magic apdu s hv h in
      (one, two, λ j low high. (cmd_reset_clears P apdu s j one two).1 (inl (low, high)))

  -- The secret was given with the command, or what it guards is gone.
  unfoldable pub Earned : Op → OathOf P → Type 0
  Earned (validate_op apdu) s = KnowsCode apdu s
  Earned (verify_pin_op apdu) s = KnowsPin apdu s
  Earned (reset_op apdu) s = Wiped apdu s
  Earned _ s = ⊥

  -- Where an access code is stored, a command opens the closed application only if it is VALIDATE with
  -- the proof of the code, VERIFY PIN with the PIN, or RESET, after which no credential is left.
  pub step-Earned :
      (op : Op) (s : OathOf P)
      → length (contents s.fs Ef.oath_code) ≢ 0
      → s.validated ≡ false
      → (step op s).validated ≡ true
      → Earned op s
  unfolding step Earned
  step-Earned (validate_op apdu) s ne hv h = validate-KnowsCode apdu s ne hv h
  step-Earned (verify_pin_op apdu) s ne hv h = verify-KnowsPin apdu s hv h
  step-Earned (set_code_op apdu) s ne hv h = ground (arith, set_code_closed apdu s hv)
  step-Earned (set_pin_op apdu) s ne hv h = ground (arith, set_pin_closed apdu s hv)
  step-Earned (change_pin_op apdu) s ne hv h = ground (arith, change_pin_closed apdu s hv)
  step-Earned (reset_op apdu) s ne hv h = reset-Wiped apdu s hv h
