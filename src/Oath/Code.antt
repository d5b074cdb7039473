-- ===== src/Oath/Code.antt =====
-- The access code: SET CODE, VALIDATE, and the state that SELECT leaves.
use fido_touch.Prelude.{
  ℕ, Bool, true, false, not, ◌&&◌, ◌||◌, Option, none, some, List, ◌∷◌, ◌++◌, length, take, drop,
  get_or, ltb, ◌==◌, eq_bytes, if◌then◌else◌,
}
use fido_touch.Exec.{Exec, ok}
use fido_touch.Platform.{Platform, Md}
use fido_touch.Ctap.Ef
use fido_touch.Oath.{
  Sw, ok_sw, security_status_not_satisfied, incorrect_params, wrong_data, data_invalid, exec_error,
  Apdu, OathOf, return, return_if, value,
}
use fido_touch.Oath.Keys.{md_info, decrypt_key, put_code_key}

abbrev pub tag_key : ℕ
tag_key = 0x73

abbrev pub tag_challenge : ℕ
tag_challenge = 0x74

abbrev pub tag_response : ℕ
tag_response = 0x75

abbrev pub access_code_max_len : ℕ
access_code_max_len = 65

module _ (P : Platform) where
  open P use {contents, delete, create, commit, hmac, md_size, random}

  -- `validated` after SELECT
  unfoldable pub select_validated : OathOf P → OathOf P
  select_validated s = record s {
    validated = length (contents s.fs Ef.oath_code) == 0 && length (contents s.fs Ef.otp_pin) == 0;
  }

  -- The HMAC under an access code: its first byte names the digest.
  abbrev pub code_mac : Md → List ℕ → List ℕ → ℕ × List ℕ
  code_mac md key chal = hmac md (drop 1 key) chal

  -- The response is the MAC, in the length of the digest.
  unfoldable pub proves : Md → List ℕ → List ℕ → Bool
  proves md mac resp = length resp == md_size md && eq_bytes (take (md_size md) mac) resp

  unfoldable pub drop_code : Exec (OathOf P) Sw
  drop_code s = (ok ok_sw, record s { fs = delete s.fs Ef.oath_code; validated = true })

  -- The end of SET CODE: a new challenge, and the code in its file. A file that cannot be made is
  -- not written.
  unfoldable pub store_code : List ℕ → Exec (OathOf P) Sw
  store_code key s =
      let (chal, rng') = random 8 s.rng in
      let (made, fs1) = create s.fs Ef.oath_code in
      let (stored, fs2) = put_code_key P Ef.oath_code key fs1 in
      let s' = record s { rng = rng'; challenge = chal } in
      if made && stored
      then (ok ok_sw, record s' { fs = commit fs2; validated = false })
      else (ok exec_error, record s' { fs = if made then fs2 else fs1 })

  unfoldable pub check_code : List ℕ → List ℕ → List ℕ → Exec (OathOf P) Sw
  unfolding store_code proves
  check_code key chal resp = elim (md_info (get_or key 0 0)) [
    | none ↦ return incorrect_params
    | some md ↦
        let (ret, mac) = code_mac md key chal in
        return_if (not (ret == 0)) exec_error
          (return_if (not (proves md mac resp)) data_invalid (store_code key))
  ]

  unfoldable pub set_key : List ℕ → List ℕ → Exec (OathOf P) Sw
  unfolding drop_code check_code
  set_key msg key = return_if (length key == 1 || ltb access_code_max_len (length key)) wrong_data (
      if length key == 0 then drop_code else elim (value P msg tag_challenge) [
        | none ↦ return incorrect_params
        | some chal ↦ elim (value P msg tag_response) [
          | none ↦ return incorrect_params
          | some resp ↦ check_code key chal resp
        ]
      ])

  -- `cmd_set_code`
  unfoldable pub set_code : Apdu → Exec (OathOf P) Sw
  unfolding set_key
  set_code apdu s =
      return_if (not s.validated) security_status_not_satisfied
        (if length apdu.bytes == 0 then drop_code else elim (value P apdu.bytes tag_key) [
          | none ↦ return incorrect_params
          | some key ↦ set_key apdu.bytes key
        ])
        s

  -- The answer of VALIDATE to a right response: the MAC of the challenge of the host
  unfoldable pub answer_challenge : Md → List ℕ → List ℕ → Exec (OathOf P) Sw
  answer_challenge md key chal s =
      let (ret, mac) = code_mac md key chal in
      if ret == 0
      then (
        ok ok_sw,
        record s {
          validated = true;
          response = s.response ++ (tag_response ∷ (md_size md ∷ take (md_size md) mac));
        },
      )
      else (ok exec_error, s)

  unfoldable pub validate_key : List ℕ → List ℕ → List ℕ → Exec (OathOf P) Sw
  unfolding answer_challenge proves
  validate_key key chal resp s =
      return_if (ltb (length key) 2 || ltb access_code_max_len (length key)) wrong_data
        (elim (md_info (get_or key 0 0)) [
          | none ↦ return incorrect_params
          | some md ↦
              let (ret, mac) = code_mac md key s.challenge in
              return_if (not (ret == 0)) exec_error
                (return_if (not (proves md mac resp)) data_invalid (answer_challenge md key chal))
        ])
        s

  abbrev pub validate_plain : Option (List ℕ) → List ℕ → List ℕ → Exec (OathOf P) Sw
  validate_plain none chal resp = return exec_error
  validate_plain (some key) chal resp = validate_key key chal resp

  -- VALIDATE, with the values of its tags
  unfoldable pub validate_with : List ℕ → List ℕ → Exec (OathOf P) Sw
  unfolding validate_key
  validate_with chal resp s =
      let stored = contents s.fs Ef.oath_code in
      if length stored == 0
      then (ok data_invalid, record s { validated = true })
      else validate_plain (decrypt_key P stored) chal resp s

  -- `cmd_validate`
  unfoldable pub validate : Apdu → Exec (OathOf P) Sw
  unfolding validate_with
  validate apdu = elim (value P apdu.bytes tag_challenge) [
    | none ↦ return incorrect_params
    | some chal ↦ elim (value P apdu.bytes tag_response) [
      | none ↦ return incorrect_params
      | some resp ↦ validate_with chal resp
    ]
  ]
