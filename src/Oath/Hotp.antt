-- ===== src/Oath/Hotp.antt =====
-- CALCULATE, with the counter of a HOTP credential.
pub mod Laws
use fido_touch.Prelude.{
  ℕ, zero, suc, ◌+◌, ◌-◌, ◌%◌, ◌^◌, ◌≤◌, ◌<◌, ◌≡◌, ◌≢◌, refl, sym, ap, ◌∙◌, Bool, true, false, not,
  ◌&&◌, Option, none, some, List, [], ◌∷◌, ◌++◌, length, length-take, take, drop, take-append,
  get_or, ltb, ◌==◌, arith, if◌then◌else◌,
}
use fido_touch.Exec.{Exec, Result, ok, err, fault}
use fido_touch.Platform.{Platform, success}
use fido_touch.Oath.{
  Sw, ok_sw, security_status_not_satisfied, incorrect_params, incorrect_p1p2, data_invalid,
  wrong_length, exec_error, Apdu, Oath, OathOf, return, return_if, value,
}
use fido_touch.Oath.Keys.{decrypt_key}
use fido_touch.Oath.Code.{tag_key, tag_challenge}
use fido_touch.Oath.Credentials.{tag_name, tag_imf, is_hotp, find_oath_cred}
use fido_touch.Oath.Calculate.{Outcome, done, has_room, calculate_oath}

-- The eight bytes at `at` are replaced.
unfoldable pub put_counter : ℕ → List ℕ → List ℕ → List ℕ
put_counter at eight d = take at d ++ (eight ++ drop (at + 8) d)

module _ (P : Platform) (buffer : ℕ) where
  open P use {contents, put, commit, find_tag, be64, get_be64}

  -- The counter in the credential of file `k`, where the moving factor stands at `at`, is one more. Fewer
  -- than eight bytes from there on are read past their end; the code of `file_put_data` is not read.
  unfoldable pub advance_counter : ℕ → ℕ → Exec (OathOf P) Sw
  unfolding put_counter
  advance_counter k at s =
      let d = contents s.fs k in
      if ltb (length d) (at + 8)
      then (fault, s)
      else (let next = (get_be64 (take 8 (drop at d)) + 1) % 2 ^ 64 in
          (ok ok_sw, record s { fs = commit (put s.fs k (put_counter at (be64 next) d)).1 }))

  abbrev pub calculated : Result (Outcome × List ℕ) → Exec (OathOf P) Sw → Exec (OathOf P) Sw
  calculated (ok (done, r)) next s = next (record s { response = r })
  calculated (ok (_, r)) next s = (ok exec_error, record s { response = r })
  calculated (err e) next s = (err e, s)
  calculated fault next s = (fault, s)

  -- The end of CALCULATE for a key and its challenge
  unfoldable pub respond_code : Apdu → List ℕ → List ℕ → Exec (OathOf P) Sw → Exec (OathOf P) Sw
  respond_code apdu key chal next s =
      return_if (not (has_room buffer s.response 1)) wrong_length
        (calculated
          (calculate_oath P buffer apdu.p2 key chal (s.response ++ ((0x75 + apdu.p2) ∷ []))) next)
        s

  abbrev calculate_hotp : Apdu → ℕ → List ℕ → Option (ℕ × ℕ) → Exec (OathOf P) Sw
  calculate_hotp apdu k key none = return incorrect_params
  calculate_hotp apdu k key (some (at, len)) =
      λ s. respond_code apdu key (take len (drop at (contents s.fs k))) (advance_counter k at) s

  unfoldable pub calculate_key : Apdu → ℕ → List ℕ → List ℕ → Exec (OathOf P) Sw
  unfolding respond_code advance_counter
  calculate_key apdu k chal key s =
      return_if (ltb (length key) 2) exec_error
        (if is_hotp key
          then calculate_hotp apdu k key (find_tag (contents s.fs k) tag_imf)
          else respond_code apdu key chal (return ok_sw))
        s

  abbrev calculate_opened : Apdu → ℕ → List ℕ → Option (List ℕ) → Exec (OathOf P) Sw
  calculate_opened apdu k chal none = return exec_error
  calculate_opened apdu k chal (some key) = calculate_key apdu k chal key

  abbrev calculate_stored : Apdu → ℕ → List ℕ → Option (List ℕ) → Exec (OathOf P) Sw
  calculate_stored apdu k chal none = return incorrect_params
  calculate_stored apdu k chal (some stored) = calculate_opened apdu k chal (decrypt_key P stored)

  abbrev calculate_found : Apdu → List ℕ → Option ℕ → Exec (OathOf P) Sw
  calculate_found apdu chal none s = (ok data_invalid, s)
  calculate_found apdu chal (some k) s =
      calculate_stored apdu k chal (value P (contents s.fs k) tag_key) s

  -- `cmd_calculate`
  unfoldable pub cmd_calculate : Apdu → Exec (OathOf P) Sw
  unfolding calculate_key
  cmd_calculate apdu s =
      return_if (not (apdu.p2 == 0) && not (apdu.p2 == 1)) incorrect_p1p2
        (return_if (not s.validated) security_status_not_satisfied
          (elim (value P apdu.bytes tag_challenge) [
            | none ↦ return incorrect_params
            | some chal ↦ elim (value P apdu.bytes tag_name) [
              | none ↦ return incorrect_params
              | some name ↦ λ t. calculate_found apdu chal (find_oath_cred P name t.fs) t
            ]
          ]))
        s
