-- ===== src/Oath/Credentials.antt =====
-- The credentials of the OATH application, one in each file: finding, storing and deleting them.
use mathlib.Core.List.{flatten, map}
use fido_touch.Prelude.{
  ℕ, zero, suc, ◌+◌, ◌-◌, ◌/◌, ◌%◌, ◌^◌, Bool, true, false, not, ◌&&◌, Option, none, some, List, [],
  ◌∷◌, ◌++◌, length, take, drop, get_or, set, replicate, ltb, ◌==◌, eq_bytes, bit_and,
  if◌then◌else◌,
}
use fido_touch.Exec.{Exec, Result, ok, err, fault}
use fido_touch.Platform.{Platform, is_success}
use fido_touch.Ctap.Ef
use fido_touch.Oath.{
  Sw, ok_sw, security_status_not_satisfied, incorrect_params, wrong_data, wrong_length,
  data_invalid, exec_error, file_full, Apdu, OathOf, return, return_if, value,
}
use fido_touch.Oath.Keys.{is_secure, encrypt_key}
use fido_touch.Oath.Code.{tag_key}

abbrev pub max_oath_cred : ℕ
max_oath_cred = 255

abbrev pub tag_name : ℕ
tag_name = 0x71

abbrev pub tag_imf : ℕ
tag_imf = 0x7a

abbrev pub is_hotp : List ℕ → Bool
is_hotp key = bit_and (get_or key 0 0) 0xf0 == 0x10

abbrev pub same_name : List ℕ → Option (List ℕ) → Bool
same_name name none = false
same_name name (some n) = eq_bytes n name

-- `tlv_append`, on the length as the TLV format writes it
abbrev pub entry : (ℕ → List ℕ) → ℕ × List ℕ → List ℕ
entry format_len (tag, bytes) =
    (if ltb 0xff tag then tag / 256 % 256 ∷ (tag % 256 ∷ []) else tag % 256 ∷ [])
    ++ (format_len (length bytes) ++ bytes)

-- The moving factor of a HOTP credential is made 8 bytes long: it is added, or gets zeros in front.
unfoldable pub with_imf : List ℕ → Option (ℕ × ℕ) → List ℕ
with_imf d none = d ++ (tag_imf ∷ (8 ∷ replicate 8 0))
with_imf d (some (at, len)) =
    if ltb len 8 then set (take at d ++ (replicate (8 - len) 0 ++ drop at d)) (at - 1) 8 else d

module _ (P : Platform) where
  open P use {Fs, exists, contents, put, create, delete, commit, find_tag, walk, format_len}

  -- The file holds a credential of this name.
  unfoldable pub is_named : List ℕ → Fs → ℕ → Bool
  is_named name fs fid =
      not (length (contents fs fid) == 0) && same_name name (value P (contents fs fid) tag_name)

  -- The first of `n` files from `fid` on that holds the name
  unfoldable pub find_from : ℕ → ℕ → List ℕ → Fs → Option ℕ
  find_from zero fid name fs = none
  find_from (suc n) fid name fs =
      let rest = find_from n (fid + 1) name fs in if is_named name fs fid then some fid else rest

  -- `find_oath_cred`: the files in the order of their numbers
  unfoldable pub find_oath_cred : List ℕ → Fs → Option ℕ
  unfolding find_from
  find_oath_cred name fs = find_from max_oath_cred Ef.oath_cred name fs

  -- The first of `n` numbers that no file has
  unfoldable pub free_from : ℕ → ℕ → Fs → Option ℕ
  free_from zero fid fs = none
  free_from (suc n) fid fs =
      let rest = free_from n (fid + 1) fs in if exists fs fid then rest else some fid

  abbrev pub written : ℕ → List ℕ → Fs → Result Bool × Fs
  written fid d fs = let (ret, fs') = put fs fid d in (ok (is_success ret), fs')

  -- The entries of a credential with the encrypted key. Their length is counted in a uint16_t, and
  -- the buffer of that length is written past its end if there are more.
  abbrev pub rewritten : List ℕ → List ℕ → List ℕ
  rewritten d e = flatten (
      map
        (λ ((tag, bytes) : ℕ × List ℕ). entry format_len (tag, if tag == tag_key then e else bytes))
        (walk d))

  abbrev pub put_encrypted : ℕ → List ℕ → Option (List ℕ) → Fs → Result Bool × Fs
  put_encrypted fid d none fs = (ok false, fs)
  put_encrypted fid d (some e) fs =
      if ltb (2 ^ 16 - 1) (length (rewritten d e))
      then (fault, fs)
      else written fid (rewritten d e) fs

  abbrev pub put_keyed : ℕ → List ℕ → Option (List ℕ) → Fs → Result Bool × Fs
  put_keyed fid d none fs = written fid d fs
  put_keyed fid d (some key) fs =
      if is_secure key then written fid d fs else put_encrypted fid d (encrypt_key P key) fs

  -- `oath_put_credential_data`: whether it is stored
  unfoldable pub put_credential_data : ℕ → List ℕ → Fs → Result Bool × Fs
  put_credential_data fid d fs = put_keyed fid d (value P d tag_key) fs

  abbrev pub stored_as : OathOf P → Result Bool × Fs → Result Sw × OathOf P
  stored_as s (ok true, fs) = (ok ok_sw, record s { fs = commit fs })
  stored_as s (ok false, fs) = (ok exec_error, record s { fs = fs })
  stored_as s (err e, fs) = (err e, record s { fs = fs })
  stored_as s (fault, fs) = (fault, record s { fs = fs })

  -- A credential of a new name gets the first free number.
  abbrev pub put_new : List ℕ → Option ℕ → Exec (OathOf P) Sw
  put_new d none s = (ok file_full, s)
  put_new d (some fid) s =
      let (made, fs) = create s.fs fid in
      if made
      then stored_as s (put_credential_data fid d fs)
      else (ok file_full, record s { fs = fs })

  unfoldable pub put_at : List ℕ → Option ℕ → Exec (OathOf P) Sw
  unfolding put_credential_data free_from
  put_at d (some fid) s = stored_as s (put_credential_data fid d s.fs)
  put_at d none s = put_new d (free_from max_oath_cred Ef.oath_cred s.fs) s

  abbrev pub put_named : List ℕ → List ℕ → Exec (OathOf P) Sw
  put_named name d s = put_at d (find_oath_cred name s.fs) s

  unfoldable pub put_checked : List ℕ → List ℕ → List ℕ → Exec (OathOf P) Sw
  unfolding put_at
  put_checked msg key name =
      if is_hotp key
      then return_if (ltb (2 ^ 16 - 1 - 10) (length msg)) wrong_length
          (put_named name (with_imf msg (find_tag msg tag_imf)))
      else put_named name msg

  -- `cmd_put`
  unfoldable pub cmd_put : Apdu → Exec (OathOf P) Sw
  unfolding put_checked
  cmd_put apdu s =
      return_if (not s.validated) security_status_not_satisfied
        (elim (value P apdu.bytes tag_key) [
          | none ↦ return incorrect_params
          | some key ↦
              return_if (ltb (length key) 2) wrong_data (elim (value P apdu.bytes tag_name) [
                | none ↦ return incorrect_params
                | some name ↦ put_checked apdu.bytes key name
              ])
        ])
        s

  abbrev delete_found : Option ℕ → Exec (OathOf P) Sw
  delete_found none s = (ok data_invalid, s)
  delete_found (some fid) s = (ok ok_sw, record s { fs = delete s.fs fid })

  -- `cmd_delete`
  unfoldable pub cmd_delete : Apdu → Exec (OathOf P) Sw
  cmd_delete apdu s =
      return_if (not s.validated) security_status_not_satisfied
        (elim (value P apdu.bytes tag_name) [
          | none ↦ return incorrect_params
          | some name ↦ λ t. delete_found (find_oath_cred name t.fs) t
        ])
        s
