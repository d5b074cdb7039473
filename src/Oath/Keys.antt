-- ===== src/Oath/Keys.antt =====
-- The encryption of the OATH secrets in the flash, and the choice of the digest.
use fido_touch.Prelude.{
  ℕ, ◌+◌, ◌-◌, ◌^◌, Bool, false, ◌&&◌, Option, none, some, List, [], ◌∷◌, ◌++◌, length, take, drop,
  get_or, ltb, ◌==◌, eq_bytes, bit_and, if◌then◌else◌,
}
use fido_touch.Platform.{Platform, Md, sha1, sha256, sha512, is_success}

abbrev pub overhead : ℕ
overhead = 4 + 1 + 12 + 16

-- "OATH"
abbrev pub magic : List ℕ
magic = 79 ∷ (65 ∷ (84 ∷ (72 ∷ [])))

-- "OATH/KEYS"
abbrev pub keys_info : List ℕ
keys_info = magic ++ (47 ∷ (75 ∷ (69 ∷ (89 ∷ (83 ∷ [])))))

unfoldable pub is_secure : List ℕ → Bool
is_secure stored =
    ltb overhead (length stored) && eq_bytes (take 4 stored) magic && get_or stored 4 0 == 1

-- `get_oath_md_info`
unfoldable pub md_info : ℕ → Option Md
md_info alg =
    if bit_and alg 0x0f == 1
    then some sha1
    else if bit_and alg 0x0f == 2
    then some sha256
    else if bit_and alg 0x0f == 3
    then some sha512
    else none

module _ (P : Platform) where
  open P use {
    Fs, put, hkdf, derive_kbase, serial_hash, encrypt_with_aad, decrypt_with_aad, pin_kdf_v2,
  }

  -- `oath_derive_key`: a return code of 0, and the key
  abbrev pub derived : ℕ × List ℕ
  derived = hkdf sha256 serial_hash derive_kbase keys_info 32

  abbrev sealed : ℕ × List ℕ → Option (List ℕ)
  sealed (ret, out) = if ret == 0 then some (magic ++ (1 ∷ out)) else none

  -- `oath_encrypt_key`, `none` where it fails
  unfoldable pub encrypt_key : List ℕ → Option (List ℕ)
  encrypt_key plain =
      if ltb (2 ^ 16 - 1) (overhead + length plain)
      then none
      else if derived.0 == 0
      then sealed (encrypt_with_aad derived.1 pin_kdf_v2 plain)
      else none

  abbrev opened : ℕ × List ℕ → Option (List ℕ)
  opened (ret, out) = if ret == 0 then some out else none

  -- `oath_decrypt_key`: a key that is not encrypted is taken as it is.
  unfoldable pub decrypt_key : List ℕ → Option (List ℕ)
  unfolding is_secure
  decrypt_key stored =
      if is_secure stored
      then (if derived.0 == 0
          then opened (decrypt_with_aad derived.1 pin_kdf_v2 (drop 5 stored))
          else none)
      else some stored

  -- `oath_put_code_key`: whether the key is stored
  unfoldable pub put_code_key : ℕ → List ℕ → Fs → Bool × Fs
  unfolding encrypt_key
  put_code_key fid key fs =
      if is_secure key
      then (let (ret, fs') = put fs fid key in (is_success ret, fs'))
      else (elim (encrypt_key key) [
        | none ↦ (false, fs)
        | some e ↦ let (ret, fs') = put fs fid e in (is_success ret, fs')
      ])
