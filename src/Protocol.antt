-- ===== src/Protocol.antt =====
-- The PIN/UV auth protocols one and two of src/fido/cbor_client_pin.c.
use fido_touch.Prelude.{
  ℕ, ◌-◌, not, List, [], ◌∷◌, ◌++◌, length, take, drop, ltb, ◌==◌, eq_bytes, if◌then◌else◌,
}
use fido_touch.Exec.{Result, ok, fault}
use fido_touch.Platform.{Platform, sha256}

abbrev pub iv_size : ℕ
iv_size = 16

-- `mbedtls_ct_memcmp(sign, mac, n)`: 0 if the first `n` bytes agree. A `sign` that is shorter is
-- read past its end.
unfoldable pub compare_bytes : ℕ → List ℕ → List ℕ → Result ℕ
compare_bytes n sign mac =
    if ltb (length sign) n then fault else ok (if eq_bytes (take n sign) (take n mac) then 0 else 1)

-- "CTAP2 HMAC key" and "CTAP2 AES key"
abbrev pub hmac_info : List ℕ
hmac_info = 67 ∷ 84 ∷ 65 ∷ 80 ∷ 50 ∷ 32 ∷ 72 ∷ 77 ∷ 65 ∷ 67 ∷ 32 ∷ 107 ∷ 101 ∷ 121 ∷ []

abbrev pub aes_info : List ℕ
aes_info = 67 ∷ 84 ∷ 65 ∷ 80 ∷ 50 ∷ 32 ∷ 65 ∷ 69 ∷ 83 ∷ 32 ∷ 107 ∷ 101 ∷ 121 ∷ []

module _ (P : Platform) where
  open P use {hmac, digest, hkdf, Keypair, agree, aes_encrypt, aes_decrypt, Rng, random}

  -- `verify`: 0 for a good signature; the code of another result is not told apart.
  unfoldable pub verify : ℕ → List ℕ → List ℕ → List ℕ → Result ℕ
  unfolding compare_bytes
  verify protocol key msg sign =
      let (ret, mac) = hmac sha256 (take 32 key) msg in
      if not (ret == 0)
      then ok ret
      else if protocol == 1
      then compare_bytes 16 sign mac
      else if protocol == 2
      then compare_bytes 32 sign mac
      else ok 1

  -- `kdf`, on the 32 bytes of `z`
  unfoldable pub kdf : ℕ → List ℕ → ℕ × List ℕ
  kdf protocol z =
      if protocol == 1
      then (0, digest sha256 z)
      else if protocol == 2
      then (let (r1, k1) = hkdf sha256 [] z hmac_info 32 in
          let (r2, k2) = hkdf sha256 [] z aes_info 32 in
          if not (r1 == 0) then (r1, []) else (r2, k1 ++ k2))
      else (1, [])

  -- `ecdh` drops the code of `mbedtls_ecdh_compute_shared` for that of `kdf`.
  unfoldable pub ecdh : ℕ → Keypair → List ℕ → List ℕ → ℕ × List ℕ
  ecdh protocol key x y = let (ret, z) = agree key x y in kdf protocol z

  -- `encrypt`, with the random IV of protocol two in front
  unfoldable pub encrypt : ℕ → List ℕ → List ℕ → Rng → (ℕ × List ℕ) × Rng
  encrypt protocol key msg rng =
      if protocol == 1
      then (aes_encrypt (take 32 key) [] msg, rng)
      else if protocol == 2
      then (let (iv, rng') = random iv_size rng in
          let (ret, out) = aes_encrypt (drop 32 key) iv msg in ((ret, iv ++ out), rng'))
      else ((1, []), rng)

  -- `decrypt` into an array of `room` bytes, which it does not know the size of: more bytes than
  -- that are written past its end, and so is the huge count that `in_len - IV_SIZE` is below 16.
  unfoldable pub decrypt : ℕ → List ℕ → List ℕ → ℕ → Result (ℕ × List ℕ)
  decrypt protocol key msg room =
      if protocol == 1
      then (if ltb room (length msg) then fault else ok (aes_decrypt (take 32 key) [] msg))
      else if protocol == 2
      then (if ltb (length msg) iv_size
          then fault
          else if ltb room (length msg - iv_size)
          then fault
          else ok (aes_decrypt (drop 32 key) (take iv_size msg) (drop iv_size msg)))
      else ok (1, [])
