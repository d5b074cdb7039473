-- ===== src/LargeBlobs/Accepted.antt =====
-- What a fragment, and a whole array, must be like to pass the tests of `cbor_large_blobs`.
use fido_touch.Prelude.{
  ℕ, zero, suc, ◌-◌, ◌<◌, ◌≡◌, ◌⊎◌, refl, sym, ap, ◌∙◌, true, Option, none, some, List, length,
  take, take_self, drop, arith, ◌==◌, eq_bytes, eq_bytes_iff, has_bits, if◌then◌else◌,
}
use fido_touch.Exec.{Result, ok, err, fault}
use fido_touch.Platform.{Platform, sha256}
use fido_touch.Ctap.Permission
use fido_touch.Protocol.{verify, compare_bytes}
use fido_touch.Token.{Session}
use fido_touch.LargeBlobs.Defs.{Request, verify_data, authorize, intact}

module _ (P : Platform) where
  open P use {hmac, digest}

  -- `pinUvAuthParam` is the HMAC of the offset and the digest of the fragment under the token: the
  -- first 16 bytes of it by protocol one, and 32 bytes by protocol two.
  unfoldable pub Signed : Session → Request → List ℕ → Type 0
  Signed token q part =
      let mac = hmac sha256 (take 32 token.token) (verify_data P q.offset part) in
      (sign : List ℕ) × (q.auth_param ≡ some sign)
      × (((q.protocol ≡ 1) × (length sign ≡ 16)) ⊎ ((q.protocol ≡ 2) × (length sign ≡ 32)))
      × (mac.0 ≡ 0)
      × (take (length sign) mac.1 ≡ sign)

  -- The last 16 bytes are the first of the digest of the rest, unless there are only 17.
  unfoldable pub ChecksumHolds : ℕ → List ℕ → Type 0
  ChecksumHolds len temp =
      (17 < len) → take 16 (digest sha256 (take (len - 16) temp)) ≡ take 16 (drop (len - 16) temp)

  pub intact-ChecksumHolds :
      (len : ℕ) (temp : List ℕ) → intact P len temp ≡ true → ChecksumHolds len temp
  unfolding intact ChecksumHolds
  intact-ChecksumHolds len temp h lt =
      let head = take 16 (digest sha256 (take (len - 16) temp)) in
      (eq_bytes_iff head (take 16 (drop (len - 16) temp))).0 (ground (arith, h))

  compare_zero :
      (n : ℕ) (sign mac : List ℕ)
      → compare_bytes n sign mac ≡ ok 0
      → length sign ≡ n
      → take (length sign) mac ≡ sign
  unfolding compare_bytes
  compare_zero n sign mac h len =
      let same : eq_bytes (take n sign) (take n mac) ≡ true = ground (arith, h, len) in
      let both = (eq_bytes_iff (take n sign) (take n mac)).0 same in
      ap (λ k. take k mac) len ∙ sym both ∙ take_self sign len

  verify_zero :
      (protocol : ℕ) (key msg sign : List ℕ)
      → verify P protocol key msg sign ≡ ok 0
      → length sign ≡ (if protocol == 1 then 16 else 32)
      → ((hmac sha256 (take 32 key) msg).0 ≡ 0)
        × (take (length sign) (hmac sha256 (take 32 key) msg).1 ≡ sign)
  unfolding verify
  verify_zero protocol key msg sign h len =
      let mac = (hmac sha256 (take 32 key) msg).1 in
      ground (arith, compare_zero 16 sign mac, compare_zero 32 sign mac)

  pub authorize_ok :
      (token : Session) (q : Request) (part : List ℕ)
      → authorize P token q part q.auth_param ≡ ok tt
      → Signed token q part × (has_bits token.permissions Permission.lbw ≡ true)
  unfolding authorize Signed
  authorize_ok token q part h = by_param q.auth_param refl
    where
      by_param :
          (o : Option (List ℕ))
          → q.auth_param ≡ o
          → Signed token q part × (has_bits token.permissions Permission.lbw ≡ true)
      by_param none e = ground arith
      by_param (some sign) e =
          by_result (verify P q.protocol token.token (verify_data P q.offset part) sign) refl
        where
          by_result :
              (r : Result ℕ)
              → verify P q.protocol token.token (verify_data P q.offset part) sign ≡ r
              → Signed token q part × (has_bits token.permissions Permission.lbw ≡ true)
          by_result (ok zero) er =
              let len : length sign ≡ (if q.protocol == 1 then 16 else 32) = ground (arith, e, h) in
              let (good, same) =
                verify_zero q.protocol token.token (verify_data P q.offset part) sign er len in
              ((sign, e, ground (arith, e, h), good, same), ground (arith, e, h, er))
          by_result (ok (suc r)) er = ground (arith, e, h, er)
          by_result (err c) er = ground (arith, e, h, er)
          by_result fault er = ground (arith, e, h, er)
