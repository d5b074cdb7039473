-- ===== src/LargeBlobs/Defs.antt =====
-- The handler `cbor_large_blobs`, in the order of its text: parameters, reading, writing.
use fido_touch.Prelude.{
  ℕ, zero, suc, ◌+◌, ◌-◌, ◌%◌, ◌^◌, min, Bool, not, ◌&&◌, ◌||◌, Option, none, some, List, [], ◌∷◌,
  ◌++◌, length, take, drop, replicate, ltb, ◌==◌, eq_bytes, has_bits, if◌then◌else◌,
}
use fido_touch.Exec.{Exec, Result, ok, err, fault, code, raise, lift, fail_if, ◌>>=◌, ◌>>◌}
use fido_touch.Platform.{Platform, Item, uint, bytes, map, item, end, sha256}
use fido_touch.Ctap.Err
use fido_touch.Ctap.Permission
use fido_touch.Ctap.Ef
use fido_touch.Cbor.{get_uint, get_bytes, map_result, parse_map}
use fido_touch.Protocol.{verify}
use fido_touch.Token.{Session}

abbrev pub max_fragment_length : ℕ
max_fragment_length = 1024 - 64

abbrev pub max_large_blob_size : ℕ
max_large_blob_size = 2048

abbrev pub uint64_max : ℕ
uint64_max = 2 ^ 64 - 1

-- The locals that the parameters are read into; an absent byte string is `none`.
pub record Request : Type 0 where
  pub get : Option ℕ
  pub set : Option (List ℕ)
  pub offset : ℕ
  pub len : ℕ
  pub auth_param : Option (List ℕ)
  pub protocol : ℕ

abbrev pub no_request : Request
no_request = record {
  get = none;
  set = none;
  offset = uint64_max;
  len = 0;
  auth_param = none;
  protocol = 0;
}

unfoldable pub put_field : ℕ → Item → Request → Option (Result Request)
put_field k v q =
    if k == 1
    then some (map_result (λ n. record q { get = some n }) (get_uint v))
    else if k == 2
    then some (map_result (λ b. record q { set = some b }) (get_bytes v))
    else if k == 3
    then some (map_result (λ n. record q { offset = n }) (get_uint v))
    else if k == 4
    then some (map_result (λ n. record q { len = n }) (get_uint v))
    else if k == 5
    then some (map_result (λ b. record q { auth_param = some b }) (get_bytes v))
    else if k == 6
    then some (map_result (λ n. record q { protocol = n }) (get_uint v))
    else none

-- The statics of the file, and the flash.
pub record Blobs (F : Type 0) : Type 0 where
  pub fs : F
  pub expected_length : ℕ
  pub expected_next_offset : ℕ
  pub temp : List ℕ

-- `memcpy(temp + at, part, length)`
unfoldable pub overwrite : ℕ → List ℕ → List ℕ → List ℕ
overwrite at part temp = take at temp ++ (part ++ drop (at + length part) temp)

-- `memset(temp_lba, 0, sizeof(temp_lba))`
unfoldable pub cleared : List ℕ
cleared = replicate max_large_blob_size 0

-- CBOR_CHECK on what the encoder returns
abbrev pub reply : {S : Type 0} → ℕ × List ℕ → S → Result (List ℕ) × S
reply (c, out) s = (if c == 0 then ok out else err (code c), s)

-- `MIN(get, file_get_size(ef_largeblob) - offset)`, where the difference wraps in 64 bits
unfoldable pub fragment_len : ℕ → ℕ → ℕ → ℕ
fragment_len count size offset = min count ((size + (2 ^ 64 - offset % 2 ^ 64)) % 2 ^ 64)

module _ (P : Platform) where
  open P use {Fs, contents, put, commit, encode, decode, digest, le32}

  -- What `pinUvAuthParam` signs.
  unfoldable pub verify_data : ℕ → List ℕ → List ℕ
  verify_data offset part =
      replicate 32 0xff ++ (0x0c ∷ 0 ∷ (le32 (offset % 2 ^ 32) ++ digest sha256 part))

  -- The answer to the signature of a fragment: whether it may be written.
  abbrev permitted : Session → Result ℕ → Result (Unit {0})
  permitted token (ok zero) =
      if has_bits token.permissions Permission.lbw then ok tt else err (code Err.pin_auth_invalid)
  permitted token (ok (suc r)) = err (code Err.pin_auth_invalid)
  permitted token (err e) = err e
  permitted token fault = fault

  -- The tests of the permission to write a fragment, with `pinUvAuthParam` if it is present.
  unfoldable pub authorize : Session → Request → List ℕ → Option (List ℕ) → Result (Unit {0})
  authorize token q part none = err (code Err.puat_required)
  authorize token q part (some sign) =
      if q.protocol == 0
      then err (code Err.missing_parameter)
      else if not (q.protocol == 1) && not (q.protocol == 2)
      then err (code Err.invalid_parameter)
      else if not (length sign == (if q.protocol == 1 then 16 else 32))
      then err (code Err.pin_auth_invalid)
      else permitted token (verify P q.protocol token.token (verify_data q.offset part) sign)

  -- The bytes of the file from `offset` on; reading past its end is a fault.
  unfoldable pub reply_fragment : ℕ → List ℕ → ℕ → Exec (Blobs Fs) (List ℕ)
  reply_fragment n stored offset s =
      if ltb 0 n && ltb (length stored) (offset + n)
      then (fault, s)
      else reply (encode (map (item (uint 1) (item (bytes (take n (drop offset stored))) (end 0)))))
          s

  -- `get`: a fragment of the stored array
  unfoldable pub read_fragment : ℕ → Request → Exec (Blobs Fs) (List ℕ)
  unfolding fragment_len reply_fragment
  read_fragment count q s =
      let stored = contents s.fs Ef.largeblob in
      (do
        fail_if (not (q.len == 0)) Err.invalid_parameter
        fail_if (ltb max_fragment_length count) Err.invalid_len
        fail_if (ltb (length stored) q.offset) Err.invalid_parameter
        reply_fragment (fragment_len count (length stored) q.offset) stored q.offset)
        s

  -- The first fragment names the length of the whole, and starts a transfer.
  unfoldable pub start : Request → Exec (Blobs Fs) (Unit {0})
  start q s =
      if q.offset == 0
      then (do
        fail_if (q.len == 0) Err.invalid_parameter
        fail_if (ltb max_large_blob_size q.len) Err.large_blob_storage_full
        fail_if (ltb q.len 17) Err.invalid_parameter
        λ s'. (ok tt, record s' { expected_length = q.len; expected_next_offset = 0 }))
          s
      else fail_if (not (q.len == 0)) Err.invalid_parameter s

  -- The buffer that a fragment is copied into: the first finds it cleared.
  unfoldable pub buffer : Request → Blobs Fs → List ℕ
  buffer q s = if q.offset == 0 then cleared else s.temp

  -- The fragment is copied behind those that are there.
  unfoldable pub collect : Request → List ℕ → Exec (Blobs Fs) (Unit {0})
  collect q part s =
      if ltb max_large_blob_size (s.expected_next_offset + length part) then (fault, s) else (
        ok tt,
        record s {
          temp = overwrite s.expected_next_offset part (buffer q s);
          expected_next_offset = (s.expected_next_offset + length part) % 2 ^ 64;
        },
      )

  -- The last 16 bytes of a whole array are the first of the SHA-256 of the rest. 17 bytes are not
  -- tested.
  unfoldable pub intact : ℕ → List ℕ → Bool
  intact len temp =
      not (ltb 17 len)
      || eq_bytes (take 16 (digest sha256 (take (len - 16) temp))) (take 16 (drop (len - 16) temp))

  -- Once all is there, the array is tested and stored; the code of `file_put_data` is not read.
  unfoldable pub finish : Exec (Blobs Fs) (List ℕ)
  unfolding intact
  finish s =
      if not (s.expected_next_offset == s.expected_length)
      then (ok [], s)
      else if ltb s.expected_length 16
      then (fault, s)
      else if not (intact s.expected_length s.temp)
      then (err (code Err.integrity_failure), s)
      else (
        ok [],
        record s { fs = commit (put s.fs Ef.largeblob (take s.expected_length s.temp)).1 },
      )

  -- `set`: a fragment of a new array
  unfoldable pub write_fragment : Session → List ℕ → Request → Exec (Blobs Fs) (List ℕ)
  write_fragment token part q = do
    fail_if (ltb max_fragment_length (length part)) Err.invalid_len
    start q
    λ s.
        (do
          fail_if (not (q.offset == s.expected_next_offset)) Err.invalid_seq
          lift (authorize token q part q.auth_param)
          fail_if (ltb s.expected_length ((q.offset + length part) % 2 ^ 64)) Err.invalid_parameter
          collect q part
          finish)
          s

  -- The command, once its parameters are read.
  unfoldable pub handle : Session → Request → Exec (Blobs Fs) (List ℕ)
  handle token q = if q.offset == uint64_max then raise Err.invalid_parameter else elim q.get [
    | none ↦ elim q.set [
      | none ↦ raise Err.invalid_parameter
      | some part ↦ write_fragment token part q
    ]
    | some count ↦ elim q.set [
      | none ↦ read_fragment count q
      | some part ↦ raise Err.invalid_parameter
    ]
  ]

  -- `cbor_large_blobs`
  unfoldable pub large_blobs : Session → List ℕ → Exec (Blobs Fs) (List ℕ)
  large_blobs token part = do
    q ← lift (parse_map 0 put_field no_request (decode part))
    handle token q
