-- ===== src/LargeBlobs/Inv.antt =====
-- What a large blob command keeps.
use fido_touch.Prelude.{
  ℕ, ◌+◌, ◌-◌, ◌%◌, ◌^◌, ◌≤◌, ◌≡◌, ◌≢◌, refl, ◌⊎◌, Option, none, some, List, ◌++◌, length, take,
  drop, length-take, length-drop, length-append, length-replicate, arith,
}
use fido_touch.Exec.{Result, ok, err, fault}
use fido_touch.Platform.{Platform, Item}
use fido_touch.Ctap.Ef
use fido_touch.Cbor.{parse_map}
use fido_touch.Cbor.Fault.{parse_map-ne-fault}
use fido_touch.Protocol.{verify}
use fido_touch.Token.{Session}
use fido_touch.LargeBlobs.Defs.{
  Blobs, Request, max_large_blob_size, overwrite, verify_data, authorize, fragment_len,
  reply_fragment, read_fragment, start, cleared, buffer, collect, finish, write_fragment, handle,
  large_blobs, put_field, no_request,
}

pub record IsValid {F : Type 0} (s : Blobs F) : Type 0 where
  pub buffer : length s.temp ≡ max_large_blob_size
  pub next : s.expected_next_offset ≤ s.expected_length
  pub expected : s.expected_length ≤ max_large_blob_size
  pub least : (s.expected_length ≡ 0) ⊎ (17 ≤ s.expected_length)

pub length-overwrite :
    (at : ℕ) (part temp : List ℕ)
    → at + length part ≤ length temp
    → length (overwrite at part temp) ≡ length temp
unfolding overwrite
length-overwrite at part temp h = omega (
  arith,
  length-append (take at temp) (part ++ drop (at + length part) temp),
  length-append part (drop (at + length part) temp),
  length-take at temp,
  length-drop (at + length part) temp,
)

length-cleared : length cleared ≡ max_large_blob_size
unfolding cleared
length-cleared = length-replicate {A = ℕ} max_large_blob_size 0

module _ (P : Platform) where
  open P use {
    Fs, contents, put, commit, contents-commit, contents-put, contents-put_ne, hmac, length-hmac,
    digest, decode,
  }

  verify-ne-fault :
      (protocol : ℕ) (key msg sign : List ℕ)
      → (protocol ≡ 1 → 16 ≤ length sign)
      → (protocol ≡ 2 → 32 ≤ length sign)
      → verify P protocol key msg sign ≢ fault
  unfolding verify
  verify-ne-fault protocol key msg sign h1 h2 = ground arith

  authorize-ne-fault :
      (token : Session) (q : Request) (part : List ℕ) (param : Option (List ℕ))
      → authorize P token q part param ≢ fault
  unfolding authorize
  authorize-ne-fault token q part none = ground arith
  authorize-ne-fault token q part (some sign) =
      ground (arith, verify-ne-fault q.protocol token.token (verify_data P q.offset part) sign)

  start-IsValid :
      (q : Request) (s : Blobs Fs)
      → IsValid s
      → IsValid (start P q s).1
        × ((start P q s).0 ≢ fault)
        × ((start P q s).0 ≡ ok tt → q.offset ≡ 0 → 17 ≤ (start P q s).1.expected_length)
  unfolding start
  start-IsValid q s v = ground arith

  pub length-buffer :
      (q : Request) (s : Blobs Fs)
      → length s.temp ≡ max_large_blob_size
      → length (buffer P q s) ≡ max_large_blob_size
  unfolding buffer
  length-buffer q s h = ground (arith, length-cleared)

  collect-IsValid :
      (q : Request) (part : List ℕ) (s : Blobs Fs)
      → IsValid s
      → s.expected_next_offset + length part ≤ s.expected_length
      → 17 ≤ s.expected_length
      → IsValid (collect P q part s).1
        × ((collect P q part s).0 ≢ fault)
        × (17 ≤ (collect P q part s).1.expected_length)
  unfolding collect
  collect-IsValid q part s v fits least = ground (
    arith,
    length-overwrite s.expected_next_offset part (buffer P q s),
    length-buffer q s v.buffer,
  )

  finish-IsValid :
      (s : Blobs Fs)
      → IsValid s
      → 17 ≤ s.expected_length
      → IsValid (finish P s).1 × ((finish P s).0 ≢ fault)
  unfolding finish
  finish-IsValid s v least = ground arith

  write_fragment-IsValid :
      (token : Session) (part : List ℕ) (q : Request) (s : Blobs Fs)
      → IsValid s
      → IsValid (write_fragment P token part q s).1 × ((write_fragment P token part q s).0 ≢ fault)
  unfolding write_fragment
  write_fragment-IsValid token part q s v =
      let s1 = (start P q s).1 in
      let s2 = (collect P q part s1).1 in
      ground (
        arith,
        start-IsValid q s v,
        authorize-ne-fault token q part q.auth_param,
        collect-IsValid q part s1,
        finish-IsValid s2,
      )

  fragment_len_bound :
      (count size offset : ℕ) → offset ≤ size → offset + fragment_len count size offset ≤ size
  unfolding fragment_len
  fragment_len_bound count size offset h =
      let rest : (size + (2 ^ 64 - offset % 2 ^ 64)) % 2 ^ 64 ≤ size - offset = omega arith in
      omega arith

  read_fragment-same :
      (count : ℕ) (q : Request) (s : Blobs Fs)
      → ((read_fragment P count q s).1 ≡ s) × ((read_fragment P count q s).0 ≢ fault)
  unfolding read_fragment reply_fragment
  read_fragment-same count q s =
      ground (arith, fragment_len_bound count (length (contents s.fs Ef.largeblob)) q.offset)

  put_field-ne-fault : (k : ℕ) (v : Item) (q : Request) → put_field k v q ≢ some fault
  unfolding put_field
  put_field-ne-fault k v q = ground arith

  handle-IsValid :
      (token : Session) (q : Request) (s : Blobs Fs)
      → IsValid s
      → IsValid (handle P token q s).1 × ((handle P token q s).0 ≢ fault)
  unfolding handle
  handle-IsValid token q s v = handle_by q.get q.set refl refl
    where
      handle_by :
          (g : Option ℕ) (d : Option (List ℕ))
          → q.get ≡ g
          → q.set ≡ d
          → IsValid (handle P token q s).1 × ((handle P token q s).0 ≢ fault)
      handle_by none none eg ed = ground arith
      handle_by none (some part) eg ed = ground (arith, write_fragment-IsValid token part q s v)
      handle_by (some count) none eg ed = ground (arith, read_fragment-same count q s)
      handle_by (some count) (some part) eg ed = ground arith

  -- From a well-formed transfer, every large blob command, whatever its bytes, keeps the transfer
  -- well-formed, writes only inside the 2048 bytes that it is collected in, and reads no byte past the
  -- end of the stored array.
  pub large_blobs-IsValid :
      (token : Session) (msg : List ℕ) (s : Blobs Fs)
      → IsValid s
      → IsValid (large_blobs P token msg s).1 × ((large_blobs P token msg s).0 ≢ fault)
  unfolding large_blobs
  large_blobs-IsValid token msg s v =
      by_request (parse_map 0 put_field no_request (decode msg)) refl
    where
      by_request :
          (r : Result Request)
          → parse_map 0 put_field no_request (decode msg) ≡ r
          → IsValid (large_blobs P token msg s).1 × ((large_blobs P token msg s).0 ≢ fault)
      by_request (ok q) e = ground (arith, handle-IsValid token q s v)
      by_request (err c) e = ground arith
      by_request fault e =
          absurd (parse_map-ne-fault 0 put_field put_field-ne-fault no_request (decode msg) e)
