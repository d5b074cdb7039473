-- ===== src/LargeBlobs/Tests.antt =====
-- Runs of the large blob command on files in memory.
use mathlib.Core.List.{flatten}
use fido_touch.Prelude.{
  ℕ, ◌≡◌, ◌≢◌, refl, ◌⊎◌, inl, take, true, false, none, some, List, [], ◌∷◌, length, replicate,
  length-replicate, arith, eq_bytes, has_bits,
}
use fido_touch.Exec.{ok, fault}
use fido_touch.Platform.{Platform, Items, Item, uint, bytes, map, item, end}
use fido_touch.Platform.Memory.{memory, pad, last_or}
use fido_touch.Ctap.Ef
use fido_touch.Ctap.Permission
use fido_touch.Token.{Session}
use fido_touch.LargeBlobs.Defs.{
  Blobs, Request, cleared, max_large_blob_size, large_blobs, start, collect, intact, write_fragment,
}
use fido_touch.LargeBlobs.Inv.{IsValid, large_blobs-IsValid}
use fido_touch.LargeBlobs.Accepted.{Signed, ChecksumHolds}
use fido_touch.LargeBlobs.Transfer.{write_fragment_stores}
use fido_touch.LargeBlobs.Upload.{upload, upload_stores}

abbrev entries : List (Item × Item) → Items
entries [] = end 0
entries ((k, v) ∷ kvs) = item k (item v (entries kvs))

-- Every message is read as the first fragment of 20 bytes, without a signature.
abbrev board : Platform
board = memory (λ b.
    item
      (map (entries ((uint 2, bytes (replicate 10 0)) ∷ (uint 3, uint 0) ∷ (uint 4, uint 20) ∷ [])))
      (end 0))

abbrev writer : Session
writer = record {
  token = replicate 32 9;
  in_use = true;
  permissions = 16;
  rp_id_hash = replicate 32 0;
  has_rp_id = false;
  user_present = false;
  user_verified = true;
  usage_timer = 5;
  initial_usage_time_limit = 5;
  user_present_time_limit = 0;
  epoch = 1;
}

abbrev idle : Blobs board.Fs
idle = record { fs = []; expected_length = 0; expected_next_offset = 0; temp = cleared }

length-cleared_lem : length cleared ≡ max_large_blob_size
unfolding cleared
length-cleared_lem = length-replicate {A = ℕ} max_large_blob_size 0

idle-IsValid : IsValid idle
idle-IsValid = record {
  buffer = length-cleared_lem;
  next = omega arith;
  expected = omega arith;
  least = ground arith;
}

large_blobs-IsValid_example :
    IsValid (large_blobs board writer (1 ∷ []) idle).1
    × ((large_blobs board writer (1 ∷ []) idle).0 ≢ fault)
large_blobs-IsValid_example = large_blobs-IsValid board writer (1 ∷ []) idle idle-IsValid

-- 4 bytes and a checksum that the digest of the memory platform gives
abbrev whole : List ℕ
whole = replicate 20 0

checked : intact board 20 whole ≡ true
unfolding intact pad last_or eq_bytes
checked = refl

upload_stores_example :
    let (r, s) = upload board 1 writer 20 0 (replicate 10 0 ∷ (replicate 10 0 ∷ [])) idle in
    (r ≡ ok []) × (board.contents s.fs Ef.largeblob ≡ whole)
unfolding flatten
upload_stores_example =
    upload_stores board 1 writer whole (inl refl) refl refl (λ k d. refl) (omega arith)
      (omega arith) checked (replicate 10 0) (replicate 10 0 ∷ []) idle length-cleared_lem
      (omega arith, omega arith, (omega arith, omega arith, tt)) refl refl

abbrev first : Request
first = record {
  get = none;
  set = some (replicate 10 0);
  offset = 0;
  len = 20;
  auth_param = some (replicate 32 0);
  protocol = 2;
}

write_fragment_stores_example :
    let s1 = (start board first idle).1 in
    let s2 = (collect board first (replicate 10 0) s1).1 in
    ((write_fragment board writer (replicate 10 0) first idle).1.fs ≡ idle.fs)
    ⊎ (Signed board writer first (replicate 10 0)
        × (has_bits writer.permissions Permission.lbw ≡ true)
        × (first.offset ≡ s1.expected_next_offset)
        × (s2.expected_next_offset ≡ s2.expected_length)
        × ChecksumHolds board s2.expected_length s2.temp
        × ((write_fragment board writer (replicate 10 0) first idle).1.fs
            ≡ board.commit (board.put idle.fs Ef.largeblob (take s2.expected_length s2.temp)).1))
write_fragment_stores_example = write_fragment_stores board writer (replicate 10 0) first idle
