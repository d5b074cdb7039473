-- ===== src/LargeBlobs/Upload.antt =====
-- An array that a platform sends in fragments.
use mathlib.Core.List.{flatten}
use fido_touch.Prelude.{
  ℕ, ◌+◌, ◌≤◌, ◌<◌, ◌≡◌, refl, sym, ap, subst, ◌∙◌, ◌⊎◌, inl, inr, true, none, some, List, [], ◌∷◌,
  append-nil, append_assoc, ◌++◌, length, take, length-take, length-append, arith, ◌==◌,
  eq_bytes_refl, has_bits, if◌then◌else◌,
}
use fido_touch.Exec.{Exec, ok, pure, ◌>>◌}
use fido_touch.Platform.{Platform, success, sha256}
use fido_touch.Ctap.Permission
use fido_touch.Ctap.Ef
use fido_touch.Protocol.{verify}
use fido_touch.Token.{Session}
use fido_touch.LargeBlobs.Defs.{
  Blobs, Request, max_large_blob_size, max_fragment_length, verify_data, authorize, start, collect,
  intact, finish, write_fragment, handle,
}
use fido_touch.LargeBlobs.Transfer.{take-take, started, collected, finished, Receiving, IsReady}

-- Fragments that are neither empty nor too long.
abbrev pub AllFit : List (List ℕ) → Type 0
AllFit [] = Unit
AllFit (p ∷ ps) = (0 < length p) × (length p ≤ max_fragment_length) × AllFit ps

module _ (P : Platform) where
  open P use {Fs, contents, put, commit, hmac, length-hmac, md_size, digest, encode}

  -- What a platform that knows the token sends for the fragment `part` at `offset` of an array of
  -- `total` bytes: 16 bytes of the HMAC by protocol one, and the whole by protocol two.
  module _ (protocol : ℕ) (token : Session) (total : ℕ) where
    abbrev pub request : ℕ → List ℕ → Request
    request offset part = record {
      get = none;
      set = some part;
      offset = offset;
      len = if offset == 0 then total else 0;
      auth_param = some (
          let mac = (hmac sha256 (take 32 token.token) (verify_data P offset part)).1 in
          if protocol == 1 then take 16 mac else mac);
      protocol = protocol;
    }

    pub upload : ℕ → List (List ℕ) → Exec (Blobs Fs) (List ℕ)
    upload offset [] = pure []
    upload offset (part ∷ parts) = do
      handle P token (request offset part)
      upload (offset + length part) parts

  -- The signature of a platform that knows the token is accepted.
  authorize-request :
      (protocol : ℕ) (token : Session) (total offset : ℕ) (part : List ℕ)
      → (protocol ≡ 1) ⊎ (protocol ≡ 2)
      → has_bits token.permissions Permission.lbw ≡ true
      → md_size sha256 ≡ 32
      → (hmac sha256 (take 32 token.token) (verify_data P offset part)).0 ≡ 0
      → let q = request protocol token total offset part in
        authorize P token q part q.auth_param ≡ ok tt
  unfolding authorize verify
  authorize-request protocol token total offset part known may size good =
      let mac = hmac sha256 (take 32 token.token) (verify_data P offset part) in
      ground (
        arith,
        length-hmac sha256 (take 32 token.token) (verify_data P offset part),
        known,
        eq_bytes_refl (take 32 mac.1),
        eq_bytes_refl (take 16 mac.1),
        take-take 16 16 mac.1 (omega arith),
        length-take 16 mac.1,
      )

  arrived_start :
      (s : Blobs Fs) (total : ℕ) (got : List ℕ)
      → IsReady P s total got
      → (s1 : Blobs Fs) → s1.temp ≡ s.temp
      → (got ≡ []) ⊎ (take (length got) s1.temp ≡ got)
  arrived_start s total got (inl e) s1 h = inl e
  arrived_start s total got (inr r) s1 h = inr (rw h r.arrived)

  -- One fragment of an upload.
  fragment :
      (protocol : ℕ) (token : Session) (got part : List ℕ) (total : ℕ) (s : Blobs Fs)
      → (protocol ≡ 1) ⊎ (protocol ≡ 2)
      → has_bits token.permissions Permission.lbw ≡ true
      → md_size sha256 ≡ 32
      → (hmac sha256 (take 32 token.token) (verify_data P (length got) part)).0 ≡ 0
      → length s.temp ≡ max_large_blob_size
      → IsReady P s total got
      → 17 ≤ total
      → total ≤ max_large_blob_size
      → length part ≤ max_fragment_length
      → length got + length part ≤ total
      → (s' : Blobs Fs) × Receiving P s' total (got ++ part)
        × (s'.fs ≡ s.fs)
        × (handle P token (request protocol token total (length got) part) s ≡ finish P s')
  unfolding handle write_fragment
  fragment protocol token got part total s known may size good hb r h1 h2 small fits =
      let q = request protocol token total (length got) part in
      let s1 = (start P q s).1 in
      let st = started P q s total got r refl refl h1 h2 in
      let co =
        collected P q part s1 total got (ap length st.3 ∙ hb) (arrived_start s total got r s1 st.3)
          refl st.1 st.2 h2 fits in
      (
        (collect P q part s1).1,
        co.1,
        co.2 ∙ st.4,
        ground
            (arith, authorize-request protocol token total (length got) part known may size good),
      )

  finish_more :
      (s : Blobs Fs) → s.expected_next_offset < s.expected_length → finish P s ≡ (ok [], s)
  unfolding finish
  finish_more s h = ground arith

  module _ (protocol : ℕ) (token : Session) (whole : List ℕ)
      (known : (protocol ≡ 1) ⊎ (protocol ≡ 2))
      (may : has_bits token.permissions Permission.lbw ≡ true) (size : md_size sha256 ≡ 32)
      (good : (k d : List ℕ) → (hmac sha256 k d).0 ≡ 0) (least : 17 ≤ length whole)
      (most : length whole ≤ max_large_blob_size)
      (checked : intact P (length whole) whole ≡ true) where
    upload_rest :
        (parts : List (List ℕ)) (got part : List ℕ) (s : Blobs Fs)
        → length s.temp ≡ max_large_blob_size
        → IsReady P s (length whole) got
        → AllFit (part ∷ parts)
        → got ++ (part ++ flatten parts) ≡ whole
        → (put s.fs Ef.largeblob whole).0 ≡ success
        → let (r, s') = upload protocol token (length whole) (length got) (part ∷ parts) s in
          (r ≡ ok []) × (contents s'.fs Ef.largeblob ≡ whole)
    unfolding upload flatten
    upload_rest [] got part s hb r fit e done =
        let e' : got ++ part ≡ whole = ap (λ l. got ++ l) (sym (append-nil part)) ∙ e in
        let fits : length got + length part ≤ length whole =
          omega (arith, length-append got part, ap length e') in
        let fr =
          fragment protocol token got part (length whole) s known may size
            (good (take 32 token.token) (verify_data P (length got) part)) hb r least most fit.1
            fits in
        let fi =
          finished P fr.0 whole (subst (Receiving P fr.0 (length whole)) e' fr.1) least checked
            (rw fr.2 done) in
        ground (arith, fr.3, fi)
    upload_rest (next ∷ parts) got part s hb r fit e done =
        let e' : (got ++ part) ++ (next ++ flatten parts) ≡ whole =
          append_assoc got part (next ++ flatten parts) ∙ e in
        let fits : length (got ++ part) < length whole = omega (
          arith,
          length-append (got ++ part) (next ++ flatten parts),
          length-append next (flatten parts),
          ap length e',
        ) in
        let fr =
          fragment protocol token got part (length whole) s known may size
            (good (take 32 token.token) (verify_data P (length got) part)) hb r least most fit.1
            (omega (arith, length-append got part)) in
        let more = finish_more fr.0 (omega (arith, fr.1.expected, fr.1.next)) in
        let rest =
          upload_rest parts (got ++ part) next fr.0 fr.1.buffer (inr fr.1) fit.2 e'
            (rw fr.2 done) in
        ground (arith, fr.3, more, rest, length-append got part)

    -- The fragments of an array of 17 to 2048 bytes, whose checksum is right unless it has only 17, sent
    -- one after the other by a platform that knows a token with the permission, by protocol one or two,
    -- are all accepted, and leave exactly the array in the file, whatever was left of an earlier
    -- transfer. Each fragment is of 1 to 960 bytes; HMAC-SHA-256 succeeds with 32 bytes, and the flash
    -- takes the write.
    pub upload_stores :
        (part : List ℕ) (parts : List (List ℕ)) (s : Blobs Fs)
        → length s.temp ≡ max_large_blob_size
        → AllFit (part ∷ parts)
        → part ++ flatten parts ≡ whole
        → (put s.fs Ef.largeblob whole).0 ≡ success
        → let (r, s') = upload protocol token (length whole) 0 (part ∷ parts) s in
          (r ≡ ok []) × (contents s'.fs Ef.largeblob ≡ whole)
    upload_stores part parts s hb fit e done = upload_rest parts [] part s hb (inl refl) fit e done
