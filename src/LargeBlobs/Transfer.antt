-- ===== src/LargeBlobs/Transfer.antt =====
-- What a command stores, and how the fragments of an array arrive.
use fido_touch.Prelude.{
  ℕ, zero, suc, ◌+◌, ◌-◌, ◌≤◌, ◌≡◌, refl, sym, ap, ◌∙◌, ◌⊎◌, true, List, [], ◌∷◌, append_assoc,
  ◌++◌, length, take, drop, length-append, arith, ◌==◌, has_bits, if◌then◌else◌,
}
use fido_touch.Exec.{ok}
use fido_touch.Platform.{Platform, success}
use fido_touch.Ctap.Permission
use fido_touch.Ctap.Ef
use fido_touch.Token.{Session}
use fido_touch.LargeBlobs.Inv.{length-overwrite, length-buffer}
use fido_touch.LargeBlobs.Accepted.{Signed, ChecksumHolds, intact-ChecksumHolds, authorize_ok}
use fido_touch.LargeBlobs.Defs.{
  Blobs, Request, max_large_blob_size, overwrite, start, collect, buffer, intact, finish,
  write_fragment,
}

-- Taking and dropping, as far as the prelude has no lemma on them
take-length : (xs ys : List ℕ) → take (length xs) (xs ++ ys) ≡ xs
take-length [] ys = refl
take-length (x ∷ xs) ys = ap (λ zs. x ∷ zs) (take-length xs ys)

take_exact : (n : ℕ) (xs ys : List ℕ) → n ≡ length xs → take n (xs ++ ys) ≡ xs
take_exact n xs ys e = rw e (take-length xs ys)

take-nil : (n : ℕ) → take {A = ℕ} n [] ≡ []
take-nil zero = refl
take-nil (suc n) = refl

-- Writing behind what is there extends it.
pub take-overwrite :
    (got part temp : List ℕ) (n : ℕ)
    → take (length got) temp ≡ got
    → n ≡ length got + length part
    → take n (overwrite (length got) part temp) ≡ got ++ part
unfolding overwrite
take-overwrite got part temp n h e =
    rw (h, ← append_assoc got part (drop (length got + length part) temp))
      (take_exact n (got ++ part) (drop (length got + length part) temp)
        (e ∙ sym (length-append got part)))

take_count : (m n : ℕ) (xs : List ℕ) → m ≡ n → take m xs ≡ take n xs
take_count m n xs h = ap (λ k. take k xs) h

pub take-take : (k n : ℕ) (xs : List ℕ) → k ≤ n → take k (take n xs) ≡ take k xs
take-take zero n xs h = refl
take-take (suc k) zero xs h = absurd (omega arith)
take-take (suc k) (suc n) [] h = refl
take-take (suc k) (suc n) (x ∷ xs) h = ap (λ ys. x ∷ ys) (take-take k n xs (omega arith))

drop-take : (k n : ℕ) (xs : List ℕ) → drop k (take n xs) ≡ take (n - k) (drop k xs)
drop-take zero n xs = take_count _ _ xs (omega arith)
drop-take (suc k) zero xs = sym (take_count (0 - suc k) 0 (drop (suc k) xs) (omega arith))
drop-take (suc k) (suc n) [] = sym (take-nil (suc n - suc k))
drop-take (suc k) (suc n) (x ∷ xs) = drop-take k n xs ∙ take_count _ _ (drop k xs) (omega arith)

module _ (P : Platform) where
  open P use {
    Fs, contents, put, commit, contents-commit, contents-put, contents-put_ne, hmac, length-hmac,
    md_size, digest, encode,
  }

  start_same : (q : Request) (s : Blobs Fs) → (start P q s).1.fs ≡ s.fs
  unfolding start
  start_same q s = ground arith

  collect_same : (q : Request) (part : List ℕ) (s : Blobs Fs) → (collect P q part s).1.fs ≡ s.fs
  unfolding collect
  collect_same q part s = ground arith

  finish_stores :
      (s : Blobs Fs)
      → ((finish P s).1.fs ≡ s.fs)
        ⊎ ((s.expected_next_offset ≡ s.expected_length)
            × ChecksumHolds P s.expected_length s.temp
            × ((finish P s).1.fs
                ≡ commit (put s.fs Ef.largeblob (take s.expected_length s.temp)).1))
  unfolding finish
  finish_stores s = ground (arith, intact-ChecksumHolds P s.expected_length s.temp)

  -- A fragment changes the flash only if its `pinUvAuthParam` is the HMAC of its offset and digest under
  -- the token, the token has the permission to write large blobs, and it comes next and last of its
  -- array. Then just the array that was collected is stored; its last 16 bytes are those of its
  -- digest, unless it has only 17 bytes.
  pub write_fragment_stores :
      (token : Session) (part : List ℕ) (q : Request) (s : Blobs Fs)
      → let s1 = (start P q s).1 in
        let s2 = (collect P q part s1).1 in
        ((write_fragment P token part q s).1.fs ≡ s.fs)
        ⊎ (Signed P token q part
            × (has_bits token.permissions Permission.lbw ≡ true)
            × (q.offset ≡ s1.expected_next_offset)
            × (s2.expected_next_offset ≡ s2.expected_length)
            × ChecksumHolds P s2.expected_length s2.temp
            × ((write_fragment P token part q s).1.fs
                ≡ commit (put s.fs Ef.largeblob (take s2.expected_length s2.temp)).1))
  unfolding write_fragment
  write_fragment_stores token part q s =
      let s1 = (start P q s).1 in
      let s2 = (collect P q part s1).1 in
      ground (
        arith,
        start_same q s,
        collect_same q part s1,
        authorize_ok P token q part,
        finish_stores s2,
      )

  intact-take : (n : ℕ) (temp : List ℕ) → 17 ≤ n → intact P n (take n temp) ≡ intact P n temp
  unfolding intact
  intact-take n temp h = rw (
    take-take (n - 16) n temp (omega arith),
    drop-take (n - 16) n temp,
    sixteen,
    take-take 16 16 (drop (n - 16) temp) (omega arith),
  )
    where
      sixteen : n - (n - 16) ≡ 16
      sixteen = omega arith

  -- `got` has arrived, of an array of `total` bytes.
  pub record Receiving (s : Blobs Fs) (total : ℕ) (got : List ℕ) : Type 0 where
    pub buffer : length s.temp ≡ max_large_blob_size
    pub expected : s.expected_length ≡ total
    pub next : s.expected_next_offset ≡ length got
    pub arrived : take (length got) s.temp ≡ got

  abbrev pub IsReady : Blobs Fs → ℕ → List ℕ → Type 0
  IsReady s total got = (got ≡ []) ⊎ Receiving s total got

  pub started :
      (q : Request) (s : Blobs Fs) (total : ℕ) (got : List ℕ)
      → IsReady s total got
      → q.offset ≡ length got
      → q.len ≡ (if length got == 0 then total else 0)
      → 17 ≤ total
      → total ≤ max_large_blob_size
      → ((start P q s).0 ≡ ok tt)
        × ((start P q s).1.expected_length ≡ total)
        × ((start P q s).1.expected_next_offset ≡ length got)
        × ((start P q s).1.temp ≡ s.temp)
        × ((start P q s).1.fs ≡ s.fs)
  unfolding start
  started q s total got r ho hl h1 h2 = ground arith

  take-buffer :
      (q : Request) (s : Blobs Fs) (got : List ℕ)
      → (got ≡ []) ⊎ (take (length got) s.temp ≡ got)
      → q.offset ≡ length got
      → take (length got) (buffer P q s) ≡ got
  unfolding buffer
  take-buffer q s [] r h = refl
  take-buffer q s (x ∷ got) r h = ground arith

  pub collected :
      (q : Request) (part : List ℕ) (s : Blobs Fs) (total : ℕ) (got : List ℕ)
      → length s.temp ≡ max_large_blob_size
      → (got ≡ []) ⊎ (take (length got) s.temp ≡ got)
      → q.offset ≡ length got
      → s.expected_length ≡ total
      → s.expected_next_offset ≡ length got
      → total ≤ max_large_blob_size
      → length got + length part ≤ total
      → ((collect P q part s).0 ≡ ok tt)
        × Receiving (collect P q part s).1 total (got ++ part)
        × ((collect P q part s).1.fs ≡ s.fs)
  unfolding collect
  collected q part s total got hb r ho he hn h2 fits = ground (
    arith,
    length-buffer P q s hb,
    take-overwrite got part (buffer P q s) (length (got ++ part)) (take-buffer q s got r ho),
    length-overwrite (length got) part (buffer P q s),
    length-append got part,
  )

  -- The last fragment stores the array.
  pub finished :
      (s : Blobs Fs) (whole : List ℕ)
      → Receiving s (length whole) whole
      → 17 ≤ length whole
      → intact P (length whole) whole ≡ true
      → (put s.fs Ef.largeblob whole).0 ≡ success
      → ((finish P s).0 ≡ ok []) × (contents (finish P s).1.fs Ef.largeblob ≡ whole)
  unfolding finish
  finished s whole r least good done = ground (
    arith,
    intact-take (length whole) s.temp least,
    r.arrived,
    contents-commit (put s.fs Ef.largeblob whole).1 Ef.largeblob,
    contents-put s.fs Ef.largeblob whole done,
  )
