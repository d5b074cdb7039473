-- ===== src/Platform/Memory.antt =====
-- A platform with files in memory, which shows that the laws can be met: an association list, no
-- write fails, and the cryptography is replaced by plain functions of bytes. The witnesses run on it.
use mathlib.Core.List.{reverse}
use fido_touch.Prelude.{
  ℕ, zero, suc, ◌+◌, ◌≤◌, ◌≡◌, ◌≢◌, refl, Bool, true, false, Option, none, some, List, [], ◌∷◌,
  ◌++◌, length, take, drop, length-drop, replicate, length-replicate, arith, leb, ◌==◌, ◌-◌, ◌*◌,
  ◌/◌, ◌%◌, ◌^◌, ◌<◌, if◌then◌else◌,
}
use fido_touch.Platform.{Platform, Items, success, Md, sha1, sha256, sha512}

abbrev pub Files : Type 0
Files = List (ℕ × List ℕ)

unfoldable pub read : Files → ℕ → List ℕ
read [] k = []
read ((j, d) ∷ fs) k = if j == k then d else read fs k

unfoldable pub has : Files → ℕ → Bool
has [] k = false
has ((j, d) ∷ fs) k = if j == k then true else has fs k

unfoldable pub write : Files → ℕ → List ℕ → Files
write [] k d = (k, d) ∷ []
write ((j, e) ∷ fs) k d = if j == k then (k, d) ∷ fs else (j, e) ∷ write fs k d

pub read-write :
    (fs : Files) (k j : ℕ) (d : List ℕ) → read (write fs k d) j ≡ (if k == j then d else read fs j)
unfolding read write
read-write [] k j d = refl
read-write ((i, e) ∷ fs) k j d = ground (arith, read-write fs k j d)

pub read-write_self : (fs : Files) (k : ℕ) (d : List ℕ) → read (write fs k d) k ≡ d
read-write_self fs k d = ground (arith, read-write fs k k d)

pub read-write_ne : (fs : Files) (k j : ℕ) (d : List ℕ) → k ≢ j → read (write fs k d) j ≡ read fs j
read-write_ne fs k j d h = ground (arith, read-write fs k j d)

abbrev pub size : Md → ℕ
size sha1 = 20
size sha256 = 32
size sha512 = 64

pub size_bounds : (m : Md) → (20 ≤ size m) × (size m ≤ 64)
size_bounds sha1 = omega arith
size_bounds sha256 = omega arith
size_bounds sha512 = omega arith

pub read-has : (fs : Files) (k : ℕ) → has fs k ≡ false → read fs k ≡ []
unfolding read has
read-has [] k h = refl
read-has ((j, d) ∷ fs) k h = ground (arith, read-has fs k)

-- A stand-in for a digest: the last byte, over and over.
unfoldable pub last_or : ℕ → List ℕ → ℕ
last_or d [] = d
last_or d (x ∷ xs) = last_or x xs

unfoldable pub pad : Md → List ℕ → List ℕ
unfolding last_or
pad m d = replicate (size m) (last_or 0 d)

pub length-pad : (m : Md) (d : List ℕ) → length (pad m d) ≡ size m
unfolding pad
length-pad m d = length-replicate (size m) (last_or 0 d)

-- Tags and lengths of one byte.
find_from : ℕ → ℕ → List ℕ → ℕ → Option (ℕ × ℕ)
find_from zero at d t = none
find_from (suc fuel) at (x ∷ n ∷ rest) t =
    let later = find_from fuel (at + 2 + n) (drop n rest) t in
    if leb n (length rest) then (if x == t then some (at + 2, n) else later) else none
find_from (suc fuel) at _ t = none

find_from_bound :
    (fuel at : ℕ) (d : List ℕ) (t i len : ℕ)
    → find_from fuel at d t ≡ some (i, len)
    → i + len ≤ at + length d
unfolding find_from
find_from_bound zero at d t i len h = cc
find_from_bound (suc fuel) at [] t i len h = cc
find_from_bound (suc fuel) at (x ∷ []) t i len h = cc
find_from_bound (suc fuel) at (x ∷ n ∷ rest) t i len h =
    ground (arith, find_from_bound fuel (at + 2 + n) (drop n rest) t i len, length-drop n rest)

unfoldable pub find : List ℕ → ℕ → Option (ℕ × ℕ)
unfolding find_from
find d t = find_from (length d) 0 d t

pub find_bound : (d : List ℕ) (t at len : ℕ) → find d t ≡ some (at, len) → at + len ≤ length d
unfolding find
find_bound d t at len h = omega (arith, find_from_bound (length d) 0 d t at len h)

walk_from : ℕ → List ℕ → List (ℕ × List ℕ)
walk_from (suc fuel) (x ∷ n ∷ rest) = (x, take n rest) ∷ walk_from fuel (drop n rest)
walk_from _ _ = []

unfoldable pub walk : List ℕ → List (ℕ × List ℕ)
unfolding walk_from
walk d = walk_from (length d) d

unfoldable pub little : ℕ → ℕ → List ℕ
little zero n = []
little (suc k) n = n % 256 ∷ little k (n / 256)

unfoldable pub from_little : List ℕ → ℕ
from_little [] = 0
from_little (x ∷ xs) = x + 256 * from_little xs

pub get_be64-be64_lem : (n : ℕ) → n < 2 ^ 64 → from_little (reverse (reverse (little 8 n))) ≡ n
unfolding little from_little
get_be64-be64_lem n h = omega arith

pub length_big : (n : ℕ) → length (reverse (little 8 n)) ≡ 8
unfolding little
length_big n = refl

-- The document that the reader finds is fixed by `doc`, whatever the bytes.
abbrev pub memory : (List ℕ → Items) → Platform
memory doc = record {
  Fs = Files;
  exists = has;
  contents = read;
  put = λ fs k d. (success, write fs k d);
  create = λ fs k. (true, fs);
  delete = λ fs k. write fs k [];
  commit = λ fs. fs;
  commit_sync = λ fs. (true, fs);
  contents-put = λ fs k d h. read-write_self fs k d;
  contents-put_ne = λ fs k j d h. read-write_ne fs k j d h;
  contents-exists = λ fs k h. read-has fs k h;
  contents-create = λ fs k j. refl;
  contents-delete = λ fs k j. read-write fs k j [];
  contents-commit = λ fs j. refl;
  contents-commit_sync = λ fs j. refl;
  decode = doc;
  encode = λ i. (0, []);
  find_tag = find;
  find_tag_bound = find_bound;
  walk = walk;
  format_len = λ n. n ∷ [];
  le32 = little 4;
  be16 = λ n. reverse (little 2 n);
  get_be16 = λ d. from_little (reverse d);
  le16 = little 2;
  get_le16 = from_little;
  be64 = λ n. reverse (little 8 n);
  get_be64 = λ d. from_little (reverse d);
  get_be64-be64 = get_be64-be64_lem;
  length-be64 = λ n. length_big n;
  Rng = ℕ;
  random = λ n seed. (replicate n seed, seed + 1);
  md_size = size;
  digest = pad;
  hmac = λ m k d. (0, pad m (k ++ d));
  length-hmac = λ m k d. length-pad m (k ++ d);
  md_size_bounds = size_bounds;
  hkdf = λ m salt k info n. (0, replicate n (last_or 0 k));
  aes_encrypt = λ k iv d. (0, d);
  aes_decrypt = λ k iv d. (0, d);
  length-aes_decrypt = λ k iv d. refl;
  encrypt_with_aad = λ k v d. (0, replicate 12 0 ++ d ++ replicate 16 0);
  decrypt_with_aad = λ k v d. (0, take (length d - 28) (drop 12 d));
  derive_kbase = replicate 32 1;
  serial_hash = replicate 32 2;
  derive_verifier = pad sha256;
  length-derive_verifier = λ h. length-pad sha256 h;
  derive_session = pad sha256;
  double_hash = pad sha256;
  hash_multi = pad sha256;
  otp_key_1 = none;
  read_binary = λ x. 0;
  Keypair = ℕ;
  generate = λ seed. (some seed, seed + 1);
  public = λ k. (replicate 32 k, replicate 32 k);
  agree = λ k x y. (0, replicate 32 k);
  blank_point = 1;
  exec_error = 2;
  memory_fatal = 3;
  pin_kdf_v2 = 2;
  aes_ecb = λ k d. (0, d);
  serial = 1 ∷ (2 ∷ (3 ∷ (4 ∷ [])));
  serial_str = replicate 16 48;
  app_exists = λ aid. false;
  scan_all = λ fs. fs;
}
