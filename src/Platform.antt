-- ===== src/Platform.antt =====
-- What the program takes from pico-keys-sdk, TinyCBOR and Mbed TLS, which are not in this
-- repository: the flash files, the CBOR reader and writer, the TLV reader, and the cryptography.
-- They are the fields of a record, and a theorem that needs a law of them takes it from there.
pub mod Memory
use fido_touch.Prelude.{
  ℕ, ◌+◌, ◌^◌, ◌≤◌, ◌<◌, ◌≡◌, ◌≢◌, Bool, true, false, Option, some, List, [], length, ◌==◌,
  if◌then◌else◌,
}

-- The values of CBOR as the reader presents them. A container lists what the cursor meets one after
-- the other; of a map, the keys and the values in turn.
mutual
  pub data Item : Type 0 where
    uint : ℕ → Item
    -- -1 - n
    nint : ℕ → Item
    bytes : List ℕ → Item
    text : List ℕ → Item
    bool : Bool → Item
    map : Items → Item
    array : Items → Item
    other : Item

  pub data Items : Type 0 where
    -- the end, with the code that leaving the container returns
    end : ℕ → Items
    item : Item → Items → Items
    -- the reader's error when the cursor is moved to this place
    broken : ℕ → Items

-- PICOKEYS_OK and the errors of the SDK that the program names
pub data Picokeys : Type 0 where
  success null_param wrong_data wrong_length file_not_found no_memory : Picokeys
  wrong_signature : Picokeys
  other_error : ℕ → Picokeys

abbrev pub is_success : Picokeys → Bool
is_success success = true
is_success _ = false

-- mbedtls_md_type_t
pub data Md : Type 0 where
  sha1 sha256 sha512 : Md

pub record Platform : Type 1 where
  -- The files, by their number. `contents` is empty where `file_has_data` is false.
  pub Fs : Type 0
  pub exists : Fs → ℕ → Bool
  pub contents : Fs → ℕ → List ℕ
  -- file_put_data, file_new, file_delete (or flash_clear_file), flash_commit and flash_commit_sync
  pub put : Fs → ℕ → List ℕ → Picokeys × Fs
  pub create : Fs → ℕ → Bool × Fs
  pub delete : Fs → ℕ → Fs
  pub commit : Fs → Fs
  pub commit_sync : Fs → Bool × Fs
  pub contents-put :
      (s : Fs) (k : ℕ) (d : List ℕ) → (put s k d).0 ≡ success → contents (put s k d).1 k ≡ d
  pub contents-put_ne :
      (s : Fs) (k j : ℕ) (d : List ℕ) → k ≢ j → contents (put s k d).1 j ≡ contents s j
  pub contents-exists : (s : Fs) (k : ℕ) → exists s k ≡ false → contents s k ≡ []
  pub contents-create : (s : Fs) (k j : ℕ) → contents (create s k).1 j ≡ contents s j
  pub contents-delete :
      (s : Fs) (k j : ℕ) → contents (delete s k) j ≡ (if k == j then [] else contents s j)
  pub contents-commit : (s : Fs) (j : ℕ) → contents (commit s) j ≡ contents s j
  pub contents-commit_sync : (s : Fs) (j : ℕ) → contents (commit_sync s).1 j ≡ contents s j
  -- cbor_parser_init with the cursor on the top value, and the encoder on a whole value (code, bytes)
  pub decode : List ℕ → Items
  pub encode : Item → ℕ × List ℕ
  -- tlv_find_tag: where the value of a tag begins, and its length; tlv_walk: tags and values
  pub find_tag : List ℕ → ℕ → Option (ℕ × ℕ)
  pub find_tag_bound :
      (d : List ℕ) (t at len : ℕ) → find_tag d t ≡ some (at, len) → at + len ≤ length d
  pub walk : List ℕ → List (ℕ × List ℕ)
  pub format_len : ℕ → List ℕ
  -- put_uint32_le, put_uint16_be and get_uint16_be, put_uint16_le and get_uint16_le, put_uint64_be and
  -- get_uint64_be
  pub le32 : ℕ → List ℕ
  pub be16 : ℕ → List ℕ
  pub get_be16 : List ℕ → ℕ
  pub le16 : ℕ → List ℕ
  pub get_le16 : List ℕ → ℕ
  pub be64 : ℕ → List ℕ
  pub get_be64 : List ℕ → ℕ
  pub get_be64-be64 : (n : ℕ) → n < 2 ^ 64 → get_be64 (be64 n) ≡ n
  pub length-be64 : (n : ℕ) → length (be64 n) ≡ 8
  -- random_fill_buffer
  pub Rng : Type 0
  pub random : ℕ → Rng → List ℕ × Rng
  -- mbedtls_md, mbedtls_md_hmac, mbedtls_hkdf (salt, key, info, length): return code and output
  pub md_size : Md → ℕ
  pub digest : Md → List ℕ → List ℕ
  pub hmac : Md → List ℕ → List ℕ → ℕ × List ℕ
  pub length-hmac : (m : Md) (k d : List ℕ) → length (hmac m k d).1 ≡ md_size m
  pub md_size_bounds : (m : Md) → (20 ≤ md_size m) × (md_size m ≤ 64)
  pub hkdf : Md → List ℕ → List ℕ → List ℕ → ℕ → ℕ × List ℕ
  -- aes_encrypt and aes_decrypt (key, IV) in CBC mode; encrypt_with_aad and decrypt_with_aad (key,
  -- version)
  pub aes_encrypt : List ℕ → List ℕ → List ℕ → ℕ × List ℕ
  pub aes_decrypt : List ℕ → List ℕ → List ℕ → ℕ × List ℕ
  pub length-aes_decrypt : (k iv d : List ℕ) → length (aes_decrypt k iv d).1 ≡ length d
  pub encrypt_with_aad : List ℕ → ℕ → List ℕ → ℕ × List ℕ
  pub decrypt_with_aad : List ℕ → ℕ → List ℕ → ℕ × List ℕ
  -- the derivations of crypto_utils
  pub derive_kbase : List ℕ
  pub serial_hash : List ℕ
  pub derive_verifier : List ℕ → List ℕ
  pub length-derive_verifier : (h : List ℕ) → length (derive_verifier h) ≡ 32
  pub derive_session : List ℕ → List ℕ
  pub double_hash : List ℕ → List ℕ
  pub hash_multi : List ℕ → List ℕ
  -- the device key of the one-time programmable memory, if there is one
  pub otp_key_1 : Option (List ℕ)
  -- mbedtls_mpi_read_binary, for its code
  pub read_binary : List ℕ → ℕ
  -- the key agreement: a new key pair, its point, and the shared secret with a point given by X and Y
  pub Keypair : Type 0
  pub generate : Rng → Option Keypair × Rng
  pub public : Keypair → List ℕ × List ℕ
  pub agree : Keypair → List ℕ → List ℕ → ℕ × List ℕ
  -- the code of writing the point of a context without a key pair
  pub blank_point : ℕ
  -- PICOKEYS_EXEC_ERROR and PICOKEYS_ERR_MEMORY_FATAL as numbers
  pub exec_error : ℕ
  pub memory_fatal : ℕ
  -- PIN_KDF_V2
  pub pin_kdf_v2 : ℕ
  -- mbedtls_aes_crypt_ecb on one block (key, block), with a key of 128 bits
  pub aes_ecb : List ℕ → List ℕ → ℕ × List ℕ
  -- pico_serial.id and pico_serial_str
  pub serial : List ℕ
  pub serial_str : List ℕ
  -- app_exists, for the identifier of an application
  pub app_exists : List ℕ → Bool
  -- scan_all, which reads the flash anew and creates the files that every device has
  pub scan_all : Fs → Fs
