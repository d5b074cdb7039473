-- ===== src/Otp/Slot.antt =====
-- How a slot is stored: encrypted under a key of the device, or in the clear as older firmware did.
pub mod Laws
pub mod Migration
use fido_touch.Prelude.{
  ℕ, zero, suc, ◌+◌, ◌-◌, ◌/◌, ◌%◌, Bool, true, false, not, ◌&&◌, ◌||◌, List, [], ◌∷◌, ◌++◌, length,
  take, drop, get_or, leb, ◌==◌, eq_bytes, if◌then◌else◌,
}
use fido_touch.Platform.{
  Platform, Picokeys, success, wrong_data, file_not_found, other_error, is_success, Md,
}
use fido_touch.Ctap.Ef
use fido_touch.Otp.{config_size, fit}

-- OTP_SLOT_PLAIN_MAX and OTP_SLOT_SECURE_OVERHEAD
abbrev pub plain_max : ℕ
plain_max = 60

abbrev pub overhead : ℕ
overhead = 34

-- "PKOTP", and the format behind it
abbrev pub magic : List ℕ
magic = 0x50 ∷ (0x4b ∷ (0x4f ∷ (0x54 ∷ (0x50 ∷ []))))

-- `otp_slot_is_secure`
unfoldable pub is_secure : List ℕ → Bool
is_secure d =
    leb (overhead + config_size) (length d) && eq_bytes (take 5 d) magic && get_or d 5 0 == 1

abbrev pub sized : ℕ → Bool
sized n = n == config_size || n == plain_max

module _ (P : Platform) where
  open P use {
    Fs, contents, put, commit, hkdf, serial_hash, derive_kbase, encrypt_with_aad, decrypt_with_aad,
    exec_error, pin_kdf_v2,
  }

  -- `otp_slot_derive_key`, with the code of the derivation
  unfoldable pub derive_key : ℕ → ℕ × List ℕ
  derive_key fid =
      hkdf Md.sha256 serial_hash derive_kbase
        (0x4f
          ∷ (0x54
              ∷ (0x50
                  ∷ (0x2f
                      ∷ (0x53 ∷ (0x4c ∷ (0x4f ∷ (0x54 ∷ (fid / 256 % 256 ∷ (fid % 256 ∷ []))))))))))
        32

  abbrev pub opened : ℕ → ℕ × List ℕ → Picokeys × List ℕ
  opened n (ret, plain) = if ret == 0 then (success, fit n plain) else (other_error exec_error, [])

  -- `otp_slot_load` of a stored slot: a code, and what was loaded
  unfoldable pub load_stored : ℕ → List ℕ → Picokeys × List ℕ
  unfolding is_secure derive_key
  load_stored fid d =
      if length d == 0
      then (file_not_found, [])
      else if not (is_secure d)
      then (if sized (length d) then (success, d) else (wrong_data, []))
      else if not (sized (length d - overhead))
      then (wrong_data, [])
      else if not ((derive_key fid).0 == 0)
      then (other_error exec_error, [])
      else opened (length d - overhead) (decrypt_with_aad (derive_key fid).1 pin_kdf_v2 (drop 6 d))

  -- `otp_slot_load`
  unfoldable pub slot_load : ℕ → Fs → Picokeys × List ℕ
  unfolding load_stored
  slot_load fid fs = load_stored fid (contents fs fid)

  -- The record that is stored, with the code of the encryption
  unfoldable pub sealed : ℕ → List ℕ → ℕ × List ℕ
  unfolding derive_key
  sealed fid plain =
      let (ret, enc) = encrypt_with_aad (derive_key fid).1 pin_kdf_v2 plain in
      (ret, fit (overhead + length plain) (magic ++ (1 ∷ enc)))

  -- `otp_slot_store`
  unfoldable pub slot_store : ℕ → List ℕ → Fs → Picokeys × Fs
  unfolding sealed
  slot_store fid plain fs =
      if not (sized (length plain))
      then (wrong_data, fs)
      else if not ((derive_key fid).0 == 0)
      then (other_error exec_error, fs)
      else if not ((sealed fid plain).0 == 0)
      then (other_error (sealed fid plain).0, fs)
      else put fs fid (sealed fid plain).1

  -- The code, whether a slot was written so far, and the files
  abbrev rewritten : Bool → Picokeys × Fs → Picokeys × Bool × Fs
  rewritten changed (code, fs) = (code, changed || is_success code, fs)

  abbrev pub migrated : ℕ → Picokeys × List ℕ → Bool → Bool → Fs → Picokeys × Bool × Fs
  migrated fid (success, plain) false changed fs = rewritten changed (slot_store fid plain fs)
  migrated fid (code, plain) _ changed fs = (code, changed, fs)

  -- One turn of the loop of `otp_migrate_slots`
  unfoldable pub migrate_slot : ℕ → Bool → Fs → Picokeys × Bool × Fs
  unfolding slot_load slot_store
  migrate_slot fid changed fs =
      if length (contents fs fid) == 0
      then (success, changed, fs)
      else migrated fid (slot_load fid fs) (is_secure (contents fs fid)) changed fs

  abbrev pub next_slot :
      Picokeys × Bool × Fs → (Bool → Fs → Picokeys × Bool × Fs) → Picokeys × Bool × Fs
  next_slot (success, changed, fs) rest = rest changed fs
  next_slot (code, changed, fs) rest = (code, changed, fs)

  unfoldable pub migrate_from : ℕ → ℕ → Bool → Fs → Picokeys × Bool × Fs
  unfolding migrate_slot
  migrate_from zero fid changed fs = (success, changed, fs)
  migrate_from (suc n) fid changed fs =
      next_slot (migrate_slot fid changed fs) (migrate_from n (suc fid))

  abbrev pub committed : Picokeys × Bool × Fs → Picokeys × Fs
  committed (success, true, fs) = (success, commit fs)
  committed (code, _, fs) = (code, fs)

  -- `otp_migrate_slots`
  unfoldable pub migrate_slots : Fs → Picokeys × Fs
  unfolding migrate_from
  migrate_slots fs = committed (migrate_from 4 Ef.otp_slot1 false fs)
