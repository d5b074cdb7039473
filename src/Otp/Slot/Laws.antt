-- ===== src/Otp/Slot/Laws.antt =====
-- Loading a slot that was stored, and what the migration makes of the slots.
use fido_touch.Prelude.{
  ℕ, ◌+◌, ◌-◌, ◌≤◌, ◌≡◌, ◌≢◌, refl, sym, subst, ap, ◌∙◌, ◌⊎◌, true, false, List, ◌∷◌, ◌++◌, length,
  take-append, drop, ◌==◌, eq_bytes, arith, replicate,
}
use fido_touch.Platform.{Platform, success}
use fido_touch.Otp.{fit}
use fido_touch.Otp.Slot.{
  magic, overhead, sized, is_secure, derive_key, load_stored, slot_load, sealed, slot_store,
}

pub fit_self : (n : ℕ) (d : List ℕ) → length d ≡ n → fit n d ≡ d
fit_self n d h = take-append d (replicate n 0) h

module _ (P : Platform) where
  open P use {
    Fs, contents, put, commit, encrypt_with_aad, decrypt_with_aad, exec_error, pin_kdf_v2,
    contents-put, contents-put_ne, contents-commit,
  }

  -- What the encryption of the SDK promises: 28 bytes more, and the plain text comes back.
  unfoldable pub Ciphers : Type 0
  Ciphers =
      ((k d : List ℕ) → length (encrypt_with_aad k pin_kdf_v2 d).1 ≡ 28 + length d)
      × ((k d : List ℕ)
          → decrypt_with_aad k pin_kdf_v2 (encrypt_with_aad k pin_kdf_v2 d).1 ≡ (0, d))

  sealed_lem :
      (fid : ℕ) (plain : List ℕ)
      → Ciphers
      → (sealed P fid plain).1
        ≡ magic ++ (1 ∷ (encrypt_with_aad (derive_key P fid).1 pin_kdf_v2 plain).1)
  unfolding sealed Ciphers
  sealed_lem fid plain c =
      fit_self (overhead + length plain)
        (magic ++ (1 ∷ (encrypt_with_aad (derive_key P fid).1 pin_kdf_v2 plain).1))
        (omega (arith, c.0 (derive_key P fid).1 plain))

  is_secure_lem : (enc : List ℕ) → 80 ≤ length enc → is_secure (magic ++ (1 ∷ enc)) ≡ true
  unfolding is_secure eq_bytes
  is_secure_lem enc h = ground arith

  sized-cases : (n : ℕ) → sized n ≡ true → (n ≡ 52) ⊎ (n ≡ 60)
  sized-cases n h = ground arith

  -- A slot that is encrypted, and decrypts to `plain`, is loaded as that.
  load_secure :
      (fid : ℕ) (d plain : List ℕ)
      → is_secure d ≡ true
      → length d ≡ overhead + length plain
      → sized (length plain) ≡ true
      → (derive_key P fid).0 ≡ 0
      → decrypt_with_aad (derive_key P fid).1 pin_kdf_v2 (drop 6 d) ≡ (0, plain)
      → load_stored P fid d ≡ (success, plain)
  unfolding load_stored
  load_secure fid d plain sec len hs hk back =
      let rest : length d - overhead ≡ length plain = omega (arith, len) in
      let some_data : (length d == 0) ≡ false = ground (arith, len) in
      rw (some_data, sec, rest, hs, hk, back, fit_self (length plain) plain refl)

  load_stored-sealed :
      (fid : ℕ) (plain : List ℕ)
      → Ciphers
      → sized (length plain) ≡ true
      → (derive_key P fid).0 ≡ 0
      → (is_secure (sealed P fid plain).1 ≡ true)
        × (load_stored P fid (sealed P fid plain).1 ≡ (success, plain))
  unfolding Ciphers
  load_stored-sealed fid plain c hs hk =
      let len = c.0 (derive_key P fid).1 plain in
      let enc = (encrypt_with_aad (derive_key P fid).1 pin_kdf_v2 plain).1 in
      let sec = is_secure_lem enc (ground (arith, len)) in
      subst (λ d. (is_secure d ≡ true) × (load_stored P fid d ≡ (success, plain)))
        (sym (sealed_lem fid plain c))
        (
          sec,
          load_secure fid (magic ++ (1 ∷ enc)) plain sec (omega (arith, len)) hs hk
              (c.1 (derive_key P fid).1 plain),
        )

  slot_store-put :
      (fid : ℕ) (plain : List ℕ) (fs : Fs)
      → (slot_store P fid plain fs).0 ≡ success
      → (sized (length plain) ≡ true)
        × ((derive_key P fid).0 ≡ 0)
        × ((put fs fid (sealed P fid plain).1).0 ≡ success)
        × ((slot_store P fid plain fs).1 ≡ (put fs fid (sealed P fid plain).1).1)
  unfolding slot_store
  slot_store-put fid plain fs h = ground arith

  -- Storing a slot changes no other file.
  pub slot_store_ne :
      (fid j : ℕ) (plain : List ℕ) (fs : Fs)
      → fid ≢ j
      → contents (slot_store P fid plain fs).1 j ≡ contents fs j
  unfolding slot_store
  slot_store_ne fid j plain fs ne = ground (arith, contents-put_ne fs fid j (sealed P fid plain).1)

  -- A slot that was stored is encrypted in the flash, and is loaded as it was, if the encryption keeps
  -- its promise.
  pub slot_load-slot_store :
      (fid : ℕ) (plain : List ℕ) (fs : Fs)
      → Ciphers
      → (slot_store P fid plain fs).0 ≡ success
      → (is_secure (contents (slot_store P fid plain fs).1 fid) ≡ true)
        × (slot_load P fid (slot_store P fid plain fs).1 ≡ (success, plain))
  unfolding slot_load
  slot_load-slot_store fid plain fs c h =
      let (hs, hk, hp, e) = slot_store-put fid plain fs h in
      let stored : contents (slot_store P fid plain fs).1 fid ≡ (sealed P fid plain).1 =
        ap (λ f. contents f fid) e ∙ contents-put fs fid (sealed P fid plain).1 hp in
      subst (λ d. (is_secure d ≡ true) × (load_stored P fid d ≡ (success, plain))) (sym stored)
        (load_stored-sealed fid plain c hs hk)
