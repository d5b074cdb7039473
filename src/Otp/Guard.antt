-- ===== src/Otp/Guard.antt =====
-- Who may change a slot: the commands that configure and update one.
pub mod Swap
pub mod Calculate
pub mod Command
use fido_touch.Prelude.{
  ℕ, ◌+◌, ◌<◌, ◌≤◌, ◌≡◌, ◌≢◌, refl, sym, subst, ap, ◌∙◌, ◌⊎◌, inl, inr, Bool, true, false, not,
  List, [], length, take, drop, replicate, ◌==◌, ltb, eq_bytes, eq_bytes_iff, if◌then◌else◌, arith,
  Bool-cases, ◌++◌, ◌||◌, if-elim, has_bits,
}
use fido_touch.Platform.{Platform, Picokeys, success}
use fido_touch.Ctap.Ef
use fido_touch.Otp.{Otp, OtpOf, Apdu, Sw, config_size, acc_code, aes_key, tkt_flags, cfg_flags}
use fido_touch.Otp.Slot.{slot_load, slot_store}
use fido_touch.Otp.Slot.Laws.{slot_store_ne}
use fido_touch.Otp.Slot.Migration.{slot_load-same, ==-cases}
use fido_touch.Otp.Status.{scan, otp_status, otp_status_ext}
use fido_touch.Otp.Configure.{
  slot_offset_valid, checked, stored, next_seq, write_slot, configure, store_update, update,
  updated,
}
use fido_touch.Otp.Swap.{
  Request, refuse, exchange, Exchange, swap_request, Loaded, empty, denied, held, load_for, opened,
  finish_swap, exchange_slots, exchange_with, run_request, swap,
}
use fido_touch.Otp.Calculate.{
  calculate, calculate_loaded, touch_and_respond, respond, with_status, ciphered, hmac_response,
  yubico_response,
}
use fido_touch.Otp.Flags
use fido_touch.Otp.Command.{cmd_otp}

-- The access code that a command presents
abbrev pub code_of : Request → List ℕ
code_of (refuse sw) = []
code_of (exchange e) = e.code

unfoldable pub presented : Bool → Apdu → List ℕ
presented is_otp apdu =
    if apdu.p1 == 0x06
    then code_of (swap_request is_otp apdu.bytes)
    else take 6 (drop config_size apdu.bytes)

module _ (P : Platform) where
  open P use {
    Fs, contents, put, create, delete, commit, contents-put_ne, contents-create, contents-commit,
    contents-delete,
  }

  -- The slot can be read, and its access code is `code`.
  unfoldable pub Opens : List ℕ → ℕ → Fs → Type 0
  Opens code fid fs = ((slot_load P fid fs).0 ≡ success) × (acc_code (slot_load P fid fs).1 ≡ code)

  pub otp_status-fs : (b : Bool) (s : OtpOf P) → s.scanned ≡ true → (otp_status P b s).1.fs ≡ s.fs
  unfolding otp_status scan
  otp_status-fs b s h = ground arith

  pub otp_status-scanned : (b : Bool) (s : OtpOf P) → (otp_status P b s).1.scanned ≡ true
  unfolding otp_status scan
  otp_status-scanned b s = ground arith

  stored_ne :
      (r : Picokeys × Fs) (s : OtpOf P) (j : ℕ)
      → s.scanned ≡ true
      → contents r.1 j ≡ contents s.fs j
      → contents (stored P r s).1.fs j ≡ contents s.fs j
  stored_ne (success, fs) s j hs h =
      ap (λ f. contents f j) (otp_status-fs s.is_otp (next_seq P (record s { fs = commit fs })) hs)
      ∙ contents-commit fs j
      ∙ h
  stored_ne (code, fs) s j hs h = ground arith

  write_slot_ne :
      (apdu : Apdu) (fid j : ℕ) (s : OtpOf P)
      → s.scanned ≡ true
      → fid ≢ j
      → contents (write_slot P apdu fid s).1.fs j ≡ contents s.fs j
  unfolding write_slot
  write_slot_ne apdu fid j s hs ne =
      let c = take config_size apdu.bytes in
      ground (
        arith,
        stored_ne (slot_store P fid (c ++ replicate 8 0) s.fs) s j hs
            (slot_store_ne P fid j (c ++ replicate 8 0) s.fs ne),
        otp_status-fs s.is_otp (next_seq P (record s { fs = delete s.fs fid })) hs,
        contents-delete s.fs fid j,
      )

  checked_opens :
      (apdu : Apdu) (j : ℕ) (l : Picokeys × List ℕ) (s : OtpOf P)
      (rest : List ℕ → OtpOf P → Sw × OtpOf P)
      → (contents (checked P apdu l s rest).1.fs j ≡ contents s.fs j)
        ⊎ ((l.0 ≡ success) × (acc_code l.1 ≡ take 6 (drop config_size apdu.bytes)))
  checked_opens apdu j (success, c) s rest =
      by_code (Bool-cases (eq_bytes (acc_code c) (take 6 (drop config_size apdu.bytes))))
    where
      by_code :
          (eq_bytes (acc_code c) (take 6 (drop config_size apdu.bytes)) ≡ true)
            ⊎ (eq_bytes (acc_code c) (take 6 (drop config_size apdu.bytes)) ≡ false)
          → (contents (checked P apdu (success, c) s rest).1.fs j ≡ contents s.fs j)
            ⊎ ((success ≡ success) × (acc_code c ≡ take 6 (drop config_size apdu.bytes)))
      by_code (inl e) =
          inr (refl, (eq_bytes_iff (acc_code c) (take 6 (drop config_size apdu.bytes))).0 e)
      by_code (inr e) = inl (rw e refl)
  checked_opens apdu j (code, c) s rest = inl refl

  checked_guards :
      (apdu : Apdu) (fid j : ℕ) (s : OtpOf P) (rest : List ℕ → OtpOf P → Sw × OtpOf P)
      → (fid ≢ j → (c : List ℕ) → contents (rest c s).1.fs j ≡ contents s.fs j)
      → (contents (checked P apdu (slot_load P fid s.fs) s rest).1.fs j ≡ contents s.fs j)
        ⊎ Opens (take 6 (drop config_size apdu.bytes)) j s.fs
  unfolding Opens
  checked_guards apdu fid j s rest hr =
      by_slot (==-cases fid j) (checked_opens apdu j (slot_load P fid s.fs) s rest)
    where
      by_slot :
          (fid ≡ j) ⊎ (fid ≢ j)
          → (contents (checked P apdu (slot_load P fid s.fs) s rest).1.fs j ≡ contents s.fs j)
            ⊎ Opens (take 6 (drop config_size apdu.bytes)) fid s.fs
          → (contents (checked P apdu (slot_load P fid s.fs) s rest).1.fs j ≡ contents s.fs j)
            ⊎ Opens (take 6 (drop config_size apdu.bytes)) j s.fs
      by_slot (inl e) (inl same) = inl same
      by_slot (inl e) (inr o) =
          inr (subst (λ k. Opens (take 6 (drop config_size apdu.bytes)) k s.fs) e o)
      by_slot (inr ne) o = inl (ground (arith, hr ne (slot_load P fid s.fs).1))

  pub Opens-create :
      (code : List ℕ) (fid j : ℕ) (fs : Fs) → Opens code j (create fs fid).1 → Opens code j fs
  unfolding Opens
  Opens-create code fid j fs o =
      ground (arith, slot_load-same P j fs (create fs fid).1 (contents-create fs fid j), o)

  pub configure_guarded :
      (apdu : Apdu) (s : OtpOf P) (j : ℕ)
      → s.scanned ≡ true
      → length (contents s.fs j) ≢ 0
      → (contents (configure P apdu s).1.fs j ≡ contents s.fs j)
        ⊎ Opens (take 6 (drop config_size apdu.bytes)) j s.fs
  unfolding configure
  configure_guarded apdu s j hs ne =
      let fid = (if apdu.p1 == 0x01 then Ef.otp_slot1 else Ef.otp_slot2) + apdu.p2 in
      let t = record s { fs = (create s.fs fid).1 } in
      ground (
        arith,
        contents-create s.fs fid j,
        contents-create s.fs fid fid,
        write_slot_ne apdu fid j t hs,
        checked_guards apdu fid j t (λ c. write_slot P apdu fid)
            (λ ne c. write_slot_ne apdu fid j t hs ne),
        Opens-create (take 6 (drop config_size apdu.bytes)) fid j s.fs,
        ==-cases fid j,
      )

  pub update_guarded :
      (apdu : Apdu) (s : OtpOf P) (j : ℕ)
      → s.scanned ≡ true
      → (contents (update P apdu s).1.fs j ≡ contents s.fs j)
        ⊎ Opens (take 6 (drop config_size apdu.bytes)) j s.fs
  unfolding update store_update
  update_guarded apdu s j hs =
      let fid = (if apdu.p1 == 0x04 then Ef.otp_slot1 else Ef.otp_slot2) + apdu.p2 in
      ground (
        arith,
        otp_status-fs s.is_otp s hs,
        checked_guards apdu fid j s (store_update P apdu fid) (λ ne c.
            stored_ne (slot_store P fid (updated c apdu.bytes ++ drop config_size c) s.fs) s j hs
              (slot_store_ne P fid j (updated c apdu.bytes ++ drop config_size c) s.fs ne)),
      )
