-- ===== src/Otp/Guard/Command.antt =====
-- Who may change a slot, over all commands.
use fido_touch.Prelude.{
  ℕ, ◌≡◌, ◌≢◌, refl, sym, subst, ap, ◌⊎◌, inl, inr, Bool, true, false, length, take, drop, ◌==◌,
  arith, ◌||◌, if-elim,
}
use fido_touch.Platform.{Platform}
use fido_touch.Otp.{OtpOf, Apdu, Sw, config_size}
use fido_touch.Otp.Status.{otp_status_ext}
use fido_touch.Otp.Swap.{swap_request, run_request, swap}
use fido_touch.Otp.Command.{cmd_otp}
use fido_touch.Otp.Guard.{code_of, presented, Opens, configure_guarded, update_guarded}
use fido_touch.Otp.Guard.Swap.{run_request_guarded}
use fido_touch.Otp.Guard.Calculate.{calculate-fs}

module _ (P : Platform) where
  open P use {
    Fs, contents, put, create, delete, commit, contents-put_ne, contents-create, contents-commit,
    contents-delete,
  }

  presented-swap :
      (is_otp : Bool) (apdu : Apdu)
      → (apdu.p1 == 0x06) ≡ true
      → presented is_otp apdu ≡ code_of (swap_request is_otp apdu.bytes)
  unfolding presented
  presented-swap is_otp apdu h = rw h refl

  presented-other :
      (is_otp : Bool) (apdu : Apdu)
      → (apdu.p1 == 0x06) ≡ false
      → presented is_otp apdu ≡ take 6 (drop config_size apdu.bytes)
  unfolding presented
  presented-other is_otp apdu h = rw h refl

  -- Once the files are scanned, a command changes a slot that holds something only if it presents the
  -- access code of that slot, with which the slot could be read.
  pub cmd_otp_guarded :
      (refused : Bool) (apdu : Apdu) (s : OtpOf P) (j : ℕ)
      → s.scanned ≡ true
      → length (contents s.fs j) ≢ 0
      → (contents (cmd_otp P refused apdu s).1.fs j ≡ contents s.fs j)
        ⊎ Opens P (presented s.is_otp apdu) j s.fs
  unfolding cmd_otp swap otp_status_ext
  cmd_otp_guarded refused apdu s j hs ne =
      if-elim Guarded (apdu.p1 == 0x01 || apdu.p1 == 0x03)
        (λ h. behind (ground (arith, h)) (configure_guarded P apdu s j hs ne))
        (λ _.
          if-elim Guarded (apdu.p1 == 0x04 || apdu.p1 == 0x05)
            (λ h. behind (ground (arith, h)) (update_guarded P apdu s j hs))
            (λ _.
              if-elim Guarded (apdu.p1 == 0x06)
                (λ h.
                  subst
                    (λ k.
                      (contents (run_request P (swap_request s.is_otp apdu.bytes) s).1.fs j
                        ≡ contents s.fs j)
                      ⊎ Opens P k j s.fs)
                    (sym (presented-swap s.is_otp apdu h))
                    (run_request_guarded P (swap_request s.is_otp apdu.bytes) s j hs ne))
                (λ _.
                  if-elim Guarded (apdu.p1 == 0x10) (λ _. inl refl)
                    (λ _.
                      if-elim Guarded (apdu.p1 == 0x13) (λ _. inl refl)
                        (λ _.
                          if-elim Guarded (apdu.p1 == 0x14) (λ _. inl refl)
                            (λ _.
                              if-elim Guarded
                                (apdu.p1 == 0x30
                                  || apdu.p1 == 0x38
                                  || apdu.p1 == 0x20
                                  || apdu.p1 == 0x28)
                                (λ _.
                                  inl (ap (λ f. contents f j) (calculate-fs P refused apdu s hs)))
                                (λ _. inl refl)))))))
    where
      Guarded : Sw × OtpOf P → Type 0
      Guarded r = (contents r.1.fs j ≡ contents s.fs j) ⊎ Opens P (presented s.is_otp apdu) j s.fs

      behind :
          {A : Type 0}
          → (apdu.p1 == 0x06) ≡ false
          → A ⊎ Opens P (take 6 (drop config_size apdu.bytes)) j s.fs
          → A ⊎ Opens P (presented s.is_otp apdu) j s.fs
      behind h (inl a) = inl a
      behind h (inr o) =
          inr (subst (λ k. Opens P k j s.fs) (sym (presented-other s.is_otp apdu h)) o)
