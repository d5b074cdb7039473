-- ===== src/Otp/Guard/Swap.antt =====
-- Who may change a slot by swapping it.
use fido_touch.Prelude.{
  ℕ, ◌≡◌, ◌≢◌, refl, sym, subst, ap, ◌∙◌, ◌⊎◌, inl, inr, true, false, List, length, eq_bytes,
  eq_bytes_iff, arith, Bool-cases,
}
use fido_touch.Platform.{Platform, Picokeys, success}
use fido_touch.Otp.{OtpOf, acc_code}
use fido_touch.Otp.Slot.{slot_load, slot_store}
use fido_touch.Otp.Slot.Laws.{slot_store_ne}
use fido_touch.Otp.Slot.Migration.{==-cases}
use fido_touch.Otp.Configure.{next_seq}
use fido_touch.Otp.Swap.{
  Request, refuse, exchange, Exchange, Loaded, empty, denied, held, load_for, opened, finish_swap,
  exchange_slots, exchange_with, run_request,
}
use fido_touch.Otp.Guard.{code_of, Opens, otp_status-fs, Opens-create}

module _ (P : Platform) where
  open P use {
    Fs, contents, put, create, delete, commit, contents-put_ne, contents-create, contents-commit,
    contents-delete,
  }

  opened-held :
      (code : List ℕ) (l : Picokeys × List ℕ) (c : List ℕ)
      → opened code l ≡ held c
      → (l.0 ≡ success) × (acc_code l.1 ≡ code)
  opened-held code (success, d) c h = by_code (Bool-cases (eq_bytes (acc_code d) code))
    where
      by_code :
          (eq_bytes (acc_code d) code ≡ true) ⊎ (eq_bytes (acc_code d) code ≡ false)
          → (success ≡ success) × (acc_code d ≡ code)
      by_code (inl e) = (refl, (eq_bytes_iff (acc_code d) code).0 e)
      by_code (inr e) = ground (arith, e, h)
  opened-held code (r, d) c h = ground (arith, h)

  pub opened-ne-empty : (code : List ℕ) (l : Picokeys × List ℕ) → opened code l ≢ empty
  opened-ne-empty code (success, d) h = ground (arith, h)
  opened-ne-empty code (r, d) h = ground (arith, h)

  load_for-held :
      (code : List ℕ) (fid : ℕ) (fs : Fs) (c : List ℕ)
      → load_for P code fid fs ≡ held c
      → Opens P code fid fs
  unfolding load_for Opens
  load_for-held code fid fs c h = ground (arith, opened-held code (slot_load P fid fs) c)

  pub load_for-empty :
      (code : List ℕ) (fid : ℕ) (fs : Fs)
      → load_for P code fid fs ≡ empty
      → length (contents fs fid) ≡ 0
  unfolding load_for
  load_for-empty code fid fs h = ground (arith, opened-ne-empty code (slot_load P fid fs))

  pub finish_swap-contents :
      (s : OtpOf P) (fs : Fs) (j : ℕ)
      → s.scanned ≡ true
      → contents (finish_swap P s fs).1.fs j ≡ contents fs j
  unfolding finish_swap
  finish_swap-contents s fs j hs = ground (
    arith,
    otp_status-fs P s.is_otp (next_seq P (record s { fs = commit fs })) hs,
    contents-commit fs j,
  )

  -- No slot but the two that are named changes, and none does where one of them is refused.
  exchange_slots_ne :
      (a b j : ℕ) (la lb : Loaded) (s : OtpOf P)
      → s.scanned ≡ true
      → a ≢ j
      → b ≢ j
      → contents (exchange_slots P a b la lb s).1.fs j ≡ contents s.fs j
  unfolding exchange_slots
  exchange_slots_ne a b j (denied sw) lb s hs na nb = refl
  exchange_slots_ne a b j empty (denied sw) s hs na nb = refl
  exchange_slots_ne a b j (held c) (denied sw) s hs na nb = refl
  exchange_slots_ne a b j (held c) (held d) s hs na nb =
      let f1 = (slot_store P a d s.fs).1 in
      ground (
        arith,
        slot_store_ne P a j d s.fs na,
        slot_store_ne P b j c f1 nb,
        finish_swap-contents s (slot_store P b c f1).1 j hs,
      )
  exchange_slots_ne a b j (held c) empty s hs na nb =
      let f1 = (create (delete s.fs a) b).1 in
      ground (
        arith,
        contents-delete s.fs a j,
        contents-create (delete s.fs a) b j,
        slot_store_ne P b j c f1 nb,
        finish_swap-contents s (slot_store P b c f1).1 j hs,
      )
  exchange_slots_ne a b j empty (held d) s hs na nb =
      let f1 = (slot_store P a d s.fs).1 in
      ground (
        arith,
        slot_store_ne P a j d s.fs na,
        contents-delete f1 b j,
        finish_swap-contents s (delete f1 b) j hs,
      )
  exchange_slots_ne a b j empty empty s hs na nb =
      let f1 = (create (delete s.fs a) b).1 in
      ground (
        arith,
        contents-delete s.fs a j,
        contents-create (delete s.fs a) b j,
        finish_swap-contents s f1 j hs,
      )

  -- What the two slots were loaded as says which of them may change.
  exchange_slots_guarded :
      (code : List ℕ) (a b j : ℕ) (la lb : Loaded) (s : OtpOf P)
      → load_for P code a s.fs ≡ la
      → load_for P code b s.fs ≡ lb
      → s.scanned ≡ true
      → length (contents s.fs j) ≢ 0
      → (contents (exchange_slots P a b la lb s).1.fs j ≡ contents s.fs j) ⊎ Opens P code j s.fs
  unfolding exchange_slots
  exchange_slots_guarded code a b j (denied sw) lb s ha hb hs ne = inl refl
  exchange_slots_guarded code a b j empty (denied sw) s ha hb hs ne = inl refl
  exchange_slots_guarded code a b j (held c) (denied sw) s ha hb hs ne = inl refl
  exchange_slots_guarded code a b j (held c) (held d) s ha hb hs ne = elim (==-cases a j) [
    | inl e ↦ inr (subst (λ k. Opens P code k s.fs) e (load_for-held code a s.fs c ha))
    | inr na ↦ elim (==-cases b j) [
      | inl e ↦ inr (subst (λ k. Opens P code k s.fs) e (load_for-held code b s.fs d hb))
      | inr nb ↦ inl (exchange_slots_ne a b j (held c) (held d) s hs na nb)
    ]
  ]
  exchange_slots_guarded code a b j (held c) empty s ha hb hs ne = elim (==-cases a j) [
    | inl e ↦ inr (subst (λ k. Opens P code k s.fs) e (load_for-held code a s.fs c ha))
    | inr na ↦ inl (
        exchange_slots_ne a b j (held c) empty s hs na
          (λ e. ne (ap (λ k. length (contents s.fs k)) (sym e) ∙ load_for-empty code b s.fs hb)))
  ]
  exchange_slots_guarded code a b j empty (held d) s ha hb hs ne = elim (==-cases b j) [
    | inl e ↦ inr (subst (λ k. Opens P code k s.fs) e (load_for-held code b s.fs d hb))
    | inr nb ↦ inl (
        exchange_slots_ne a b j empty (held d) s hs
          (λ e. ne (ap (λ k. length (contents s.fs k)) (sym e) ∙ load_for-empty code a s.fs ha)) nb)
  ]
  exchange_slots_guarded code a b j empty empty s ha hb hs ne = inl (
      exchange_slots_ne a b j empty empty s hs
        (λ e. ne (ap (λ k. length (contents s.fs k)) (sym e) ∙ load_for-empty code a s.fs ha))
        (λ e. ne (ap (λ k. length (contents s.fs k)) (sym e) ∙ load_for-empty code b s.fs hb)))

  exchange_with_guarded :
      (e : Exchange) (s : OtpOf P) (j : ℕ)
      → s.scanned ≡ true
      → length (contents s.fs j) ≢ 0
      → (contents (exchange_with P e s).1.fs j ≡ contents s.fs j) ⊎ Opens P e.code j s.fs
  unfolding exchange_with
  exchange_with_guarded e s j hs ne =
      let f1 = (create s.fs e.first).1 in
      let t = record s { fs = (create f1 e.second).1 } in
      let same : contents t.fs j ≡ contents s.fs j =
        contents-create f1 e.second j ∙ contents-create s.fs e.first j in
      let unchanged : length (contents t.fs j) ≢ 0 = ground (arith, same) in
      let g =
        exchange_slots_guarded e.code e.first e.second j (load_for P e.code e.first t.fs)
          (load_for P e.code e.second t.fs) t refl refl hs unchanged in
      ground (arith, same, back g)
    where
      f1 : Fs
      f1 = (create s.fs e.first).1

      back : {A : Type 0} → A ⊎ Opens P e.code j (create f1 e.second).1 → A ⊎ Opens P e.code j s.fs
      back (inl a) = inl a
      back (inr o) =
          inr (Opens-create P e.code e.first j s.fs (Opens-create P e.code e.second j f1 o))

  pub run_request_guarded :
      (r : Request) (s : OtpOf P) (j : ℕ)
      → s.scanned ≡ true
      → length (contents s.fs j) ≢ 0
      → (contents (run_request P r s).1.fs j ≡ contents s.fs j) ⊎ Opens P (code_of r) j s.fs
  run_request_guarded (refuse sw) s j hs ne = inl refl
  run_request_guarded (exchange e) s j hs ne = exchange_with_guarded e s j hs ne
