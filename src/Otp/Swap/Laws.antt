-- ===== src/Otp/Swap/Laws.antt =====
-- What the two slots hold after a swap.
use fido_touch.Prelude.{
  ℕ, ◌≡◌, ◌≢◌, refl, sym, ap, ◌∙◌, ◌⊎◌, inl, inr, Bool, true, false, List, [], length, ◌==◌,
  Bool-cases, ltb, ◌||◌, ◌+◌, arith,
}
use fido_touch.Platform.{Platform, Picokeys, success, file_not_found}
use fido_touch.Ctap.Ef
use fido_touch.Otp.{OtpOf, Sw, ok_sw}
use fido_touch.Otp.Slot.{load_stored, slot_load, slot_store}
use fido_touch.Otp.Slot.Laws.{Ciphers, slot_store_ne, slot_load-slot_store}
use fido_touch.Otp.Slot.Migration.{slot_load-same}
use fido_touch.Otp.Swap.{
  Exchange, Loaded, empty, denied, held, opened, load_for, fail_with, finish_swap, exchange_slots,
  exchange_with,
}
use fido_touch.Otp.Guard.Swap.{finish_swap-contents, opened-ne-empty, load_for-empty}

module _ (P : Platform) where
  open P use {Fs, contents, create, delete, contents-create, contents-delete}

  slot_load-empty :
      (fid : ℕ) (fs : Fs) → length (contents fs fid) ≡ 0 → slot_load P fid fs ≡ (file_not_found, [])
  unfolding slot_load load_stored
  slot_load-empty fid fs h = rw h refl

  opened-loads :
      (code : List ℕ) (l : Picokeys × List ℕ) (c : List ℕ)
      → opened code l ≡ held c
      → l ≡ (success, c)
  opened-loads code (success, d) c h = ground (arith, h)
  opened-loads code (r, d) c h = ground (arith, h)

  -- What a slot is loaded as, before the swap
  abbrev was : Loaded → Picokeys × List ℕ
  was (held c) = (success, c)
  was _ = (file_not_found, [])

  was-lem :
      (code : List ℕ) (fid : ℕ) (fs : Fs) (l : Loaded)
      → load_for P code fid fs ≡ l
      → ((sw : Sw) → l ≢ denied sw)
      → slot_load P fid fs ≡ was l
  unfolding load_for
  was-lem code fid fs (held c) h allowed =
      opened-loads code (slot_load P fid fs) c (ground (arith, h))
  was-lem code fid fs empty h allowed =
      slot_load-empty fid fs (ground (arith, h, opened-ne-empty P code (slot_load P fid fs)))
  was-lem code fid fs (denied sw) h allowed = absurd (allowed sw refl)

  fail_with-ok :
      (s : OtpOf P) (r : Picokeys × Fs) (rest : Fs → Sw × OtpOf P)
      → (fail_with P s r rest).0 ≡ ok_sw
      → (r.0 ≡ success) × (fail_with P s r rest ≡ rest r.1)
  fail_with-ok s (success, fs) rest h = (refl, refl)
  fail_with-ok s (code, fs) rest h = ground (arith, h)

  finish-load :
      (s : OtpOf P) (fs : Fs) (fid : ℕ)
      → s.scanned ≡ true
      → slot_load P fid (finish_swap P s fs).1.fs ≡ slot_load P fid fs
  finish-load s fs fid hs =
      slot_load-same P fid fs (finish_swap P s fs).1.fs (finish_swap-contents P s fs fid hs)

  slot_load-slot_store_ne :
      (fid j : ℕ) (d : List ℕ) (fs : Fs)
      → fid ≢ j
      → slot_load P j (slot_store P fid d fs).1 ≡ slot_load P j fs
  slot_load-slot_store_ne fid j d fs ne =
      slot_load-same P j fs (slot_store P fid d fs).1 (slot_store_ne P fid j d fs ne)

  -- The slots `a` and `b` hold what the other one held.
  abbrev Exchanged : ℕ → ℕ → Loaded → Loaded → Fs → Type 0
  Exchanged a b la lb fs = (slot_load P a fs ≡ was lb) × (slot_load P b fs ≡ was la)

  both_held :
      (a b : ℕ) (c d : List ℕ) (s : OtpOf P)
      → Ciphers P
      → s.scanned ≡ true
      → a ≢ b
      → (exchange_slots P a b (held c) (held d) s).0 ≡ ok_sw
      → Exchanged a b (held c) (held d) (exchange_slots P a b (held c) (held d) s).1.fs
  unfolding exchange_slots
  both_held a b c d s ciphers hs ne h =
      let f1 = (slot_store P a d s.fs).1 in
      let f2 = (slot_store P b c f1).1 in
      let (ok1, e1) =
        fail_with-ok s (slot_store P a d s.fs)
          (λ fs. fail_with P s (slot_store P b c fs) (finish_swap P s)) h in
      let (ok2, e2) =
        fail_with-ok s (slot_store P b c f1) (finish_swap P s) (sym (ap (λ r. r.0) e1) ∙ h) in
      let files = ap (λ r. r.1.fs) (e1 ∙ e2) in
      (
        ap (slot_load P a) files
            ∙ finish-load s f2 a hs
            ∙ slot_load-slot_store_ne b a c f1 (λ e. ne (sym e))
            ∙ (slot_load-slot_store P a d s.fs ciphers ok1).1,
        ap (slot_load P b) files
            ∙ finish-load s f2 b hs
            ∙ (slot_load-slot_store P b c f1 ciphers ok2).1,
      )

  first_held :
      (a b : ℕ) (c : List ℕ) (s : OtpOf P)
      → Ciphers P
      → s.scanned ≡ true
      → a ≢ b
      → (exchange_slots P a b (held c) empty s).0 ≡ ok_sw
      → Exchanged a b (held c) empty (exchange_slots P a b (held c) empty s).1.fs
  unfolding exchange_slots
  first_held a b c s ciphers hs ne h =
      let f1 = (create (delete s.fs a) b).1 in
      let f2 = (slot_store P b c f1).1 in
      let (ok1, e1) = fail_with-ok s (slot_store P b c f1) (finish_swap P s) h in
      let files = ap (λ r. r.1.fs) e1 in
      let gone : length (contents f1 a) ≡ 0 =
        ground (arith, contents-create (delete s.fs a) b a, contents-delete s.fs a a) in
      (
        ap (slot_load P a) files
            ∙ finish-load s f2 a hs
            ∙ slot_load-slot_store_ne b a c f1 (λ e. ne (sym e))
            ∙ slot_load-empty a f1 gone,
        ap (slot_load P b) files
            ∙ finish-load s f2 b hs
            ∙ (slot_load-slot_store P b c f1 ciphers ok1).1,
      )

  second_held :
      (a b : ℕ) (d : List ℕ) (s : OtpOf P)
      → Ciphers P
      → s.scanned ≡ true
      → a ≢ b
      → (exchange_slots P a b empty (held d) s).0 ≡ ok_sw
      → Exchanged a b empty (held d) (exchange_slots P a b empty (held d) s).1.fs
  unfolding exchange_slots
  second_held a b d s ciphers hs ne h =
      let f1 = (slot_store P a d s.fs).1 in
      let f2 = delete f1 b in
      let (ok1, e1) =
        fail_with-ok s (slot_store P a d s.fs) (λ fs. finish_swap P s (delete fs b)) h in
      let files = ap (λ r. r.1.fs) e1 in
      let gone : length (contents f2 b) ≡ 0 = ground (arith, contents-delete f1 b b) in
      let kept : contents f2 a ≡ contents f1 a = ground (arith, contents-delete f1 b a, ne) in
      (
        ap (slot_load P a) files
            ∙ finish-load s f2 a hs
            ∙ slot_load-same P a f1 f2 kept
            ∙ (slot_load-slot_store P a d s.fs ciphers ok1).1,
        ap (slot_load P b) files ∙ finish-load s f2 b hs ∙ slot_load-empty b f2 gone,
      )

  none_held :
      (a b : ℕ) (s : OtpOf P)
      → s.scanned ≡ true
      → length (contents s.fs b) ≡ 0
      → Exchanged a b empty empty (exchange_slots P a b empty empty s).1.fs
  unfolding exchange_slots
  none_held a b s hs nothing =
      let f1 = (create (delete s.fs a) b).1 in
      let gone : (k : ℕ) → length (contents s.fs k) ≡ 0 ⊎ (a ≡ k) → length (contents f1 k) ≡ 0 =
        λ k e. ground (arith, contents-create (delete s.fs a) b k, contents-delete s.fs a k, e) in
      (
        finish-load s f1 a hs ∙ slot_load-empty a f1 (gone a (inr refl)),
        finish-load s f1 b hs ∙ slot_load-empty b f1 (gone b (inl nothing)),
      )

  opened-ne-ok : (code : List ℕ) (l : Picokeys × List ℕ) → opened code l ≢ denied ok_sw
  opened-ne-ok code (success, d) h = ground (arith, h)
  opened-ne-ok code (r, d) h = ground (arith, h)

  load_for-ne-ok :
      (code : List ℕ) (fid : ℕ) (fs : Fs) (sw : Sw)
      → sw ≡ ok_sw
      → load_for P code fid fs ≢ denied sw
  unfolding load_for
  load_for-ne-ok code fid fs sw e h = ground (arith, opened-ne-ok code (slot_load P fid fs), e, h)

  before :
      (code : List ℕ) (a b : ℕ) (la lb : Loaded) (s : OtpOf P) (fs : Fs)
      → ((sw : Sw) → la ≢ denied sw)
      → ((sw : Sw) → lb ≢ denied sw)
      → load_for P code a s.fs ≡ la
      → load_for P code b s.fs ≡ lb
      → Exchanged a b la lb fs
      → (slot_load P a fs ≡ slot_load P b s.fs) × (slot_load P b fs ≡ slot_load P a s.fs)
  before code a b la lb s fs na nb ea eb (first, second) =
      (first ∙ sym (was-lem code b s.fs lb eb nb), second ∙ sym (was-lem code a s.fs la ea na))

  exchange_slots-Exchanged :
      (code : List ℕ) (a b : ℕ) (la lb : Loaded) (s : OtpOf P)
      → Ciphers P
      → s.scanned ≡ true
      → a ≢ b
      → load_for P code a s.fs ≡ la
      → load_for P code b s.fs ≡ lb
      → (exchange_slots P a b la lb s).0 ≡ ok_sw
      → (slot_load P a (exchange_slots P a b la lb s).1.fs ≡ slot_load P b s.fs)
        × (slot_load P b (exchange_slots P a b la lb s).1.fs ≡ slot_load P a s.fs)
  unfolding exchange_slots
  exchange_slots-Exchanged code a b (denied sw) lb s ciphers hs ne ea eb h =
      absurd (load_for-ne-ok code a s.fs sw h ea)
  exchange_slots-Exchanged code a b empty (denied sw) s ciphers hs ne ea eb h =
      absurd (load_for-ne-ok code b s.fs sw h eb)
  exchange_slots-Exchanged code a b (held c) (denied sw) s ciphers hs ne ea eb h =
      absurd (load_for-ne-ok code b s.fs sw h eb)
  exchange_slots-Exchanged code a b (held c) (held d) s ciphers hs ne ea eb h =
      before code a b (held c) (held d) s (exchange_slots P a b (held c) (held d) s).1.fs
        (λ sw e. ground (arith, e)) (λ sw e. ground (arith, e)) ea eb
        (both_held a b c d s ciphers hs ne h)
  exchange_slots-Exchanged code a b (held c) empty s ciphers hs ne ea eb h =
      before code a b (held c) empty s (exchange_slots P a b (held c) empty s).1.fs
        (λ sw e. ground (arith, e)) (λ sw e. ground (arith, e)) ea eb
        (first_held a b c s ciphers hs ne h)
  exchange_slots-Exchanged code a b empty (held d) s ciphers hs ne ea eb h =
      before code a b empty (held d) s (exchange_slots P a b empty (held d) s).1.fs
        (λ sw e. ground (arith, e)) (λ sw e. ground (arith, e)) ea eb
        (second_held a b d s ciphers hs ne h)
  exchange_slots-Exchanged code a b empty empty s ciphers hs ne ea eb h =
      before code a b empty empty s (exchange_slots P a b empty empty s).1.fs
        (λ sw e. ground (arith, e)) (λ sw e. ground (arith, e)) ea eb
        (none_held a b s hs (load_for-empty P code b s.fs eb))

  -- A swap that succeeds leaves in each of the two slots what the other one held, an empty slot included.
  pub exchange_with-exchanges :
      (e : Exchange) (s : OtpOf P)
      → Ciphers P
      → s.scanned ≡ true
      → (exchange_with P e s).0 ≡ ok_sw
      → (slot_load P e.first (exchange_with P e s).1.fs ≡ slot_load P e.second s.fs)
        × (slot_load P e.second (exchange_with P e s).1.fs ≡ slot_load P e.first s.fs)
  unfolding exchange_with
  exchange_with-exchanges e s ciphers hs h =
      let f1 = (create s.fs e.first).1 in
      let f2 = (create f1 e.second).1 in
      let same : (k : ℕ) → slot_load P k f2 ≡ slot_load P k s.fs = λ k.
        slot_load-same P k s.fs f2
          (contents-create f1 e.second k ∙ contents-create s.fs e.first k) in
      by_bounds same (Bool-cases (outside e))
    where
      outside : Exchange → Bool
      outside e =
          ltb (Ef.otp_slot1 + 3) e.first || ltb (Ef.otp_slot1 + 3) e.second || e.first == e.second

      by_bounds :
          ((k : ℕ) → slot_load P k (create (create s.fs e.first).1 e.second).1 ≡ slot_load P k s.fs)
          → (outside e ≡ true) ⊎ (outside e ≡ false)
          → (slot_load P e.first (exchange_with P e s).1.fs ≡ slot_load P e.second s.fs)
            × (slot_load P e.second (exchange_with P e s).1.fs ≡ slot_load P e.first s.fs)
      by_bounds same (inl b) = ground (arith, b, h)
      by_bounds same (inr b) =
          let f2 = (create (create s.fs e.first).1 e.second).1 in
          let t = record s { fs = f2 } in
          let ne : e.first ≢ e.second = λ q. ground (arith, b, q) in
          let run : exchange_with P e s
              ≡ exchange_slots P e.first e.second (load_for P e.code e.first f2)
                  (load_for P e.code e.second f2) t =
            rw b refl in
          let (x, y) =
            exchange_slots-Exchanged e.code e.first e.second (load_for P e.code e.first f2)
              (load_for P e.code e.second f2) t ciphers hs ne refl refl
              (sym (ap (λ r. r.0) run) ∙ h) in
          let files = ap (λ r. r.1.fs) run in
          (
            ap (slot_load P e.first) files ∙ x ∙ same e.second,
            ap (slot_load P e.second) files ∙ y ∙ same e.first,
          )
