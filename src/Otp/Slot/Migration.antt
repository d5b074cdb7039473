-- ===== src/Otp/Slot/Migration.antt =====
-- What `otp_migrate_slots` makes of the slots.
use fido_touch.Prelude.{
  ℕ, zero, suc, ◌+◌, ◌≤◌, ◌<◌, ◌≡◌, ◌≢◌, refl, sym, subst, ap, ◌∙◌, ◌⊎◌, inl, inr, Bool, true,
  false, length, arith,
}
use fido_touch.Platform.{Platform, Picokeys, success}
use fido_touch.Ctap.Ef
use fido_touch.Otp.Slot.{
  is_secure, load_stored, slot_load, migrate_slot, migrate_from, next_slot, committed,
  migrate_slots,
}
use fido_touch.Otp.Slot.Laws.{Ciphers, slot_store_ne, slot_load-slot_store}

pub ==-cases : (a b : ℕ) → (a ≡ b) ⊎ (a ≢ b)
==-cases a b = ground arith

module _ (P : Platform) where
  open P use {Fs, contents, commit, contents-commit}

  -- The slot is empty or encrypted, and what it holds is loaded as before.
  unfoldable pub Kept : ℕ → Fs → Fs → Type 0
  Kept fid fs fs' =
      ((length (contents fs fid) ≡ 0) ⊎ (is_secure (contents fs' fid) ≡ true))
      × (slot_load P fid fs' ≡ slot_load P fid fs)

  pub slot_load-same :
      (fid : ℕ) (fs fs' : Fs)
      → contents fs' fid ≡ contents fs fid
      → slot_load P fid fs' ≡ slot_load P fid fs
  unfolding slot_load
  slot_load-same fid fs fs' e = ap (load_stored P fid) e

  Kept-same :
      (fid : ℕ) (a a' b b' : Fs)
      → contents a fid ≡ contents a' fid
      → contents b fid ≡ contents b' fid
      → Kept fid a b
      → Kept fid a' b'
  unfolding Kept slot_load
  Kept-same fid a a' b b' ea eb k = ground (arith, ea, eb)

  migrate_slot_ne :
      (fid j : ℕ) (changed : Bool) (fs : Fs)
      → fid ≢ j
      → contents (migrate_slot P fid changed fs).2 j ≡ contents fs j
  unfolding migrate_slot
  migrate_slot_ne fid j changed fs ne =
      ground (arith, slot_store_ne P fid j (slot_load P fid fs).1 fs)

  migrate_slot_self :
      (fid : ℕ) (changed : Bool) (fs : Fs)
      → Ciphers P
      → (migrate_slot P fid changed fs).0 ≡ success
      → Kept fid fs (migrate_slot P fid changed fs).2
  unfolding migrate_slot Kept
  migrate_slot_self fid changed fs c h =
      ground (arith, slot_load-slot_store P fid (slot_load P fid fs).1 fs c)

  migrate_from_below :
      (n fid j : ℕ) (changed : Bool) (fs : Fs)
      → j < fid
      → contents (migrate_from P n fid changed fs).2 j ≡ contents fs j
  unfolding migrate_from
  migrate_from_below zero fid j changed fs lt = refl
  migrate_from_below (suc n) fid j changed fs lt =
      let step = migrate_slot P fid changed fs in
      ground
        (arith, migrate_slot_ne fid j changed fs, migrate_from_below n (suc fid) j step.1 step.2)

  next_slot-success :
      (t : Picokeys × Bool × Fs) (rest : Bool → Fs → Picokeys × Bool × Fs)
      → t.0 ≡ success
      → next_slot P t rest ≡ rest t.1 t.2
  next_slot-success t rest h = ground (arith, h)

  committed_lem :
      (t : Picokeys × Bool × Fs) (j : ℕ)
      → ((committed P t).0 ≡ t.0) × (contents (committed P t).1 j ≡ contents t.2 j)
  committed_lem (code, changed, fs) j = ground (arith, contents-commit fs j)

  migrate_from-Kept :
      (n fid j : ℕ) (changed : Bool) (fs : Fs)
      → Ciphers P
      → (migrate_from P n fid changed fs).0 ≡ success
      → fid ≤ j
      → j < fid + n
      → Kept j fs (migrate_from P n fid changed fs).2
  unfolding migrate_from
  migrate_from-Kept zero fid j changed fs c h le lt = absurd (omega (arith, le, lt))
  migrate_from-Kept (suc n) fid j changed fs c h le lt =
      let step = migrate_slot P fid changed fs in
      let first : step.0 ≡ success = ground arith in
      let rest = migrate_from P n (suc fid) step.1 step.2 in
      let whole : migrate_from P (suc n) fid changed fs ≡ rest =
        next_slot-success step (migrate_from P n (suc fid)) first in
      let done : rest.0 ≡ success = sym (ap (λ t. t.0) whole) ∙ h in
      subst (λ t. Kept j fs t.2) (sym whole)
        (elim (==-cases fid j) [
          | inl e ↦
              Kept-same j fs fs step.2 rest.2 refl
                (sym (migrate_from_below n (suc fid) j step.1 step.2 (omega arith)))
                (subst (λ k. Kept k fs step.2) e (migrate_slot_self fid changed fs c first))
          | inr ne ↦
              Kept-same j step.2 fs rest.2 rest.2 (migrate_slot_ne fid j changed fs ne) refl
                (migrate_from-Kept n (suc fid) j step.1 step.2 c done (omega arith) (omega arith))
        ])

  -- After a migration that succeeds no slot is in the clear, and each is loaded as it was before.
  pub migrate_slots-Kept :
      (j : ℕ) (fs : Fs)
      → Ciphers P
      → (migrate_slots P fs).0 ≡ success
      → Ef.otp_slot1 ≤ j
      → j < Ef.otp_slot1 + 4
      → Kept j fs (migrate_slots P fs).1
  unfolding migrate_slots
  migrate_slots-Kept j fs c h le lt =
      let all = migrate_from P 4 Ef.otp_slot1 false fs in
      let (code, same) = committed_lem all j in
      Kept-same j fs fs all.2 (migrate_slots P fs).1 refl (sym same)
        (migrate_from-Kept 4 Ef.otp_slot1 j false fs c (sym code ∙ h) le lt)
