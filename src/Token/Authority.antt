-- ===== src/Token/Authority.antt =====
-- What a token may be used for, within one epoch.
use native.Mathlib.Decide.{ℕ_discrete}
use fido_touch.Prelude.{
  ℕ, suc, ◌*◌, ◌≤◌, ◌<◌, ◌≡◌, refl, sym, ◌∙◌, ap, ◌⊎◌, inl, inr, Bool, true, ◌&&◌, List, [], ◌∷◌,
  length, arith,
}
use fido_touch.Authorization.{invalidate}
use fido_touch.Authorization.Epoch.{IsEpoch, cycle, advance, advance-ne}
use fido_touch.Token.{
  Session, begin_using, clear_user_present, clear_user_verified, clear_permissions_except_lbw,
  stop_using, get_user_present, get_user_verified, tick, reset_token, issue, bind_rp,
}

-- The operations on a token, in any order that the handlers call them.
pub data Op : Type 0 where
  begin : Bool → ℕ → Op
  clear_present clear_verified keep_lbw stop read_present read_verified : Op
  at_time : ℕ → Op
  reset : List ℕ → Op
  give : List ℕ → ℕ → ℕ → Bool → List ℕ → Op
  bind : List ℕ → Op

unfoldable pub step : Op → Session → Session
step (begin present now) s = begin_using present now s
step clear_present s = clear_user_present s
step clear_verified s = clear_user_verified s
step keep_lbw s = clear_permissions_except_lbw s
step stop s = stop_using s
step read_present s = (get_user_present s).1
step read_verified s = (get_user_verified s).1
step (at_time now) s = tick now s
step (reset bytes) s = reset_token bytes s
step (give bytes now permissions has_rp rp) s = issue bytes now permissions has_rp rp s
step (bind rp) s = bind_rp rp s

unfoldable pub run : List Op → Session → Session
unfolding step
run [] s = s
run (op ∷ ops) s = run ops (step op s)

-- `t` may be used for nothing that `s` may not be used for.
pub record Within (s t : Session) : Type 0 where
  pub token : t.token ≡ s.token
  pub in_use : t.in_use ≡ s.in_use
  pub permissions : t.permissions ≡ s.permissions
  pub present : (t.in_use && t.user_present) ≡ (s.in_use && s.user_present)
  pub verified : (t.in_use && t.user_verified) ≡ (s.in_use && s.user_verified)
  pub bound : s.has_rp_id ≡ true → (t.has_rp_id ≡ true) × (t.rp_id_hash ≡ s.rp_id_hash)

pub Within-refl : (s : Session) → Within s s
Within-refl s = record {
  token = refl;
  in_use = refl;
  permissions = refl;
  present = refl;
  verified = refl;
  bound = λ h. (h, refl);
}

pub Within-trans : {s t u : Session} → Within s t → Within t u → Within s u
Within-trans h k = record {
  token = k.token ∙ h.token;
  in_use = k.in_use ∙ h.in_use;
  permissions = k.permissions ∙ h.permissions;
  present = k.present ∙ h.present;
  verified = k.verified ∙ h.verified;
  bound = λ b. let kb = k.bound (h.bound b).0 in (kb.0, kb.1 ∙ (h.bound b).1);
}

-- One operation makes at most two invalidations, and none only where it gives no new authority.
abbrev Moves : Session → Session → Type 0
Moves s t =
    (t.epoch ≡ s.epoch) × Within s t
    ⊎ ((t.epoch ≡ invalidate s.epoch) ⊎ (t.epoch ≡ invalidate (invalidate s.epoch)))

clear_user_present-Moves : (s : Session) → Moves s (clear_user_present s)
unfolding clear_user_present
clear_user_present-Moves s = ground arith

stop_using-Moves : (s : Session) → Moves s (stop_using s)
unfolding stop_using
stop_using-Moves s = ground arith

tick-Moves : (now : ℕ) (s : Session) → Moves s (tick now s)
unfolding tick
tick-Moves now s = ground (arith, stop_using-Moves s, clear_user_present-Moves s)

step-Moves : (op : Op) (s : Session) → Moves s (step op s)
unfolding step begin_using clear_user_verified clear_permissions_except_lbw get_user_present
    get_user_verified reset_token issue bind_rp
step-Moves clear_present s = clear_user_present-Moves s
step-Moves stop s = stop_using-Moves s
step-Moves (at_time now) s = tick-Moves now s
step-Moves _ s = ground arith

-- After some number of invalidations, at most two for each operation; none means no new authority.
run-advance :
    (ops : List Op) (s : Session)
    → (k : ℕ) × (k ≤ 2 * length ops)
      × ((run ops s).epoch ≡ advance k s.epoch)
      × (k ≡ 0 → Within s (run ops s))
unfolding run advance
run-advance [] s = (0, omega arith, refl, λ _. Within-refl s)
run-advance (op ∷ ops) s = elim (step-Moves op s) [
  | inl (same, w) ↦
      let (k, le, e, keep) = run-advance ops (step op s) in
      (k, omega arith, e ∙ ap (advance k) same, λ z. Within-trans w (keep z))
  | inr (inl one) ↦
      let (k, le, e, keep) = run-advance ops (step op s) in
      (suc k, omega arith, e ∙ ap (advance k) one, λ z. absurd (omega arith))
  | inr (inr two) ↦
      let (k, le, e, keep) = run-advance ops (step op s) in
      (suc (suc k), omega arith, e ∙ ap (advance k) two, λ z. absurd (omega arith))
]

-- If the epoch is the one it was, then after any operations in any order, as long as they are too
-- few to run through all epochs, the token may be used for nothing that it could not be used for
-- before: the same token, permissions and flags, and the relying party that it was bound to.
pub same_epoch-Within :
    (ops : List Op) (s : Session)
    → IsEpoch s.epoch
    → 2 * length ops < cycle
    → (run ops s).epoch ≡ s.epoch
    → Within s (run ops s)
same_epoch-Within ops s h few same =
    let (k, le, e, keep) = run-advance ops s in
    elim (ℕ_discrete k 0) [
      | yes z ↦ keep z
      | no p ↦ absurd (advance-ne k s.epoch h (omega arith) (omega arith) (sym e ∙ same))
    ]
