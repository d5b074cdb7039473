-- ===== src/Oath/Listing/Fits.antt =====
-- An answer that is inside its buffer, and the steps that LIST and CALCULATE ALL share.
use fido_touch.Prelude.{
  ℕ, zero, suc, ◌+◌, ◌≤◌, ◌≡◌, ◌≢◌, refl, Bool, true, false, Option, none, some, List, length,
  arith, if-elim, ◌==◌,
}
use fido_touch.Exec.{Exec, Error, Result, ok, err, fault}
use fido_touch.Platform.{Platform}
use fido_touch.Oath.{Sw, OathOf, return_if}
use fido_touch.Oath.Calculate.{has_room}
use fido_touch.Oath.Listing.{Answer, then_next, if_room, finished, or_skip, each_from}

-- No fault, and the answer so far is inside the buffer
unfoldable pub Fits : ℕ → Answer → Type 0
Fits buffer a = (a ≢ fault) × ((go : Bool) (r : List ℕ) → a ≡ ok (go, r) → length r ≤ buffer)

pub ok-Fits : (buffer : ℕ) (go : Bool) (r : List ℕ) → length r ≤ buffer → Fits buffer (ok (go, r))
unfolding Fits
ok-Fits buffer go r h = (ground arith, λ go' r' e. ground arith)

pub err-Fits : (buffer : ℕ) (e : Error) → Fits buffer (err e)
unfolding Fits
err-Fits buffer e = (ground arith, λ go r h. ground arith)

pub then_next-Fits :
    (buffer : ℕ) (a : Answer) (next : List ℕ → Answer)
    → Fits buffer a
    → ((r : List ℕ) → length r ≤ buffer → Fits buffer (next r))
    → Fits buffer (then_next a next)
unfolding Fits
then_next-Fits buffer (ok (true, r)) next h step = step r (h.1 true r refl)
then_next-Fits buffer (ok (false, r)) next h step = h
then_next-Fits buffer (err e) next h step = h
then_next-Fits buffer fault next h step = h

pub if_room-Fits :
    (buffer n : ℕ) (r : List ℕ) (a : Answer)
    → length r ≤ buffer
    → (length r + n ≤ buffer → Fits buffer a)
    → Fits buffer (if_room buffer n r a)
unfolding if_room
if_room-Fits buffer n r a fits h =
    if-elim (λ x. Fits buffer x) (has_room buffer r n) (λ room. h (ground arith))
      (λ room. ok-Fits buffer false r fits)

pub or_skip-Fits :
    (buffer : ℕ) (r : List ℕ) (o : Option (List ℕ)) (written : List ℕ → Answer)
    → length r ≤ buffer
    → ((bytes : List ℕ) → Fits buffer (written bytes))
    → Fits buffer (or_skip r o written)
or_skip-Fits buffer r none written fits h = ok-Fits buffer true r fits
or_skip-Fits buffer r (some bytes) written fits h = h bytes

module _ (P : Platform) (buffer : ℕ) where
  pub each_from-Fits :
      (one : List ℕ → List ℕ → Answer)
      → ((d r : List ℕ) → length r ≤ buffer → Fits buffer (one d r))
      → (n fid : ℕ) (fs : P.Fs) (r : List ℕ) → length r ≤ buffer
      → Fits buffer (each_from P buffer one n fid fs r)
  unfolding each_from
  each_from-Fits one sound zero fid fs r fits = ok-Fits buffer true r fits
  each_from-Fits one sound (suc n) fid fs r fits =
      then_next-Fits buffer _ (λ r'. each_from P buffer one n (fid + 1) fs r')
        (if-elim (λ x. Fits buffer x) (length (P.contents fs fid) == 0)
          (λ _. ok-Fits buffer true r fits) (λ _. sound (P.contents fs fid) r fits))
        (λ r' h. each_from-Fits one sound n (fid + 1) fs r' h)

  abbrev pub Inside : Result Sw × OathOf P → Type 0
  Inside (res, s) = (res ≢ fault) × (length s.response ≤ buffer)

  pub finished-Fits :
      (s : OathOf P) (a : Answer)
      → length s.response ≤ buffer
      → Fits buffer a
      → Inside (finished P buffer s a)
  unfolding Fits
  finished-Fits s (ok (true, r)) fits h = (ground arith, h.1 true r refl)
  finished-Fits s (ok (false, r)) fits h = (ground arith, h.1 false r refl)
  finished-Fits s (err e) fits h = (ground arith, fits)
  finished-Fits s fault fits h = absurd (h.0 refl)

  pub return_if-Inside :
      (test : Bool) (sw : Sw) (rest : Exec (OathOf P) Sw) (s : OathOf P)
      → length s.response ≤ buffer
      → Inside (rest s)
      → Inside (return_if test sw rest s)
  return_if-Inside true sw rest s fits h = (ground arith, fits)
  return_if-Inside false sw rest s fits h = h
