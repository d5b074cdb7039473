-- ===== src/Pin/NewPin/Laws.antt =====
-- What is true of a PIN that setPIN and changePIN accept.
use fido_touch.Prelude.{
  ℕ, zero, suc, ◌≤◌, ◌≡◌, ◌≢◌, refl, ap, sym, subst, ◌∙◌, Bool, true, false, ◌||◌, List, [], ◌∷◌,
  length, get_or, arith, ◌==◌,
}
use fido_touch.Exec.{ok}
use fido_touch.Platform.{Platform}
use fido_touch.Ctap.Ef
use fido_touch.Pin.Device.{DeviceOf}
use fido_touch.Pin.Policy.{
  is_upper, is_lower, is_digit, policy_pass, codepoints, until_zero, policy_upper, policy_lower,
  policy_digit, policy_symbol,
}
use fido_touch.Pin.Policy.Laws.{
  any, is_symbol, lacks, classes_pass_lem, count_starts, codepoints_lem,
}
use fido_touch.Pin.NewPin.{min_pin, accept_pin}

until_zero_lem : (i : ℕ) (padded : List ℕ) → get_or padded i 0 ≡ 0 → length (until_zero padded) ≤ i
unfolding until_zero
until_zero_lem i [] h = omega arith
until_zero_lem zero (c ∷ padded) h = ground arith
until_zero_lem (suc i) (c ∷ padded) h = ground (arith, until_zero_lem i padded h)

no_zero : (padded : List ℕ) → any (λ c. c == 0) (until_zero padded) ≡ false
unfolding until_zero
no_zero [] = refl
no_zero (c ∷ padded) = ground (arith, no_zero padded)

module _ (P : Platform) where
  open P use {contents, get_be16}

  abbrev pub lacks_some : ℕ → List ℕ → Bool
  lacks_some policy pin =
      lacks policy policy_upper is_upper pin
      || lacks policy policy_lower is_lower pin
      || lacks policy policy_digit is_digit pin
      || lacks policy policy_symbol is_symbol pin

  lacks_none : (pin : List ℕ) → lacks_some 0 pin ≡ false
  lacks_none pin = ground arith

  policy_pass_lem :
      (stored pin : List ℕ)
      → policy_pass P stored pin ≡ true
      → length stored ≢ 0
      → lacks_some (get_be16 stored) pin ≡ false
  unfolding policy_pass
  policy_pass_lem stored pin h some_policy = by_policy (get_be16 stored) refl
    where
      by_policy : (n : ℕ) → get_be16 stored ≡ n → lacks_some (get_be16 stored) pin ≡ false
      by_policy zero e = ap (λ n. lacks_some n pin) e ∙ lacks_none pin
      by_policy (suc n) e = ground (arith, classes_pass_lem (get_be16 stored) pin)

  accept_pin-ok :
      (len : ℕ) (padded pin : List ℕ) (d : DeviceOf P)
      → (accept_pin P len padded d).0 ≡ ok pin
      → (pin ≡ until_zero padded)
        × (len ≤ 64)
        × (get_or padded 63 0 ≡ 0)
        × (min_pin P (contents d.fs Ef.minpinlen) ≤ codepoints pin)
        × (policy_pass P (contents d.fs Ef.pin_complexity_policy) pin ≡ true)
  unfolding accept_pin
  accept_pin-ok len padded pin d h = ground arith

  -- A PIN that is accepted is what the platform sent up to the first zero byte. It has at most 63 bytes,
  -- at least as many characters as EF_MINPINLEN or 4, and every class of characters that the
  -- stored policy asks for.
  pub accept_pin_lem :
      (len : ℕ) (padded pin : List ℕ) (d : DeviceOf P)
      → (accept_pin P len padded d).0 ≡ ok pin
      → (pin ≡ until_zero padded)
        × (any (λ c. c == 0) pin ≡ false)
        × (length pin ≤ 63)
        × (len ≤ 64)
        × (min_pin P (contents d.fs Ef.minpinlen) ≤ count_starts pin)
        × (length (contents d.fs Ef.pin_complexity_policy) ≢ 0
            → lacks_some (get_be16 (contents d.fs Ef.pin_complexity_policy)) pin ≡ false)
  accept_pin_lem len padded pin d h =
      let (own, most, last, least, policy) = accept_pin-ok len padded pin d h in
      let short : length pin ≤ 63 =
        subst (λ l. length l ≤ 63) (sym own) (until_zero_lem 63 padded last) in
      (
        own,
        ap (any (λ c. c == 0)) own ∙ no_zero padded,
        short,
        most,
        omega (arith, least, (codepoints_lem pin (omega (arith, short))).0),
        policy_pass_lem (contents d.fs Ef.pin_complexity_policy) pin policy,
      )
