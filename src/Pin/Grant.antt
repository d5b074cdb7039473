-- ===== src/Pin/Grant.antt =====
-- What getPinToken and getPinUvAuthTokenUsingPinWithPermissions give, and to whom.
use fido_touch.Prelude.{
  ℕ, ◌+◌, ◌%◌, ◌≡◌, ◌≢◌, refl, sym, ◌⊎◌, ap, ◌∙◌, Bool, true, false, Option, none, some, List, [],
  ◌∷◌, ◌++◌, length, take, replicate, get_or, set, arith, ◌==◌, has_bits, if◌then◌else◌,
}
use fido_touch.Exec.{Result, ok, err, fault}
use fido_touch.Platform.{Platform}
use fido_touch.Ctap.Ef
use fido_touch.Ctap.Permission
use fido_touch.Protocol.{decrypt}
use fido_touch.Token.{issue, reset_token, begin_using}
use fido_touch.Pin.Device.{DeviceOf, regenerate}
use fido_touch.Pin.Attempt.{
  pin_data_len, load_pin_data, decrement, persist_retries, spend_loaded, spend_retry, matches,
  compare_pin, wrong_pin, try_pin, Verified, half_of,
}
use fido_touch.Pin.NewPin.{cut16}
use fido_touch.Pin.Lock.{read_point_same, shared_secret_same, check_permissions_same}
use fido_touch.Pin.GetToken.{
  settle, is_present, grant, send_token, refuse_forced, token_guards, give_token, get_token_with,
}

module _ (P : Platform) where
  open P use {Fs, contents}

  -- `pin_data` as the record is read
  abbrev pub padded : List ℕ → List ℕ
  padded stored = take pin_data_len (stored ++ replicate pin_data_len 0)

  matches_set :
      (hash pd : List ℕ) (v len : ℕ) → matches P hash (set pd 0 v) len ≡ matches P hash pd len
  unfolding matches
  matches_set hash [] v len = refl
  matches_set hash (x ∷ pd) v len = refl

  spend_loaded-ok :
      (stored pd : List ℕ) (n len : ℕ) (d : DeviceOf P)
      → (spend_loaded P (some (stored, n)) d).0 ≡ ok (pd, len)
      → (pd ≡ set stored 0 (decrement (get_or stored 0 0))) × (len ≡ n)
  unfolding spend_loaded
  spend_loaded-ok stored pd n len d h = ground arith

  load_pin_data-some :
      (s stored : List ℕ) (n : ℕ)
      → load_pin_data s ≡ some (stored, n)
      → (stored ≡ padded s) × (n ≡ length s)
  unfolding load_pin_data
  load_pin_data-some s stored n h = ground arith

  spend_none : (d : DeviceOf P) (r : List ℕ × ℕ) → (spend_loaded P none d).0 ≢ ok r
  unfolding spend_loaded
  spend_none d r = ground arith

  -- What a spent retry hands on to the comparison.
  spend_retry-ok :
      (d : DeviceOf P) (pd : List ℕ) (len : ℕ)
      → (spend_retry P d).0 ≡ ok (pd, len)
      → (len ≡ length (contents d.fs Ef.pin))
        × ((hash : List ℕ)
            → matches P hash pd len ≡ matches P hash (padded (contents d.fs Ef.pin)) len)
  unfolding spend_retry
  spend_retry-ok d pd len h = by_load (load_pin_data (contents d.fs Ef.pin)) refl
    where
      by_load :
          (o : Option (List ℕ × ℕ))
          → load_pin_data (contents d.fs Ef.pin) ≡ o
          → (len ≡ length (contents d.fs Ef.pin))
            × ((hash : List ℕ)
                → matches P hash pd len ≡ matches P hash (padded (contents d.fs Ef.pin)) len)
      by_load none e =
          absurd (spend_none d (pd, len) (sym (ap (λ o. (spend_loaded P o d).0) e) ∙ h))
      by_load (some (stored, n)) e =
          let (epd, elen) =
            spend_loaded-ok stored pd n len d (sym (ap (λ o. (spend_loaded P o d).0) e) ∙ h) in
          let (est, en) = load_pin_data-some (contents d.fs Ef.pin) stored n e in
          (
            elen ∙ en,
            λ hash.
                ap (λ l. matches P hash l len) epd
                ∙ matches_set hash stored (decrement (get_or stored 0 0)) len
                ∙ ap (λ l. matches P hash l len) est,
          )

  session-spend_retry : (d : DeviceOf P) → (spend_retry P d).1.session ≡ d.session
  unfolding spend_retry spend_loaded persist_retries load_pin_data
  session-spend_retry d = ground arith

  session-compare_pin :
      (hash pd : List ℕ) (len : ℕ) (d : DeviceOf P)
      → ((compare_pin P hash pd len d).1.session ≡ d.session)
        × ((v : Verified)
            → (compare_pin P hash pd len d).0 ≡ ok v
            → (matches P hash pd len ≡ true) × (v.hash ≡ hash))
  unfolding compare_pin wrong_pin regenerate
  session-compare_pin hash pd len d = ground arith

  -- `enc` decrypts to bytes that the record of the PIN matches.
  unfoldable pub IsRight : ℕ → Bool → ℕ → List ℕ → List ℕ → DeviceOf P → Type 0
  IsRight room cleared protocol key enc d =
      (hash : List ℕ) × (half_of P cleared (decrypt P protocol key enc room) ≡ ok hash)
      × (matches P hash (padded (contents d.fs Ef.pin)) (length (contents d.fs Ef.pin)) ≡ true)

  -- No try changes the token, and one that answers that the PIN is right was given that PIN.
  try_pin-IsRight :
      (room : ℕ) (cleared : Bool) (protocol : ℕ) (key enc : List ℕ) (d : DeviceOf P)
      → ((try_pin P room cleared protocol key enc d).1.session ≡ d.session)
        × ((v : Verified)
            → (try_pin P room cleared protocol key enc d).0 ≡ ok v
            → IsRight room cleared protocol key enc d)
  unfolding try_pin IsRight
  try_pin-IsRight room cleared protocol key enc d =
      by_spent (spend_retry P d).0 refl (half_of P cleared (decrypt P protocol key enc room)) refl
    where
      by_spent :
          (r : Result (List ℕ × ℕ))
          → (spend_retry P d).0 ≡ r
          → (o : Result (List ℕ)) → half_of P cleared (decrypt P protocol key enc room) ≡ o
          → ((try_pin P room cleared protocol key enc d).1.session ≡ d.session)
            × ((v : Verified)
                → (try_pin P room cleared protocol key enc d).0 ≡ ok v
                → IsRight room cleared protocol key enc d)
      by_spent (ok (pd, len)) e (ok hash) eh =
          let (same, right) = session-compare_pin hash pd len (spend_retry P d).1 in
          let (elen, em) = spend_retry-ok d pd len e in
          (
            ground (arith, same, session-spend_retry d),
            λ v h. (
              hash,
              eh,
              sym (ap (matches P hash (padded (contents d.fs Ef.pin))) elen)
                  ∙ sym (em hash)
                  ∙ (right v (ground arith)).0,
            ),
          )
      by_spent (ok (pd, len)) e (err c) eh = ground (arith, session-spend_retry d)
      by_spent (ok (pd, len)) e fault eh = ground (arith, session-spend_retry d)
      by_spent (err c) e o eh = ground (arith, session-spend_retry d)
      by_spent fault e o eh = ground (arith, session-spend_retry d)

  pub token_guards_same :
      (subcommand protocol permissions : ℕ) (rp : Option (List ℕ)) (x y : List ℕ) (d : DeviceOf P)
      → (token_guards P subcommand protocol permissions rp x y d).1 ≡ d
  unfolding token_guards
  token_guards_same subcommand protocol permissions rp x y d = ground (
    arith,
    read_point_same P x y d,
    check_permissions_same P subcommand permissions rp d,
    shared_secret_same P protocol x y d,
  )

  -- A token is given, or the one in use is changed, only where the platform has presented the PIN
  -- that is stored, encrypted under the secret it shares with the device.
  pub get_token_needs_pin :
      (now subcommand protocol permissions : ℕ) (rp : Option (List ℕ)) (x y hash_enc out : List ℕ)
      (d : DeviceOf P)
      → (let (r, d') = get_token_with P now subcommand protocol permissions rp x y hash_enc d in
          (r ≡ ok out) ⊎ (d'.session ≢ d.session))
      → (key : List ℕ) × ((token_guards P subcommand protocol permissions rp x y d).0 ≡ ok key)
        × IsRight 64 false protocol key (cut16 hash_enc) d
  unfolding get_token_with
  get_token_needs_pin now subcommand protocol permissions rp x y hash_enc out d h =
      by_guards (token_guards P subcommand protocol permissions rp x y d).0 refl
    where
      by_guards :
          (r : Result (List ℕ))
          → (token_guards P subcommand protocol permissions rp x y d).0 ≡ r
          → (key : List ℕ) × ((token_guards P subcommand protocol permissions rp x y d).0 ≡ ok key)
            × IsRight 64 false protocol key (cut16 hash_enc) d
      by_guards (ok key) e = by_try (try_pin P 64 false protocol key (cut16 hash_enc) d).0 refl
        where
          by_try :
              (t : Result Verified)
              → (try_pin P 64 false protocol key (cut16 hash_enc) d).0 ≡ t
              → (key' : List ℕ) × ((token_guards P subcommand protocol permissions rp x y d).0
                  ≡ ok key')
                × IsRight 64 false protocol key' (cut16 hash_enc) d
          by_try (ok v) et =
              (key, e, (try_pin-IsRight 64 false protocol key (cut16 hash_enc) d).1 v et)
          by_try (err c) et = ground (
            arith,
            token_guards_same subcommand protocol permissions rp x y d,
            (try_pin-IsRight 64 false protocol key (cut16 hash_enc) d).0,
          )
          by_try fault et = ground (
            arith,
            token_guards_same subcommand protocol permissions rp x y d,
            (try_pin-IsRight 64 false protocol key (cut16 hash_enc) d).0,
          )
      by_guards (err c) e =
          ground (arith, token_guards_same subcommand protocol permissions rp x y d)
      by_guards fault e = ground (arith, token_guards_same subcommand protocol permissions rp x y d)

  -- What the token is, once it is given.
  unfoldable pub IsGranted : ℕ → ℕ → ℕ → Option (List ℕ) → DeviceOf P → Type 0
  IsGranted now subcommand permissions rp d =
      (d.needs_power_cycle ≡ false)
      × (has_bits permissions Permission.pcmr ≡ true → d.persistent_permissions ≡ Permission.pcmr)
      × (has_bits permissions Permission.pcmr ≡ false
          → (d.session.in_use ≡ true)
            × (d.session.user_verified ≡ true)
            × (d.session.user_present ≡ false)
            × (d.session.usage_timer ≡ now)
            × (d.session.permissions
                ≡ (if subcommand == 5 then Permission.mc + Permission.ga else permissions) % 256)
            × (d.session.has_rp_id ≡ is_present rp))

  give_token-IsGranted :
      (now subcommand protocol permissions : ℕ) (rp : Option (List ℕ)) (key out : List ℕ)
      (d : DeviceOf P)
      → (give_token P now subcommand protocol permissions rp key d).0 ≡ ok out
      → IsGranted now subcommand permissions rp
          (give_token P now subcommand protocol permissions rp key d).1
  unfolding give_token grant send_token issue reset_token begin_using IsGranted refuse_forced
  give_token-IsGranted now subcommand protocol permissions rp key out d h = ground arith

  -- A token that is given is in use from now on, for a verified user who is not taken to be present, with
  -- the permissions that were asked for (makeCredential and getAssertion for getPinToken), and bound
  -- to a relying party where one was named. A request for the persistent token gives it its one
  -- permission instead. In both cases the device no longer waits to be unplugged.
  pub get_token-IsGranted :
      (now subcommand protocol permissions : ℕ) (rp : Option (List ℕ)) (x y hash_enc out : List ℕ)
      (d : DeviceOf P)
      → (get_token_with P now subcommand protocol permissions rp x y hash_enc d).0 ≡ ok out
      → IsGranted now subcommand permissions rp
          (get_token_with P now subcommand protocol permissions rp x y hash_enc d).1
  unfolding get_token_with
  get_token-IsGranted now subcommand protocol permissions rp x y hash_enc out d h =
      by_steps (token_guards P subcommand protocol permissions rp x y d).0 refl
    where
      d0 : DeviceOf P
      d0 = (token_guards P subcommand protocol permissions rp x y d).1

      by_steps :
          (r : Result (List ℕ))
          → (token_guards P subcommand protocol permissions rp x y d).0 ≡ r
          → IsGranted now subcommand permissions rp
              (get_token_with P now subcommand protocol permissions rp x y hash_enc d).1
      by_steps (err c) e = ground arith
      by_steps fault e = ground arith
      by_steps (ok key) e = by_try (try_pin P 64 false protocol key (cut16 hash_enc) d0).0 refl
        where
          d1 : DeviceOf P
          d1 = (try_pin P 64 false protocol key (cut16 hash_enc) d0).1

          by_try :
              (t : Result Verified)
              → (try_pin P 64 false protocol key (cut16 hash_enc) d0).0 ≡ t
              → IsGranted now subcommand permissions rp
                  (get_token_with P now subcommand protocol permissions rp x y hash_enc d).1
          by_try (err c) et = ground arith
          by_try fault et = ground arith
          by_try (ok v) et = by_settle (settle P v d1).0 refl
            where
              by_settle :
                  (t : Result (Unit {0}))
                  → (settle P v d1).0 ≡ t
                  → IsGranted now subcommand permissions rp
                      (get_token_with P now subcommand protocol permissions rp x y hash_enc d).1
              by_settle (err c) es = ground arith
              by_settle fault es = ground arith
              by_settle (ok tt) es = ground (
                arith,
                give_token-IsGranted now subcommand protocol permissions rp key out
                    (settle P v d1).1,
              )
