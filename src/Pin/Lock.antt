-- ===== src/Pin/Lock.antt =====
-- The commands of `cbor_client_pin` on a device whose PIN is blocked, for good or until it is
-- unplugged.
use fido_touch.Prelude.{
  ℕ, ◌≡◌, ◌≢◌, refl, ◌⊎◌, true, Option, none, some, List, [], ◌∷◌, length, get_or, arith,
}
use fido_touch.Exec.{Result, ok, err, fault}
use fido_touch.Platform.{Platform}
use fido_touch.Ctap.Ef
use fido_touch.Cbor.{parser_init, parse_map}
use fido_touch.Pin.Device.{DeviceOf, initialize}
use fido_touch.Pin.Stored.{contents-initialize, needs_power_cycle-initialize}
use fido_touch.Pin.Request.{Request, no_request, put_field, needed, both}
use fido_touch.Pin.NewPin.{read_point, shared_secret}
use fido_touch.Pin.SetPin.{set_pin, set_pin_with}
use fido_touch.Pin.ChangePin.{change_pin, change_pin_with, change_guards}
use fido_touch.Pin.GetToken.{get_token, get_token_with, token_guards, check_permissions}
use fido_touch.Pin.Command.{get_retries, get_key_agreement, dispatch, client_pin}

module _ (P : Platform) where
  open P use {Fs, contents, put, commit, contents-commit, contents-put_ne, decode, random, generate}

  -- A PIN is set, and either no retry is left or too many were wrong since the power came.
  unfoldable pub IsLocked : DeviceOf P → Type 0
  IsLocked d =
      (length (contents d.fs Ef.pin) ≢ 0)
      × ((get_or (contents d.fs Ef.pin) 0 0 ≡ 0) ⊎ (d.needs_power_cycle ≡ true))

  set_pin_with_locked :
      (protocol : ℕ) (x y enc sign : List ℕ) (d : DeviceOf P)
      → IsLocked d
      → (set_pin_with P protocol x y enc sign d).1 ≡ d
  unfolding set_pin_with IsLocked
  set_pin_with_locked protocol x y enc sign d l = ground arith

  pub shared_secret_same :
      (protocol : ℕ) (x y : List ℕ) (d : DeviceOf P) → (shared_secret P protocol x y d).1 ≡ d
  unfolding shared_secret
  shared_secret_same protocol x y d = ground arith

  pub read_point_same : (x y : List ℕ) (d : DeviceOf P) → (read_point P x y d).1 ≡ d
  unfolding read_point
  read_point_same x y d = ground arith

  change_pin_with_locked :
      (protocol : ℕ) (x y enc hash_enc sign : List ℕ) (d : DeviceOf P)
      → IsLocked d
      → (change_pin_with P protocol x y enc hash_enc sign d).1 ≡ d
  unfolding change_pin_with change_guards IsLocked
  change_pin_with_locked protocol x y enc hash_enc sign d l = ground (arith, read_point_same x y d)

  pub check_permissions_same :
      (subcommand permissions : ℕ) (rp : Option (List ℕ)) (d : DeviceOf P)
      → (check_permissions subcommand permissions rp d).1 ≡ d
  unfolding check_permissions
  check_permissions_same subcommand permissions rp d = ground arith

  get_token_with_locked :
      (now subcommand protocol permissions : ℕ) (rp : Option (List ℕ)) (x y hash_enc : List ℕ)
      (d : DeviceOf P)
      → IsLocked d
      → (get_token_with P now subcommand protocol permissions rp x y hash_enc d).1 ≡ d
  unfolding get_token_with token_guards IsLocked
  get_token_with_locked now subcommand protocol permissions rp x y hash_enc d l =
      ground (arith, read_point_same x y d, check_permissions_same subcommand permissions rp d)

  set_pin_locked : (q : Request) (d : DeviceOf P) → IsLocked d → (set_pin P q d).1 ≡ d
  unfolding set_pin
  set_pin_locked q d l = by_params (needed q (both q.new_pin_enc q.auth_param)) refl
    where
      by_params :
          (o : Option (List ℕ × (List ℕ × (List ℕ × List ℕ))))
          → needed q (both q.new_pin_enc q.auth_param) ≡ o
          → (set_pin P q d).1 ≡ d
      by_params none e = ground arith
      by_params (some (x, (y, (enc, sign)))) e =
          ground (arith, set_pin_with_locked q.protocol x y enc sign d l)

  change_pin_locked : (q : Request) (d : DeviceOf P) → IsLocked d → (change_pin P q d).1 ≡ d
  unfolding change_pin
  change_pin_locked q d l =
      by_params (needed q (both q.new_pin_enc (both q.auth_param q.pin_hash_enc))) refl
    where
      by_params :
          (o : Option (List ℕ × (List ℕ × (List ℕ × (List ℕ × List ℕ)))))
          → needed q (both q.new_pin_enc (both q.auth_param q.pin_hash_enc)) ≡ o
          → (change_pin P q d).1 ≡ d
      by_params none e = ground arith
      by_params (some (x, (y, (enc, (sign, hash_enc))))) e =
          ground (arith, change_pin_with_locked q.protocol x y enc hash_enc sign d l)

  get_token_locked :
      (now : ℕ) (q : Request) (d : DeviceOf P) → IsLocked d → (get_token P now q d).1 ≡ d
  unfolding get_token
  get_token_locked now q d l = by_params (needed q q.pin_hash_enc) refl
    where
      by_params :
          (o : Option (List ℕ × (List ℕ × List ℕ)))
          → needed q q.pin_hash_enc ≡ o
          → (get_token P now q d).1 ≡ d
      by_params none e = ground arith
      by_params (some (x, (y, hash_enc))) e = ground (
        arith,
        get_token_with_locked now q.subcommand q.protocol q.permissions q.rp_id x y hash_enc d l,
      )

  get_retries_same : (d : DeviceOf P) → (get_retries P d).1 ≡ d
  unfolding get_retries
  get_retries_same d = ground arith

  get_key_agreement_same : (q : Request) (d : DeviceOf P) → (get_key_agreement P q d).1 ≡ d
  unfolding get_key_agreement
  get_key_agreement_same q d = ground arith

  dispatch_locked :
      (now : ℕ) (q : Request) (d : DeviceOf P) → IsLocked d → (dispatch P now q d).1 ≡ d
  unfolding dispatch
  dispatch_locked now q d l = ground (
    arith,
    set_pin_locked q d l,
    change_pin_locked q d l,
    get_token_locked now q d l,
    get_retries_same d,
    get_key_agreement_same q d,
  )

  initialize-IsLocked : (d : DeviceOf P) → IsLocked d → IsLocked (initialize P d)
  unfolding IsLocked
  initialize-IsLocked d l =
      ground (arith, contents-initialize P d, needs_power_cycle-initialize P d)

  -- What a command does to a device that is locked: nothing if its message cannot be opened, and the
  -- first initialisation otherwise
  unfoldable pub at_most_initialized : Result (Unit {0}) → DeviceOf P → DeviceOf P
  at_most_initialized (ok u) d = initialize P d
  at_most_initialized (err c) d = d
  at_most_initialized fault d = d

  -- While the PIN is blocked, or the device waits to be unplugged, a command whose message can be
  -- opened does no more than the first initialisation, and any other does nothing: no retry, no token,
  -- no change of the PIN or of any other file.
  pub client_pin_locked :
      (now : ℕ) (msg : List ℕ) (d : DeviceOf P)
      → IsLocked d
      → (client_pin P now msg d).1 ≡ at_most_initialized (parser_init (decode msg)) d
  unfolding client_pin at_most_initialized
  client_pin_locked now msg d l =
      by_init (parser_init (decode msg)) refl (parse_map 2 put_field no_request (decode msg)) refl
    where
      by_init :
          (i : Result (Unit {0}))
          → parser_init (decode msg) ≡ i
          → (r : Result Request) → parse_map 2 put_field no_request (decode msg) ≡ r
          → (client_pin P now msg d).1 ≡ at_most_initialized (parser_init (decode msg)) d
      by_init (err c) ei r e = ground arith
      by_init fault ei r e = ground arith
      by_init (ok u) ei (ok q) e =
          ground (arith, dispatch_locked now q (initialize P d) (initialize-IsLocked d l))
      by_init (ok u) ei (err c) e = ground arith
      by_init (ok u) ei fault e = ground arith

  at_most_initialized-IsLocked :
      (i : Result (Unit {0})) (d : DeviceOf P)
      → IsLocked d
      → IsLocked (at_most_initialized i d)
        × (contents (at_most_initialized i d).fs Ef.pin ≡ contents d.fs Ef.pin)
  unfolding at_most_initialized
  at_most_initialized-IsLocked (ok u) d l = (initialize-IsLocked d l, contents-initialize P d)
  at_most_initialized-IsLocked (err c) d l = (l, refl)
  at_most_initialized-IsLocked fault d l = (l, refl)

  -- The states after a sequence of commands, each at its time.
  unfoldable pub client_pins : List (ℕ × List ℕ) → DeviceOf P → DeviceOf P
  client_pins [] d = d
  client_pins ((now, msg) ∷ msgs) d = client_pins msgs (client_pin P now msg d).1

  -- A locked device stays locked under any sequence of commands, and its PIN record stays the same.
  pub client_pins-IsLocked :
      (msgs : List (ℕ × List ℕ)) (d : DeviceOf P)
      → IsLocked d
      → IsLocked (client_pins msgs d)
        × (contents (client_pins msgs d).fs Ef.pin ≡ contents d.fs Ef.pin)
  unfolding client_pins
  client_pins-IsLocked [] d l = (l, refl)
  client_pins-IsLocked ((now, msg) ∷ msgs) d l = ground (
    arith,
    client_pin_locked now msg d l,
    at_most_initialized-IsLocked (parser_init (decode msg)) d l,
    client_pins-IsLocked msgs (client_pin P now msg d).1,
  )
