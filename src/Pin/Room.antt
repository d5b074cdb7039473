-- ===== src/Pin/Room.antt =====
-- Whether what the PIN commands decrypt fits into the arrays that they decrypt it into.
use fido_touch.Prelude.{
  ℕ, ◌+◌, ◌%◌, ◌^◌, ◌≤◌, ◌<◌, ◌≡◌, ◌≢◌, refl, false, Option, List, length, length-take, arith,
}
use fido_touch.Exec.{Result, ok, err, fault}
use fido_touch.Platform.{Platform}
use fido_touch.Protocol.{iv_size, decrypt}
use fido_touch.Pin.Device.{DeviceOf}
use fido_touch.Pin.Attempt.{spend_retry, try_pin}
use fido_touch.Pin.NewPin.{cut16, plain_len, bad_new_pin_enc, accept_pin, receive_pin}
use fido_touch.Pin.ChangePin.{bad_pin_hash_enc, change_guards}
use fido_touch.Pin.GetToken.{token_guards, get_token_with}
use fido_touch.Pin.Lock.{read_point_same}
use fido_touch.Pin.Grant.{token_guards_same}

module _ (P : Platform) where
  open P use {contents}

  accept_pin-ne-fault :
      (len : ℕ) (padded : List ℕ) (d : DeviceOf P) → (accept_pin P len padded d).0 ≢ fault
  unfolding accept_pin
  accept_pin-ne-fault len padded d = ground arith

  decrypt-ne-fault :
      (protocol : ℕ) (key msg : List ℕ) (room : ℕ)
      → (protocol ≡ 1 → length msg ≤ room)
      → (protocol ≡ 2 → (iv_size ≤ length msg) × (length msg ≤ room + iv_size))
      → decrypt P protocol key msg room ≢ fault
  unfolding decrypt
  decrypt-ne-fault protocol key msg room h1 h2 = ground arith

  length-cut16 : (b : List ℕ) → length (cut16 b) ≡ length b % 2 ^ 16
  length-cut16 b = omega (arith, length-take (length b % 2 ^ 16) b)

  fits :
      (protocol : ℕ) (enc : List ℕ)
      → bad_new_pin_enc protocol enc ≡ false
      → plain_len protocol enc ≤ 256 + iv_size
      → (protocol ≡ 1 → length (cut16 enc) ≤ 256 + iv_size)
        × (protocol ≡ 2
            → (iv_size ≤ length (cut16 enc)) × (length (cut16 enc) ≤ 256 + iv_size + iv_size))
  unfolding bad_new_pin_enc
  fits protocol enc hb h = ground (arith, length-cut16 enc)

  new_pin_fits :
      (protocol : ℕ) (key enc : List ℕ)
      → bad_new_pin_enc protocol enc ≡ false
      → plain_len protocol enc ≤ 256 + iv_size
      → decrypt P protocol key (cut16 enc) (256 + iv_size) ≢ fault
  new_pin_fits protocol key enc hb h =
      let (f1, f2) = fits protocol enc hb h in
      decrypt-ne-fault protocol key (cut16 enc) (256 + iv_size) f1 f2

  -- A new PIN whose length setPIN or changePIN has let through never leaves the 272 bytes that it
  -- is decrypted into.
  pub receive_pin-ne-fault :
      (protocol : ℕ) (key enc : List ℕ) (d : DeviceOf P)
      → bad_new_pin_enc protocol enc ≡ false
      → (receive_pin P protocol key enc d).0 ≢ fault
  unfolding receive_pin
  receive_pin-ne-fault protocol key enc d hb =
      by_decrypt (decrypt P protocol key (cut16 enc) (256 + iv_size)) refl
    where
      by_decrypt :
          (r : Result (ℕ × List ℕ))
          → decrypt P protocol key (cut16 enc) (256 + iv_size) ≡ r
          → (receive_pin P protocol key enc d).0 ≢ fault
      by_decrypt (ok (ret, padded)) e =
          ground (arith, accept_pin-ne-fault (plain_len protocol enc) padded d)
      by_decrypt (err c) e = ground arith
      by_decrypt fault e = ground (arith, new_pin_fits protocol key enc hb)

  -- What the guards of changePIN let through as `pinHashEnc` has the length of one block.
  change_guards-ok :
      (protocol : ℕ) (x y enc hash_enc sign key : List ℕ) (d : DeviceOf P)
      → (change_guards P protocol x y enc hash_enc sign d).0 ≡ ok key
      → (bad_pin_hash_enc protocol hash_enc ≡ false) × (bad_new_pin_enc protocol enc ≡ false)
  unfolding change_guards
  change_guards-ok protocol x y enc hash_enc sign key d h = ground (arith, read_point_same P x y d)

  hash_fits :
      (protocol : ℕ) (key hash_enc : List ℕ)
      → bad_pin_hash_enc protocol hash_enc ≡ false
      → decrypt P protocol key hash_enc (256 + iv_size) ≢ fault
  unfolding bad_pin_hash_enc
  hash_fits protocol key hash_enc h =
      decrypt-ne-fault protocol key hash_enc (256 + iv_size) (ground arith) (ground arith)

  -- Past the guards of changePIN, neither the hash of the old PIN nor the new PIN is written or read
  -- outside its array.
  pub change_pin_fits :
      (protocol : ℕ) (x y enc hash_enc sign key : List ℕ) (d e : DeviceOf P)
      → (change_guards P protocol x y enc hash_enc sign d).0 ≡ ok key
      → (decrypt P protocol key hash_enc (256 + iv_size) ≢ fault)
        × ((receive_pin P protocol key enc e).0 ≢ fault)
  change_pin_fits protocol x y enc hash_enc sign key d e h =
      let (bh, be) = change_guards-ok protocol x y enc hash_enc sign key d h in
      (hash_fits protocol key hash_enc bh, receive_pin-ne-fault protocol key enc e be)

  overflow : (key msg : List ℕ) → 64 < length msg → decrypt P 1 key msg 64 ≡ fault
  unfolding decrypt
  overflow key msg h = ground arith

  -- getPinUvAuthToken has no such guard: under protocol one, once its guards are passed and the retry
  -- is counted, a `pinHashEnc` of more than 64 bytes is written past the end of its array.
  pub get_token_overflows :
      (now subcommand permissions : ℕ) (rp : Option (List ℕ)) (x y hash_enc key pd : List ℕ)
      (len : ℕ) (d : DeviceOf P)
      → (token_guards P subcommand 1 permissions rp x y d).0 ≡ ok key
      → (spend_retry P d).0 ≡ ok (pd, len)
      → 64 < length hash_enc
      → length hash_enc < 2 ^ 16
      → (get_token_with P now subcommand 1 permissions rp x y hash_enc d).0 ≡ fault
  unfolding get_token_with try_pin
  get_token_overflows now subcommand permissions rp x y hash_enc key pd len d hg hs h64 h16 =
      ground (
        arith,
        token_guards_same P subcommand 1 permissions rp x y d,
        length-cut16 hash_enc,
        overflow key (cut16 hash_enc),
      )
