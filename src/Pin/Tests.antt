-- ===== src/Pin/Tests.antt =====
-- Runs of the PIN commands on a device in memory, whose PIN is 1234.
use fido_touch.Prelude.{
  ℕ, ◌≡◌, ◌≢◌, refl, inl, true, false, none, some, List, [], ◌∷◌, ◌++◌, length, eq_bytes, get_or,
  replicate, arith, ◌+◌, ◌≤◌, ◌==◌,
}
use fido_touch.Exec.{ok, err, fault, code}
use fido_touch.Platform.{Platform, Item, Items, uint, nint, bytes, map, item, end}
use fido_touch.Platform.Memory.{memory, read, write, pad, last_or}
use fido_touch.Ctap.Err
use fido_touch.Ctap.Ef
use fido_touch.Protocol.{encrypt, decrypt, ecdh, kdf, verify, compare_bytes}
use fido_touch.Token.{Session}
use fido_touch.Pin.Device.{DeviceOf, check_keydev_encrypted}
use fido_touch.Pin.Policy.{until_zero, codepoints, codepoints_from, policy_pass}
use fido_touch.Pin.Policy.Laws.{any, count_starts}
use fido_touch.Pin.Attempt.{
  load_pin_data, persist_retries, spend_loaded, spend_retry, matches, compare_pin, wrong_pin,
  try_pin, half_of, upgrade_pin,
}
use fido_touch.Pin.NewPin.{
  cut16, accept_pin, min_pin, read_point, shared_secret, force_change, bad_new_pin_enc,
  check_signature, receive_pin,
}
use fido_touch.Pin.NewPin.Laws.{accept_pin_lem, lacks_some}
use fido_touch.Pin.SetPin.{adopt_pin}
use fido_touch.Pin.ChangePin.{change_guards, bad_pin_hash_enc}
use fido_touch.Pin.GetToken.{
  check_permissions, token_guards, get_token_with, settle, give_token, refuse_forced, grant,
  send_token,
}
use fido_touch.Pin.Command.{client_pin}
use fido_touch.Cbor.{parser_init}
use fido_touch.Pin.Lock.{
  at_most_initialized, IsLocked, client_pin_locked, client_pins-IsLocked, client_pins,
}
use fido_touch.Pin.Retry.{try_pin_spends, try_pin-IsLocked}
use fido_touch.Pin.Grant.{IsRight, IsGranted, get_token_needs_pin, get_token-IsGranted}
use fido_touch.Pin.RoundTrip.{pin_hash, spent, set_pin-try_pin}
use fido_touch.Pin.Room.{change_pin_fits, get_token_overflows}

abbrev entries : List (Item × Item) → Items
entries [] = end 0
entries ((k, v) ∷ kvs) = item k (item v (entries kvs))

abbrev point_of_platform : Item
point_of_platform =
    map (entries ((uint 3, nint 24) ∷ (nint 1, bytes (1 ∷ [])) ∷ (nint 2, bytes (2 ∷ [])) ∷ []))

-- Every message is read as this request for a token under protocol one.
abbrev request_items : Items
request_items =
    item
      (map (
        entries (
          (uint 1, uint 1)
          ∷ (uint 2, uint 5)
          ∷ (uint 3, point_of_platform)
          ∷ (uint 6, bytes (replicate 16 52))
          ∷ [])))
      (end 0)

abbrev board : Platform
board = memory (λ b. request_items)

abbrev fresh_session : Session
fresh_session = record {
  token = replicate 32 9;
  in_use = false;
  permissions = 0;
  rp_id_hash = replicate 32 0;
  has_rp_id = false;
  user_present = false;
  user_verified = false;
  usage_timer = 0;
  initial_usage_time_limit = 0;
  user_present_time_limit = 0;
  epoch = 1;
}

abbrev device_with : ℕ → DeviceOf board
device_with retries = record {
  fs = (Ef.pin, retries ∷ (4 ∷ (1 ∷ replicate 32 52))) ∷ [];
  rng = 1;
  session = fresh_session;
  persistent_token = replicate 32 8;
  persistent_permissions = 0;
  hkey = some 7;
  new_pin_mismatches = 0;
  needs_power_cycle = false;
  session_pin = [];
  keydev_dec = none;
}

blocked-IsLocked : IsLocked board (device_with 0)
unfolding IsLocked read
blocked-IsLocked = ground arith

client_pin_locked_example :
    (client_pin board 5 (1 ∷ []) (device_with 0)).1
    ≡ at_most_initialized board (parser_init (board.decode (1 ∷ []))) (device_with 0)
client_pin_locked_example = client_pin_locked board 5 (1 ∷ []) (device_with 0) blocked-IsLocked

client_pins-IsLocked_example :
    IsLocked board (client_pins board ((5, 1 ∷ []) ∷ ((6, 2 ∷ []) ∷ [])) (device_with 0))
    × (board.contents
          (client_pins board ((5, 1 ∷ []) ∷ ((6, 2 ∷ []) ∷ [])) (device_with 0)).fs
          Ef.pin
        ≡ board.contents (device_with 0).fs Ef.pin)
client_pins-IsLocked_example =
    client_pins-IsLocked board ((5, 1 ∷ []) ∷ ((6, 2 ∷ []) ∷ [])) (device_with 0) blocked-IsLocked

abbrev right_hash : List ℕ
right_hash = replicate 16 52

try_right :
    (try_pin board 64 false 1 [] right_hash (device_with 8)).0
    ≡ ok (record { hash = right_hash; pin_data = 7 ∷ (4 ∷ (1 ∷ replicate 32 52)); legacy = false })
unfolding try_pin spend_retry spend_loaded load_pin_data persist_retries compare_pin matches decrypt
    read write pad last_or eq_bytes
try_right = refl

try_pin_spends_example :
    get_or (board.contents (try_pin board 64 false 1 [] right_hash (device_with 8)).1.fs Ef.pin) 0 0
      + 1
    ≡ get_or (board.contents (device_with 8).fs Ef.pin) 0 0
unfolding read
try_pin_spends_example =
    try_pin_spends board 64 false 1 [] right_hash (device_with 8) (omega arith) (omega arith)
      (ground (arith, try_right))

try_wrong :
    (try_pin board 64 false 1 [] (replicate 16 1) (device_with 1)).0 ≡ err (code Err.pin_blocked)
unfolding try_pin spend_retry spend_loaded load_pin_data persist_retries compare_pin wrong_pin
    matches decrypt read write pad last_or eq_bytes
try_wrong = refl

try_pin-IsLocked_example :
    IsLocked board (try_pin board 64 false 1 [] (replicate 16 1) (device_with 1)).1
try_pin-IsLocked_example =
    try_pin-IsLocked board 64 false 1 [] (replicate 16 1) (device_with 1) (inl try_wrong)

token_given :
    (get_token_with board 100000 5 1 0 none (1 ∷ []) (2 ∷ []) right_hash (device_with 8)).0 ≡ ok []
unfolding get_token_with token_guards check_permissions read_point shared_secret ecdh kdf try_pin
    spend_retry spend_loaded load_pin_data persist_retries compare_pin matches decrypt settle
    upgrade_pin check_keydev_encrypted give_token force_change refuse_forced grant send_token
    encrypt read write pad last_or eq_bytes
token_given = refl

get_token_needs_pin_example :
    (key : List ℕ) × ((token_guards board 5 1 0 none (1 ∷ []) (2 ∷ []) (device_with 8)).0 ≡ ok key)
    × IsRight board 64 false 1 key (cut16 right_hash) (device_with 8)
get_token_needs_pin_example =
    get_token_needs_pin board 100000 5 1 0 none (1 ∷ []) (2 ∷ []) right_hash [] (device_with 8)
      (inl token_given)

get_token-IsGranted_example :
    IsGranted board 100000 5 0 none
      (get_token_with board 100000 5 1 0 none (1 ∷ []) (2 ∷ []) right_hash (device_with 8)).1
get_token-IsGranted_example =
    get_token-IsGranted board 100000 5 1 0 none (1 ∷ []) (2 ∷ []) right_hash [] (device_with 8)
      token_given

abbrev pin_1234 : List ℕ
pin_1234 = 49 ∷ (50 ∷ (51 ∷ (52 ∷ [])))

hash_1234 :
    half_of board true (decrypt board 1 [] (replicate 16 52) 272) ≡ ok (pin_hash board pin_1234)
unfolding decrypt pad last_or
hash_1234 = refl

set_pin-try_pin_example :
    (try_pin board 272 true 1 [] (replicate 16 52) (adopt_pin board pin_1234 (device_with 3))).0
    ≡ ok
        (record { hash = pin_hash board pin_1234; pin_data = spent board pin_1234; legacy = false })
set_pin-try_pin_example =
    set_pin-try_pin board pin_1234 272 true 1 [] (replicate 16 52) (device_with 3) (λ s b. refl)
      (λ s. refl) hash_1234

accepted : (accept_pin board 64 (pin_1234 ++ replicate 60 0) (device_with 8)).0 ≡ ok pin_1234
unfolding accept_pin until_zero codepoints codepoints_from min_pin policy_pass read
accepted = refl

accept_pin_lem_example :
    (pin_1234 ≡ until_zero (pin_1234 ++ replicate 60 0))
    × (any (λ c. c == 0) pin_1234 ≡ false)
    × (length pin_1234 ≤ 63)
    × (64 ≤ 64)
    × (min_pin board (board.contents (device_with 8).fs Ef.minpinlen) ≤ count_starts pin_1234)
    × (length (board.contents (device_with 8).fs Ef.pin_complexity_policy) ≢ 0
        → lacks_some board
            (board.get_be16 (board.contents (device_with 8).fs Ef.pin_complexity_policy))
            pin_1234
          ≡ false)
accept_pin_lem_example =
    accept_pin_lem board 64 (pin_1234 ++ replicate 60 0) pin_1234 (device_with 8) accepted

guarded :
    (change_guards board 1
      (1 ∷ [])
      (2 ∷ [])
      (replicate 64 1)
      right_hash
      (replicate 32 52)
      (device_with 8)).0
    ≡ ok (replicate 32 7)
unfolding change_guards bad_new_pin_enc bad_pin_hash_enc read_point shared_secret ecdh kdf
    check_signature verify compare_bytes read pad last_or eq_bytes
guarded = refl

change_pin_fits_example :
    (decrypt board 1 (replicate 32 7) right_hash 272 ≢ fault)
    × ((receive_pin board 1 (replicate 32 7) (replicate 64 1) (device_with 7)).0 ≢ fault)
change_pin_fits_example =
    change_pin_fits board 1 (1 ∷ []) (2 ∷ []) (replicate 64 1) right_hash (replicate 32 52)
      (replicate 32 7) (device_with 8) (device_with 7) guarded

guarded_token :
    (token_guards board 5 1 0 none (1 ∷ []) (2 ∷ []) (device_with 8)).0 ≡ ok (replicate 32 7)
unfolding token_guards check_permissions read_point shared_secret ecdh kdf read pad last_or
guarded_token = refl

spent_8 : (spend_retry board (device_with 8)).0 ≡ ok (7 ∷ (4 ∷ (1 ∷ replicate 32 52)), 35)
unfolding spend_retry spend_loaded load_pin_data persist_retries read write
spent_8 = refl

get_token_overflows_example :
    (get_token_with board 100000 5 1 0 none (1 ∷ []) (2 ∷ []) (replicate 80 1) (device_with 8)).0
    ≡ fault
get_token_overflows_example =
    get_token_overflows board 100000 5 0 none (1 ∷ []) (2 ∷ []) (replicate 80 1) (replicate 32 7)
      (7 ∷ (4 ∷ (1 ∷ replicate 32 52))) 35 (device_with 8) guarded_token spent_8 (omega arith)
      (omega arith)
