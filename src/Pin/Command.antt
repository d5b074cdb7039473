-- ===== src/Pin/Command.antt =====
-- The command `cbor_client_pin`: its parameters, its answers on the retries and the key agreement, and
-- the choice of the subcommand.
use fido_touch.Prelude.{
  ℕ, Bool, true, false, ◌||◌, none, some, List, length, get_or, ◌==◌, if◌then◌else◌,
}
use fido_touch.Exec.{Exec, ok, err, fault, code, raise, lift, ◌>>=◌, ◌>>◌}
use fido_touch.Platform.{Platform, Item, Items, uint, nint, bytes, bool, map, item, end}
use fido_touch.Ctap.Err
use fido_touch.Ctap.Ef
use fido_touch.Cbor.{parser_init, parse_map}
use fido_touch.Pin.Device.{DeviceOf, initialize}
use fido_touch.Pin.Request.{Request, no_request, put_field}
use fido_touch.Pin.SetPin.{set_pin}
use fido_touch.Pin.ChangePin.{change_pin}
use fido_touch.Pin.GetToken.{get_token}

module _ (P : Platform) where
  open P use {contents, encode, decode, public, blank_point}

  abbrev answer : Items → Exec (DeviceOf P) (List ℕ)
  answer m d = let (c, out) = encode (map m) in (if c == 0 then ok out else err (code c), d)

  abbrev blocked_field : Bool → Items
  blocked_field true = item (uint 4) (item (bool true) (end 0))
  blocked_field false = end 0

  -- getPINRetries reads the record of a PIN, whether there is one or not.
  unfoldable pub get_retries : Exec (DeviceOf P) (List ℕ)
  get_retries d =
      let stored = contents d.fs Ef.pin in
      if length stored == 0
      then (fault, d)
      else answer
          (item (uint 3) (item (uint (get_or stored 0 0)) (blocked_field d.needs_power_cycle))) d

  -- COSE_key_shared: an EC2 key on P-256 for ECDH-ES + HKDF-256
  abbrev point_fields : List ℕ × List ℕ → Items
  point_fields (x, y) = item (nint 1) (item (bytes x) (item (nint 2) (item (bytes y) (end 0))))

  abbrev cose_key : List ℕ × List ℕ → Item
  cose_key q = map (
      item (uint 1) (
        item (uint 2)
          (item (uint 3) (item (nint 24) (item (nint 0) (item (uint 1) (point_fields q)))))))

  -- Without a key pair the point cannot be written.
  unfoldable pub get_key_agreement : Request → Exec (DeviceOf P) (List ℕ)
  get_key_agreement q d =
      if q.protocol == 1 || q.protocol == 2
      then (elim d.hkey [
        | none ↦ raise blank_point d
        | some key ↦ answer (item (uint 1) (item (cose_key (public key)) (end 0))) d
      ])
      else if q.protocol == 0
      then raise Err.missing_parameter d
      else raise Err.invalid_parameter d

  -- The subcommand
  unfoldable pub dispatch : ℕ → Request → Exec (DeviceOf P) (List ℕ)
  dispatch now q =
      if q.subcommand == 0
      then raise Err.missing_parameter
      else if q.subcommand == 1
      then get_retries
      else if q.subcommand == 2
      then get_key_agreement q
      else if q.subcommand == 3
      then set_pin P q
      else if q.subcommand == 4
      then change_pin P q
      else if q.subcommand == 9 || q.subcommand == 5
      then get_token P now q
      else raise Err.unsupported_option

  -- `cbor_client_pin` at the time `now`: nothing is initialised for a message that cannot be opened.
  unfoldable pub client_pin : ℕ → List ℕ → Exec (DeviceOf P) (List ℕ)
  unfolding dispatch
  client_pin now msg = do
    lift (parser_init (decode msg))
    λ d.
        (do q ← lift (parse_map 2 put_field no_request (decode msg)); dispatch now q)
          (initialize P d)
