-- ===== src/Pin/GetToken.antt =====
-- getPinToken and getPinUvAuthTokenUsingPinWithPermissions, subcommands 5 and 9 of
-- `cbor_client_pin`.
use fido_touch.Prelude.{
  ℕ, ◌+◌, ◌-◌, ◌*◌, Bool, true, false, not, ◌&&◌, ◌||◌, Option, none, some, List, [], length, take,
  get_or, set, ◌==◌, has_bits, if◌then◌else◌,
}
use fido_touch.Exec.{Exec, ok, err, code, pure, raise, lift, fail_if, ◌>>=◌, ◌>>◌}
use fido_touch.Platform.{Platform, uint, bytes, map, item, end, sha256}
use fido_touch.Ctap.Err
use fido_touch.Ctap.Ef
use fido_touch.Ctap.Permission
use fido_touch.Protocol.{iv_size, encrypt}
use fido_touch.Token.{issue}
use fido_touch.Pin.Device.{DeviceOf, store, check_keydev_encrypted, reset_auth_token}
use fido_touch.Pin.Request.{Request, needed}
use fido_touch.Pin.Attempt.{max_pin_retries, Verified, try_pin, upgrade_pin}
use fido_touch.Pin.NewPin.{cut16, force_change, read_point, shared_secret}

abbrev pub is_present : Option (List ℕ) → Bool
is_present none = false
is_present (some b) = true

-- The tests of the permissions that the platform asks for
unfoldable pub check_permissions : {S : Type 0} → ℕ → ℕ → Option (List ℕ) → Exec S (Unit {0})
check_permissions subcommand permissions rp = do
  fail_if (subcommand == 5 && (not (permissions == 0) || is_present rp)) Err.invalid_parameter
  fail_if (subcommand == 9 && permissions == 0) Err.invalid_parameter
  fail_if (subcommand == 9 && has_bits permissions Permission.be) Err.unauthorized_permission
  fail_if
      (subcommand == 9
        && has_bits permissions Permission.pcmr
        && not (permissions == Permission.pcmr))
      Err.unauthorized_permission

module _ (P : Platform) where
  open P use {contents, digest, derive_session, encode}

  -- The PIN is right: the key of the device is encrypted under it, and the retries are stored anew.
  unfoldable pub settle : Verified → Exec (DeviceOf P) (Unit {0})
  settle v = do
    (pin_data, keydev) ← upgrade_pin P v
    λ e.
        let s = derive_session v.hash in
        let e1 = check_keydev_encrypted P s (record e { session_pin = s }) in
        (
          ok tt,
          store P Ef.pin (set pin_data 0 max_pin_retries) (record e1 { new_pin_mismatches = 0 }),
        )

  abbrev hash_of : Option (List ℕ) → List ℕ
  hash_of none = []
  hash_of (some rp) = digest sha256 rp

  -- The token with its new permissions: the persistent one, or a new one.
  unfoldable pub grant : ℕ → ℕ → ℕ → Option (List ℕ) → DeviceOf P → List ℕ × DeviceOf P
  grant now subcommand permissions rp d =
      if has_bits permissions Permission.pcmr
      then (d.persistent_token, record d { persistent_permissions = Permission.pcmr })
      else (let d1 = reset_auth_token P d in
          let granted = if subcommand == 5 then Permission.mc + Permission.ga else permissions in
          (
            d1.session.token,
            record d1 {
              session = issue d1.session.token now granted (is_present rp) (hash_of rp) d.session;
            },
          ))

  -- The answer, with 32 bytes of protocol one and 48 of two; the code of `encrypt` is not read.
  unfoldable pub send_token : ℕ → List ℕ → List ℕ → Exec (DeviceOf P) (List ℕ)
  send_token protocol key token d =
      let ((ret, out), rng') = encrypt P protocol key token d.rng in
      let d' = record d { rng = rng' } in
      let (c, answer) =
        encode
          (map (item (uint 2) (item (bytes (take (32 + (protocol - 1) * iv_size) out)) (end 0)))) in
      if c == 0 then (ok answer, record d' { needs_power_cycle = false }) else (err (code c), d')

  -- A PIN whose change is demanded gives no token.
  unfoldable pub refuse_forced : Bool → ℕ → ℕ → Option (List ℕ) → Exec (DeviceOf P) (Unit {0})
  refuse_forced false subcommand permissions rp = pure tt
  refuse_forced true subcommand permissions rp =
      if subcommand == 9 && permissions == Permission.acfg && not (is_present rp)
      then raise Err.pin_policy_violation
      else raise Err.pin_invalid

  -- The guards, once the parameters are there
  unfoldable pub token_guards :
      ℕ → ℕ → ℕ → Option (List ℕ) → List ℕ → List ℕ → Exec (DeviceOf P) (List ℕ)
  token_guards subcommand protocol permissions rp x y d =
      let stored = contents d.fs Ef.pin in
      (do
        fail_if (not (protocol == 1) && not (protocol == 2)) Err.invalid_parameter
        check_permissions subcommand permissions rp
        fail_if (length stored == 0) Err.pin_not_set
        fail_if (get_or stored 0 0 == 0) Err.pin_blocked
        read_point P x y
        fail_if d.needs_power_cycle Err.pin_auth_blocked
        shared_secret P protocol x y)
        d

  -- What follows a right PIN
  unfoldable pub give_token : ℕ → ℕ → ℕ → ℕ → Option (List ℕ) → List ℕ → Exec (DeviceOf P) (List ℕ)
  unfolding refuse_forced grant
  give_token now subcommand protocol permissions rp key d =
      (do
        forced ← lift (force_change (contents d.fs Ef.minpinlen))
        refuse_forced forced subcommand permissions rp
        λ e.
            let (token, e') = grant now subcommand permissions rp e in
            send_token protocol key token e')
        d

  unfoldable pub get_token_with :
      ℕ → ℕ → ℕ → ℕ → Option (List ℕ) → List ℕ → List ℕ → List ℕ → Exec (DeviceOf P) (List ℕ)
  unfolding settle
  get_token_with now subcommand protocol permissions rp x y hash_enc = do
    key ← token_guards subcommand protocol permissions rp x y
    v ← try_pin P 64 false protocol key (cut16 hash_enc)
    settle v
    give_token now subcommand protocol permissions rp key

  unfoldable pub get_token : ℕ → Request → Exec (DeviceOf P) (List ℕ)
  unfolding get_token_with
  get_token now q = elim (needed q q.pin_hash_enc) [
    | none ↦ raise Err.missing_parameter
    | some (x, (y, hash_enc)) ↦
        get_token_with now q.subcommand q.protocol q.permissions q.rp_id x y hash_enc
  ]
