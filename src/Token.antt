-- ===== src/Token.antt =====
-- The pinUvAuthToken of src/fido/cbor_client_pin.c: its flags, its permissions, its timers, and the
-- epoch that its changes move. Times are those of `board_millis`, and uint32_t sums wrap.
pub mod Authority
pub mod Expiry
pub mod Tests
use fido_touch.Prelude.{
  ℕ, ◌+◌, ◌*◌, ◌%◌, ◌^◌, Bool, true, false, not, ◌&&◌, ◌||◌, List, replicate, leb, ◌==◌,
  if◌then◌else◌,
}
use fido_touch.Authorization.{invalidate}

-- `paut`, the timers beside it, and the epoch of object_authorization.c
pub record Session : Type 0 where
  pub token : List ℕ
  pub in_use : Bool
  pub permissions : ℕ
  pub rp_id_hash : List ℕ
  pub has_rp_id : Bool
  pub user_present : Bool
  pub user_verified : Bool
  pub usage_timer : ℕ
  pub initial_usage_time_limit : ℕ
  pub user_present_time_limit : ℕ
  pub epoch : ℕ

abbrev pub max_usage_time_period : ℕ
max_usage_time_period = 600 * 1000

abbrev pub transport_time_limit : ℕ
transport_time_limit = 30 * 1000

abbrev pub permission_lbw : ℕ
permission_lbw = 0x10

-- uint32_t addition
abbrev pub add_time : ℕ → ℕ → ℕ
add_time a b = (a + b) % 2 ^ 32

-- `fido_object_authorization_session_invalidate`
abbrev new_epoch : Session → Session
new_epoch s = record s { epoch = invalidate s.epoch }

-- `beginUsingPinUvAuthToken` at the time `now`
unfoldable pub begin_using : Bool → ℕ → Session → Session
begin_using present now s = new_epoch (record s {
  user_present = present;
  user_verified = true;
  initial_usage_time_limit = now;
  usage_timer = now;
  in_use = true;
})

unfoldable pub clear_user_present : Session → Session
clear_user_present s =
    if s.in_use && s.user_present then new_epoch (record s { user_present = false }) else s

unfoldable pub clear_user_verified : Session → Session
clear_user_verified s =
    if s.in_use && s.user_verified then new_epoch (record s { user_verified = false }) else s

unfoldable pub clear_permissions_except_lbw : Session → Session
clear_permissions_except_lbw s =
    if s.in_use && not (s.permissions == permission_lbw)
    then new_epoch (record s { permissions = permission_lbw })
    else s

-- `token_active` of `stopUsingPinUvAuthToken`
abbrev pub token_active : Session → Bool
token_active s =
    s.in_use || not (s.permissions == 0) || s.has_rp_id || s.user_present || s.user_verified

abbrev stopped : Session → Session
stopped s = record s {
  permissions = 0;
  usage_timer = 0;
  in_use = false;
  rp_id_hash = replicate 32 0;
  has_rp_id = false;
  initial_usage_time_limit = 0;
  user_present = false;
  user_verified = false;
  user_present_time_limit = 0;
}

unfoldable pub stop_using : Session → Session
stop_using s = if token_active s then new_epoch (stopped s) else stopped s

-- `getUserPresentFlagValue` and `getUserVerifiedFlagValue` drop the flag of a token not in use.
unfoldable pub get_user_present : Session → Bool × Session
get_user_present s =
    let s' = record s { user_present = s.in_use && s.user_present } in (s'.user_present, s')

unfoldable pub get_user_verified : Session → Bool × Session
get_user_verified s =
    let s' = record s { user_verified = s.in_use && s.user_verified } in (s'.user_verified, s')

-- The test of `pin_uv_auth_token_tick` for the end of the token.
unfoldable pub expired : ℕ → Session → Bool
expired now s =
    leb (add_time s.usage_timer max_usage_time_period) now
    || s.initial_usage_time_limit == 0
    || leb (add_time s.initial_usage_time_limit transport_time_limit) now

-- Its test for the end of the user's presence.
unfoldable pub presence_expired : ℕ → Session → Bool
presence_expired now s =
    s.user_present_time_limit == 0
    || leb (add_time s.user_present_time_limit transport_time_limit) now

-- `pin_uv_auth_token_tick` at the time `now`
unfoldable pub tick : ℕ → Session → Session
unfolding expired presence_expired
tick now s =
    if s.usage_timer == 0
    then s
    else if s.in_use && expired now s
    then stop_using s
    else if presence_expired now s
    then clear_user_present s
    else s

-- `resetPinUvAuthToken`, with the 32 bytes that are in EF_AUTHTOKEN afterwards
unfoldable pub reset_token : List ℕ → Session → Session
reset_token bytes s = new_epoch (record s { permissions = 0; token = bytes })

-- What getPinUvAuthTokenUsingPinWithPermissions does to the token once the PIN is right: `rp` is
-- the hash of the identifier of the relying party, if the platform named one.
unfoldable pub issue : List ℕ → ℕ → ℕ → Bool → List ℕ → Session → Session
unfolding reset_token begin_using
issue bytes now permissions has_rp rp s =
    let s' = begin_using false now (reset_token bytes s) in
    record s' {
      permissions = permissions % 256;
      rp_id_hash = if has_rp then rp else s'.rp_id_hash;
      has_rp_id = has_rp;
    }

-- makeCredential and getAssertion bind a token that has no relying party yet.
unfoldable pub bind_rp : List ℕ → Session → Session
bind_rp rp s = if s.has_rp_id then s else record s { rp_id_hash = rp; has_rp_id = true }
