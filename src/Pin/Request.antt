-- ===== src/Pin/Request.antt =====
-- The parameters of the command, with the key of the platform that COSE_read_key reads.
use fido_touch.Prelude.{ℕ, Bool, true, false, ◌||◌, Option, none, some, List, ◌==◌, if◌then◌else◌}
use fido_touch.Exec.{improper_value, code, Result, ok, err, fault}
use fido_touch.Platform.{Item, Items, uint, nint, map, end, item, broken}
use fido_touch.Cbor.{get_uint, get_bytes, get_text, map_result}

-- `kty`, `alg` and `crv` are integers: `uint n` or `nint n`.
pub record CoseKey : Type 0 where
  pub kty : Item
  pub alg : Item
  pub crv : Item
  pub x : Option (List ℕ)
  pub y : Option (List ℕ)

abbrev pub no_key : CoseKey
no_key = record { kty = uint 0; alg = uint 0; crv = uint 0; x = none; y = none }

-- CBOR_FIELD_GET_INT
abbrev pub get_int : Item → Result Item
get_int (uint n) = ok (uint n)
get_int (nint n) = ok (nint n)
get_int _ = err improper_value

-- The value of one key of COSE_read_key; any other key has its value skipped.
unfoldable pub cose_field : Item → Item → CoseKey → Result CoseKey
cose_field (uint k) v c =
    if k == 1
    then map_result (λ n. record c { kty = n }) (get_int v)
    else if k == 3
    then map_result (λ n. record c { alg = n }) (get_int v)
    else ok c
cose_field (nint k) v c =
    if k == 0
    then map_result (λ n. record c { crv = n }) (get_int v)
    else if k == 1
    then map_result (λ b. record c { x = some b }) (get_bytes v)
    else if k == 2
    then map_result (λ b. record c { y = some b }) (get_bytes v)
    else ok c
cose_field _ v c = err improper_value

abbrev is_int : Item → Bool
is_int (uint n) = true
is_int (nint n) = true
is_int _ = false

-- The loop of COSE_read_key.
unfoldable pub cose_fields : CoseKey → Items → Result CoseKey
unfolding cose_field
cose_fields c (end e) = if e == 0 then ok c else err (code e)
cose_fields c (broken e) = err (code e)
cose_fields c (item k (end e)) = err improper_value
cose_fields c (item k (broken e)) = if is_int k then err (code e) else err improper_value
cose_fields c (item k (item v rest)) = elim (cose_field k v c) [
  | ok c' ↦ cose_fields c' rest
  | err e ↦ err e
  | fault ↦ fault
]

unfoldable pub read_key : Item → Result CoseKey
read_key (map ms) = cose_fields no_key ms
read_key _ = err improper_value

-- The locals of `cbor_client_pin`; what is absent is `none`.
pub record Request : Type 0 where
  pub protocol : ℕ
  pub subcommand : ℕ
  pub key : CoseKey
  pub auth_param : Option (List ℕ)
  pub new_pin_enc : Option (List ℕ)
  pub pin_hash_enc : Option (List ℕ)
  pub permissions : ℕ
  pub rp_id : Option (List ℕ)

abbrev pub no_request : Request
no_request = record {
  protocol = 0;
  subcommand = 0;
  key = no_key;
  auth_param = none;
  new_pin_enc = none;
  pin_hash_enc = none;
  permissions = 0;
  rp_id = none;
}

unfoldable pub put_field : ℕ → Item → Request → Option (Result Request)
put_field k v q =
    if k == 1
    then some (map_result (λ n. record q { protocol = n }) (get_uint v))
    else if k == 2
    then some (map_result (λ n. record q { subcommand = n }) (get_uint v))
    else if k == 3
    then some (map_result (λ c. record q { key = c }) (read_key v))
    else if k == 4
    then some (map_result (λ b. record q { auth_param = some b }) (get_bytes v))
    else if k == 5
    then some (map_result (λ b. record q { new_pin_enc = some b }) (get_bytes v))
    else if k == 6
    then some (map_result (λ b. record q { pin_hash_enc = some b }) (get_bytes v))
    else if k == 9
    then some (map_result (λ n. record q { permissions = n }) (get_uint v))
    else if k == 10
    then some (map_result (λ b. record q { rp_id = some b }) (get_text v))
    else none

-- The parameters that a subcommand needs are all there.
abbrev pub both : {A B : Type 0} → Option A → Option B → Option (A × B)
both none b = none
both (some a) none = none
both (some a) (some b) = some (a, b)

-- The same tests begin setPIN, changePIN and getPinUvAuthToken.
abbrev pub no_alg : Item → Bool
no_alg (uint n) = n == 0
no_alg _ = false

abbrev pub needed : {A : Type 0} → Request → Option A → Option (List ℕ × (List ℕ × A))
needed q params =
    if q.protocol == 0 || no_alg q.key.alg then none else both q.key.x (both q.key.y params)
