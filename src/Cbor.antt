-- ===== src/Cbor.antt =====
-- The parameters of a command: the loops between CBOR_PARSE_MAP_START and CBOR_PARSE_MAP_END in
-- src/fido/cbor_client_pin.c and src/fido/cbor_large_blobs.c, with the macros of ctap2_cbor.h.
pub mod Fault
use fido_touch.Prelude.{
  ℕ, ◌+◌, ◌%◌, ◌^◌, not, ◌&&◌, List, Option, none, some, ltb, leb, ◌==◌, if◌then◌else◌,
}
use fido_touch.Exec.{improper_value, code, Result, ok, err, fault}
use fido_touch.Platform.{Item, Items, uint, bytes, text, map, end, item, broken}
use fido_touch.Ctap.Err.{missing_parameter, invalid_cbor}

-- CBOR_FIELD_GET_UINT, CBOR_FIELD_GET_BYTES and CBOR_FIELD_GET_TEXT on the value at the cursor
abbrev pub get_uint : Item → Result ℕ
get_uint (uint n) = ok n
get_uint _ = err improper_value

abbrev pub get_bytes : Item → Result (List ℕ)
get_bytes (bytes b) = ok b
get_bytes _ = err improper_value

abbrev pub get_text : Item → Result (List ℕ)
get_text (text b) = ok b
get_text _ = err improper_value

abbrev pub map_result : {A B : Type 0} → (A → B) → Result A → Result B
map_result f (ok a) = ok (f a)
map_result f (err e) = err e
map_result f fault = fault

-- Leaving the container at its end.
abbrev leave : {A : Type 0} → ℕ → A → Result A
leave c a = if c == 0 then ok a else err (code c)

-- `cbor_parser_init` with the code it returns, where the first item cannot be opened
abbrev pub parser_init : Items → Result (Unit {0})
parser_init (broken c) = err (code c)
parser_init _ = ok tt

-- The order of the keys: `val_c` is one more than the last key, and the first `required` keys may
-- not be missing.
unfoldable pub check_key : ℕ → ℕ → ℕ → Option ℕ
check_key required val_c val_u =
    if leb val_c required && not (val_c == val_u)
    then some missing_parameter
    else if ltb val_u val_c
    then some invalid_cbor
    else none

module _ {Q : Type 0} (required : ℕ) (put_field : ℕ → Item → Q → Option (Result Q)) where
  -- `put_field` is `none` at a key that the loop has no branch for: nothing is read, and the value
  -- is taken for the next key.
  unfoldable pub fields : ℕ → Q → Items → Result Q
  unfolding check_key
  fields val_c q (end c) = leave c q
  fields val_c q (broken c) = err (code c)
  fields val_c q (item (uint k) (broken c)) = err (code c)
  fields val_c q (item (uint k) (end c)) = elim (check_key required val_c k) [
    | some e ↦ err (code e)
    | none ↦ elim (put_field k Item.other q) [ none ↦ leave c q | some _ ↦ err improper_value ]
  ]
  fields val_c q (item (uint k) (item v rest)) = elim (check_key required val_c k) [
    | some e ↦ err (code e)
    | none ↦ elim (put_field k v q) [
      | none ↦ fields ((k + 1) % 2 ^ 64) q (item v rest)
      | some (ok q') ↦ fields ((k + 1) % 2 ^ 64) q' rest
      | some (err e) ↦ err e
      | some fault ↦ fault
    ]
  ]
  fields val_c q (item _ rest) = err improper_value

  -- The top value must be a map.
  unfoldable pub parse_map : Q → Items → Result Q
  parse_map q (item (map ms) rest) = fields 1 q ms
  parse_map q (broken c) = err (code c)
  parse_map q _ = err improper_value
