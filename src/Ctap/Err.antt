-- ===== src/Ctap/Err.antt =====
-- The codes of src/fido/ctap.h; those below 0x10 are of the SDK, with the numbers of CTAP.
use fido_touch.Prelude.{ℕ}

abbrev pub invalid_cmd : ℕ
invalid_cmd = 0x01

abbrev pub invalid_parameter : ℕ
invalid_parameter = 0x02

abbrev pub invalid_len : ℕ
invalid_len = 0x03

abbrev pub invalid_seq : ℕ
invalid_seq = 0x04

abbrev pub unexpected_type : ℕ
unexpected_type = 0x11

abbrev pub invalid_cbor : ℕ
invalid_cbor = 0x12

abbrev pub missing_parameter : ℕ
missing_parameter = 0x14

abbrev pub large_blob_storage_full : ℕ
large_blob_storage_full = 0x18

abbrev pub processing : ℕ
processing = 0x21

abbrev pub operation_denied : ℕ
operation_denied = 0x27

abbrev pub unsupported_option : ℕ
unsupported_option = 0x2b

abbrev pub user_action_timeout : ℕ
user_action_timeout = 0x2f

abbrev pub not_allowed : ℕ
not_allowed = 0x30

abbrev pub pin_invalid : ℕ
pin_invalid = 0x31

abbrev pub pin_blocked : ℕ
pin_blocked = 0x32

abbrev pub pin_auth_invalid : ℕ
pin_auth_invalid = 0x33

abbrev pub pin_auth_blocked : ℕ
pin_auth_blocked = 0x34

abbrev pub pin_not_set : ℕ
pin_not_set = 0x35

abbrev pub puat_required : ℕ
puat_required = 0x36

abbrev pub pin_policy_violation : ℕ
pin_policy_violation = 0x37

abbrev pub integrity_failure : ℕ
integrity_failure = 0x3d

abbrev pub unauthorized_permission : ℕ
unauthorized_permission = 0x40
