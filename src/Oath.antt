-- ===== src/Oath.antt =====
-- src/fido/oath.c: the OATH application. Its commands are functions of the state and an APDU.
-- Memory that calloc does not give is not modelled.
pub mod Keys
pub mod Code
pub mod OtpPin
pub mod Calculate
pub mod Credentials
pub mod Stored
pub mod Hotp
pub mod Rename
pub mod Listing
pub mod Reset
pub mod Access
pub mod Tests
use fido_touch.Prelude.{ℕ, Bool, true, false, Option, none, some, List, length, take, drop}
use fido_touch.Exec.{Exec, Result, ok}
use fido_touch.Platform.{Platform}

-- The status words that the commands answer
pub data Sw : Type 0 where
  ok_sw security_status_not_satisfied conditions_not_satisfied incorrect_params incorrect_p1p2 : Sw
  wrong_data wrong_length data_invalid exec_error memory_failure file_full : Sw

pub record Apdu : Type 0 where
  pub p1 : ℕ
  pub p2 : ℕ
  pub bytes : List ℕ

-- The flash, the statics of the file, and the answer so far
pub record Oath (F R : Type 0) : Type 0 where
  pub fs : F
  pub rng : R
  pub validated : Bool
  pub challenge : List ℕ
  pub response : List ℕ

abbrev pub OathOf : Platform → Type 0
OathOf P = Oath P.Fs P.Rng

abbrev pub return : {S : Type 0} → Sw → Exec S Sw
return sw s = (ok sw, s)

-- `if (test) { return sw; }`
abbrev pub return_if : {S : Type 0} → Bool → Sw → Exec S Sw → Exec S Sw
return_if true sw rest = return sw
return_if false sw rest = rest

abbrev pub slice : List ℕ → Option (ℕ × ℕ) → Option (List ℕ)
slice d none = none
slice d (some (at, len)) = some (take len (drop at d))

-- The value of a tag
unfoldable pub value : Platform → List ℕ → ℕ → Option (List ℕ)
value P d tag = slice d (P.find_tag d tag)
