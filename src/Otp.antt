-- ===== src/Otp.antt =====
-- src/fido/otp.c: the OTP slots. Their commands are functions of the state and an APDU, which is one
-- of the smart card interface or one that a keyboard report carries.
pub mod Crc
pub mod Modhex
pub mod Slot
pub mod Flags
pub mod Status
pub mod Configure
pub mod Swap
pub mod Calculate
pub mod Command
pub mod Guard
pub mod Button
pub mod Hid
pub mod Switch
pub mod Tests
use fido_touch.Prelude.{
  ℕ, ◌+◌, ◌≡◌, Bool, true, false, List, ◌++◌, length, take, drop, replicate, get_or,
}
use fido_touch.Platform.{Platform}

-- The status words that the commands answer
pub data Sw : Type 0 where
  ok_sw wrong_length incorrect_p1p2 exec_error security_status_not_satisfied wrong_data : Sw
  conditions_not_satisfied cla_not_supported ins_not_supported : Sw

pub record Apdu : Type 0 where
  pub cla : ℕ
  pub ins : ℕ
  pub p1 : ℕ
  pub p2 : ℕ
  pub bytes : List ℕ

-- What the keyboard types: a line with or without the key that ends it, and keys after it
pub data Press : Type 0 where
  add_keyboard_buffer : List ℕ → Bool → Press
  append_keyboard_buffer : List ℕ → Press

-- The flash, the statics of the file, the buffer `res_APDU` of the answer with the size of what is in
-- it, and what was typed
pub record Otp (F R : Type 0) : Type 0 where
  pub fs : F
  pub rng : R
  pub config_seq : ℕ
  pub scanned : Bool
  pub session_counter : List ℕ
  pub status_byte : ℕ
  pub is_otp : Bool
  pub out : List ℕ
  pub size : ℕ
  pub typed : List Press

abbrev pub OtpOf : Platform → Type 0
OtpOf P = Otp P.Fs P.Rng

-- `otp_config_t`: its size, and the fields by their offset
abbrev pub config_size : ℕ
config_size = 52

abbrev pub fixed_data : List ℕ → List ℕ
fixed_data c = take 16 c

abbrev pub uid : List ℕ → List ℕ
uid c = take 6 (drop 16 c)

abbrev pub aes_key : List ℕ → List ℕ
aes_key c = take 16 (drop 22 c)

abbrev pub acc_code : List ℕ → List ℕ
acc_code c = take 6 (drop 38 c)

abbrev pub fixed_size : List ℕ → ℕ
fixed_size c = get_or c 44 0

abbrev pub ext_flags : List ℕ → ℕ
ext_flags c = get_or c 45 0

abbrev pub tkt_flags : List ℕ → ℕ
tkt_flags c = get_or c 46 0

abbrev pub cfg_flags : List ℕ → ℕ
cfg_flags c = get_or c 47 0

-- The bytes go into an array, at `at`.
unfoldable pub overlay : ℕ → List ℕ → List ℕ → List ℕ
overlay at d out = take at out ++ (d ++ drop (at + length d) out)

-- An array of `n` bytes that is zero but for what it was given
abbrev pub fit : ℕ → List ℕ → List ℕ
fit n d = take n (d ++ replicate n 0)
