-- ===== src/Ctap/Ef.antt =====
-- The files that src/fido/files.h numbers.
use fido_touch.Prelude.{ℕ}

abbrev pub key_dev : ℕ
key_dev = 0xcc00

abbrev pub pin : ℕ
pin = 0x1080

abbrev pub authtoken : ℕ
authtoken = 0x1090

abbrev pub pauthtoken : ℕ
pauthtoken = 0x1091

abbrev pub minpinlen : ℕ
minpinlen = 0x1100

abbrev pub largeblob : ℕ
largeblob = 0x1101

abbrev pub pin_complexity_policy : ℕ
pin_complexity_policy = 0x1102

abbrev pub dev_conf : ℕ
dev_conf = 0x1122

abbrev pub oath_cred : ℕ
oath_cred = 0xba00

abbrev pub oath_code : ℕ
oath_code = 0xbaff

abbrev pub otp_slot1 : ℕ
otp_slot1 = 0xbb00

abbrev pub otp_slot2 : ℕ
otp_slot2 = 0xbb01

abbrev pub otp_pin : ℕ
otp_pin = 0x10a0
