-- ===== src/Otp/Flags.antt =====
-- The flags of a slot that src/fido/otp.c tests.
use fido_touch.Prelude.{ℕ}

-- of the ticket
abbrev pub append_cr : ℕ
append_cr = 0x20

abbrev pub oath_hotp : ℕ
oath_hotp = 0x40

abbrev pub chal_resp : ℕ
chal_resp = 0x40

-- of the configuration
abbrev pub short_ticket : ℕ
short_ticket = 0x02

abbrev pub static_ticket : ℕ
static_ticket = 0x20

abbrev pub hmac_lt64 : ℕ
hmac_lt64 = 0x04

abbrev pub chal_btn_trig : ℕ
chal_btn_trig = 0x08

abbrev pub chal_yubico : ℕ
chal_yubico = 0x20

abbrev pub chal_hmac : ℕ
chal_hmac = 0x22

abbrev pub oath_hotp8 : ℕ
oath_hotp8 = 0x02

-- what an update may change
abbrev pub ext_update : ℕ
ext_update = 0xff

abbrev pub tkt_update : ℕ
tkt_update = 0x3f

abbrev pub cfg_update : ℕ
cfg_update = 0x0c
