-- ===== src/Ctap/Permission.antt =====
-- The permissions CTAP_PERMISSION_* of src/fido/ctap.h.
use fido_touch.Prelude.{ℕ}

abbrev pub mc : ℕ
mc = 0x01

abbrev pub ga : ℕ
ga = 0x02

abbrev pub be : ℕ
be = 0x08

abbrev pub lbw : ℕ
lbw = 0x10

abbrev pub acfg : ℕ
acfg = 0x20

abbrev pub pcmr : ℕ
pcmr = 0x40
