-- ===== src/Management/Cap.antt =====
-- The applications CAP_* of src/fido/management.h.
use fido_touch.Prelude.{ℕ}

abbrev pub otp : ℕ
otp = 0x01

abbrev pub u2f : ℕ
u2f = 0x02

abbrev pub openpgp : ℕ
openpgp = 0x08

abbrev pub piv : ℕ
piv = 0x10

abbrev pub oath : ℕ
oath = 0x20

abbrev pub fido2 : ℕ
fido2 = 0x200
