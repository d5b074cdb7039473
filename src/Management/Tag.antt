-- ===== src/Management/Tag.antt =====
-- The tags TAG_* of src/fido/management.h.
use fido_touch.Prelude.{ℕ}

abbrev pub usb_supported : ℕ
usb_supported = 0x01

abbrev pub serial : ℕ
serial = 0x02

abbrev pub usb_enabled : ℕ
usb_enabled = 0x03

abbrev pub form_factor : ℕ
form_factor = 0x04

abbrev pub version : ℕ
version = 0x05

abbrev pub device_flags : ℕ
device_flags = 0x08

abbrev pub config_lock : ℕ
config_lock = 0x0a
