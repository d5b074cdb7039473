-- ===== src/Otp/Hid/Room.antt =====
-- An answer that is longer than the buffer of the keyboard reports.
use fido_touch.Prelude.{
  ℕ, ◌+◌, ◌≤◌, ◌<◌, ◌≡◌, refl, Bool, true, List, length, length-append, take, drop, get_or, arith,
  ltb, ◌==◌,
}
use fido_touch.Exec.{ok, fault}
use fido_touch.Platform.{Platform}
use fido_touch.Management.Cap
use fido_touch.Management.{cap_supported, man_get_config}
use fido_touch.Otp.{overlay}
use fido_touch.Otp.Crc.{calculate_crc}
use fido_touch.Otp.Command.{cmd_otp, process_apdu}
use fido_touch.Otp.Hid.{HidOf, frame_size, deliver}

length-overlay : (d out : List ℕ) → length d ≤ length (overlay 0 d out)
unfolding overlay
length-overlay d out = omega (arith, length-append d (drop (0 + length d) out))

module _ (P : Platform) where
  open P use {get_le16}

  -- The command 0x13 in a keyboard report, the configuration of the device, writes past the 70 bytes of
  -- `otp_frame_tx` where the configuration is longer than that: nothing bounds what was stored.
  pub deliver-man_get_config :
      (refused : Bool) (frame : List ℕ) (h : HidOf P)
      → calculate_crc (take 64 frame) ≡ get_le16 (take 2 (drop 65 frame))
      → get_or frame 64 0 ≡ 0x13
      → cap_supported P Cap.otp h.app.fs ≡ ok true
      → frame_size < length (man_get_config P h.app.fs)
      → (deliver P refused frame h).0 ≡ fault
  unfolding deliver process_apdu cmd_otp
  deliver-man_get_config refused frame h crc slot enabled long =
      let config = man_get_config P h.app.fs in
      let t1 : (calculate_crc (take 64 frame) == get_le16 (take 2 (drop 65 frame))) ≡ true =
        ground (arith, crc) in
      let t2 : ltb frame_size (length (overlay 0 config h.tx)) ≡ true =
        ground (arith, length-overlay config h.tx, long) in
      rw (t1, enabled, slot, t2) refl
