-- ===== src/Otp/Status.antt =====
-- The answers that tell which slots are configured.
use fido_touch.Prelude.{
  ℕ, zero, suc, ◌+◌, Bool, true, false, not, ◌&&◌, ◌||◌, List, [], ◌∷◌, ◌++◌, length, take,
  has_bits, if◌then◌else◌,
}
use fido_touch.Platform.{Platform, Picokeys, success}
use fido_touch.Ctap.Ef
use fido_touch.Management.{version_major, version_minor}
use fido_touch.Otp.{OtpOf, Sw, ok_sw, fixed_data, tkt_flags, cfg_flags, overlay}
use fido_touch.Otp.Flags
use fido_touch.Otp.Slot.{slot_load}

-- A slot that answers challenges
abbrev pub is_challenge : List ℕ → Bool
is_challenge c = has_bits (cfg_flags c) Flags.chal_yubico && has_bits (tkt_flags c) Flags.chal_resp

abbrev pub is_hotp : List ℕ → Bool
is_hotp c = has_bits (tkt_flags c) Flags.oath_hotp

abbrev pub is_static : List ℕ → Bool
is_static c =
    has_bits (cfg_flags c) Flags.short_ticket || has_bits (cfg_flags c) Flags.static_ticket

-- The bits CONFIG_VALID and CONFIG_TOUCH of a slot that was loaded
abbrev options : ℕ → ℕ → Picokeys × List ℕ → ℕ
options valid touch (success, c) =
    valid
    + (if not (has_bits (tkt_flags c) Flags.chal_resp) || has_bits (cfg_flags c) Flags.chal_btn_trig
        then touch
        else 0)
options valid touch _ = 0

-- The entry of slot `i`
abbrev entry : ℕ → Picokeys × List ℕ → List ℕ
entry i (success, c) =
    let rest =
      0xa0
      ∷ (2
          ∷ (tkt_flags c
              ∷ (cfg_flags c
                  ∷ (if is_challenge c || is_hotp c || is_static c
                      then []
                      else 0xc0 ∷ (6 ∷ take 6 (fixed_data c)))))) in
    (0xb0 + i) ∷ (length rest ∷ rest)
entry i _ = []

module _ (P : Platform) where
  open P use {Fs, contents, scan_all}

  -- Where there is no file, nothing is loaded.
  unfoldable pub status_bytes : OtpOf P → List ℕ
  unfolding slot_load
  status_bytes s =
      version_major
      ∷ (version_minor
          ∷ (0
              ∷ (s.config_seq
                  ∷ ((options 0x01 0x04 (slot_load P Ef.otp_slot1 s.fs)
                        + options 0x02 0x08 (slot_load P Ef.otp_slot2 s.fs))
                      ∷ (0 ∷ (s.status_byte ∷ []))))))

  unfoldable pub scan : OtpOf P → OtpOf P
  scan s = if s.scanned then s else record s { fs = scan_all s.fs; scanned = true }

  -- `otp_status`. For a keyboard report the bytes stand behind the first one and nothing is sent.
  unfoldable pub otp_status : Bool → OtpOf P → Sw × OtpOf P
  unfolding scan status_bytes overlay
  otp_status true s =
      let t = scan s in (ok_sw, record t { out = overlay 1 (status_bytes t) t.out; size = 0 })
  otp_status false s =
      let t = scan s in (ok_sw, record t { out = overlay 0 (status_bytes t) t.out; size = 7 })

  entries : ℕ → ℕ → Fs → List ℕ
  entries zero i fs = []
  entries (suc n) i fs = entry i (slot_load P (Ef.otp_slot1 + i) fs) ++ entries n (suc i) fs

  -- `otp_status_ext`, which goes on behind what is in the buffer
  unfoldable pub otp_status_ext : OtpOf P → Sw × OtpOf P
  unfolding entries overlay
  otp_status_ext s =
      let all = entries 4 0 s.fs in
      (ok_sw, record s { out = overlay s.size all s.out; size = s.size + length all })
