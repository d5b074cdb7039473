-- ===== src/Otp/Tests.antt =====
-- Runs of the OTP slots on files in memory.
use fido_touch.Prelude.{
  ℕ, ◌+◌, ◌-◌, ◌<◌, ◌≡◌, refl, ap, ◌⊎◌, true, false, some, List, [], ◌∷◌, ◌++◌, length,
  length-append, take, take-append, drop, get_or, replicate, arith, eq_bytes,
}
use fido_touch.Exec.{ok, fault}
use fido_touch.Platform.{Platform, success, end}
use fido_touch.Platform.Memory.{memory, Files, read, write, walk, little, from_little}
use fido_touch.Ctap.Ef
use fido_touch.Management.{
  Manager, cap_supported, find_enabled, enabled_by, man_get_config, identity, cmd_write_config,
}
use fido_touch.Management.Cap
use fido_touch.Otp.{OtpOf, Apdu, ok_sw, ins_not_supported}
use fido_touch.Otp.Crc.{
  Bytes, calculate_crc, crc_bytes, crc_bits, crc_bit, complement, crc-complement,
}
use fido_touch.Otp.Modhex.{encode_modhex, decode_modhex, decode_modhex-encode_modhex}
use fido_touch.Otp.Slot.{
  is_secure, derive_key, load_stored, slot_load, sealed, slot_store, migrate_slot, migrate_from,
  migrate_slots,
}
use fido_touch.Otp.Slot.Laws.{Ciphers, slot_load-slot_store}
use fido_touch.Otp.Slot.Migration.{Kept, migrate_slots-Kept}
use fido_touch.Otp.Command.{cmd_otp, process_apdu}
use fido_touch.Otp.Guard.{presented, Opens}
use fido_touch.Otp.Guard.Command.{cmd_otp_guarded}
use fido_touch.Otp.Swap.{Exchange, load_for, finish_swap, exchange_slots, exchange_with}
use fido_touch.Otp.Swap.Laws.{exchange_with-exchanges}
use fido_touch.Otp.Status.{otp_status, scan, status_bytes}
use fido_touch.Otp.Button.{press_yubico}
use fido_touch.Otp.Button.Block.{TwoBytes, Types}
use fido_touch.Otp.Button.Usage.{number, Stores, press_yubico_counts}
use fido_touch.Otp.Hid.{HidOf, send_frame, get_report, deliver}
use fido_touch.Otp.Hid.Receive.{receive, receive-deliver}
use fido_touch.Otp.Hid.Send.{frame, read_reports, send_frame-get_report}
use fido_touch.Otp.Hid.Room.{deliver-man_get_config}
use fido_touch.Otp.Switch.{process_apdu-cmd_write_config}

abbrev board : Platform
board = memory (λ b. end 0)

abbrev state : Files → OtpOf board
state fs = record {
  fs = fs;
  rng = 1;
  config_seq = 1;
  scanned = true;
  session_counter = 0 ∷ (255 ∷ []);
  status_byte = 0;
  is_otp = false;
  out = replicate 70 0;
  size = 0;
  typed = [];
}

board-Ciphers : Ciphers board
unfolding Ciphers
board-Ciphers = (
  λ k d. omega (
    arith,
    length-append (replicate {A = ℕ} 12 0) (d ++ replicate 16 0),
    length-append d (replicate {A = ℕ} 16 0),
  ),
  λ k d. ap (λ l. (0, l)) (take-append d (replicate 16 0) (size d)),
)
  where
    size : (d : List ℕ) → length d ≡ length (replicate 12 0 ++ (d ++ replicate 16 0)) - 28
    size d = omega (
      arith,
      length-append (replicate {A = ℕ} 12 0) (d ++ replicate 16 0),
      length-append d (replicate {A = ℕ} 16 0),
    )

-- A slot in the clear, of which all bytes are zero
abbrev zeros : List ℕ
zeros = replicate 52 0

abbrev one_slot : Files
one_slot = (Ef.otp_slot1, zeros) ∷ []

abbrev swap_apdu : Apdu
swap_apdu = record { cla = 0; ins = 1; p1 = 6; p2 = 0; bytes = [] }

cmd_otp_guarded_example :
    (board.contents (cmd_otp board false swap_apdu (state one_slot)).1.fs Ef.otp_slot1
      ≡ board.contents one_slot Ef.otp_slot1)
    ⊎ Opens board (presented false swap_apdu) Ef.otp_slot1 one_slot
unfolding read
cmd_otp_guarded_example =
    cmd_otp_guarded board false swap_apdu (state one_slot) Ef.otp_slot1 refl (omega arith)

zeros_stored : (slot_store board Ef.otp_slot2 zeros one_slot).0 ≡ success
unfolding slot_store derive_key sealed
zeros_stored = refl

slot_load-slot_store_example :
    (is_secure (board.contents (slot_store board Ef.otp_slot2 zeros one_slot).1 Ef.otp_slot2)
      ≡ true)
    × (slot_load board Ef.otp_slot2 (slot_store board Ef.otp_slot2 zeros one_slot).1
        ≡ (success, zeros))
slot_load-slot_store_example =
    slot_load-slot_store board Ef.otp_slot2 zeros one_slot board-Ciphers zeros_stored

migrated : (migrate_slots board one_slot).0 ≡ success
unfolding migrate_slots migrate_from migrate_slot slot_load load_stored is_secure slot_store
    derive_key sealed read write eq_bytes
migrated = refl

migrate_slots-Kept_example : Kept board Ef.otp_slot1 one_slot (migrate_slots board one_slot).1
migrate_slots-Kept_example =
    migrate_slots-Kept board Ef.otp_slot1 one_slot board-Ciphers migrated (omega arith)
      (omega arith)

abbrev two : List ℕ
two = 0x2d ∷ (0xf7 ∷ [])

two-Bytes : Bytes two
unfolding Bytes
two-Bytes = (omega arith, (omega arith, tt))

crc-complement_example : calculate_crc (two ++ complement (calculate_crc two)) ≡ 0xf0b8
crc-complement_example = crc-complement two two-Bytes

decode_modhex-encode_modhex_example : decode_modhex (encode_modhex two) ≡ some two
decode_modhex-encode_modhex_example = decode_modhex-encode_modhex two two-Bytes

abbrev exchange_both : Exchange
exchange_both = record { first = Ef.otp_slot1; second = Ef.otp_slot2; code = replicate 6 0 }

exchanged : (exchange_with board exchange_both (state one_slot)).0 ≡ ok_sw
unfolding exchange_with exchange_slots load_for slot_load load_stored is_secure slot_store
    derive_key sealed finish_swap otp_status scan status_bytes read write eq_bytes
exchanged = refl

exchange_with-exchanges_example :
    (slot_load board Ef.otp_slot1 (exchange_with board exchange_both (state one_slot)).1.fs
      ≡ slot_load board Ef.otp_slot2 one_slot)
    × (slot_load board Ef.otp_slot2 (exchange_with board exchange_both (state one_slot)).1.fs
        ≡ slot_load board Ef.otp_slot1 one_slot)
exchange_with-exchanges_example =
    exchange_with-exchanges board exchange_both (state one_slot) board-Ciphers refl exchanged

abbrev device : Files → HidOf board
device fs = record {
  app = state fs;
  rx = [];
  tx = replicate 70 7;
  exp_seq = 0;
  curr_seq = 0;
  send_size = 0;
}

receive-deliver_example :
    receive board false (replicate 70 1) 9 0 (device [])
    ≡ deliver board false (replicate 70 1) (record (device []) { rx = replicate 70 1 })
receive-deliver_example = receive-deliver board false (replicate 70 1) (device []) refl

send_frame-get_report_example :
    (d : List ℕ) × (u : HidOf board) × (read_reports board []
        (send_frame board 20 (device [])).exp_seq
        (send_frame board 20 (device []))
      ≡ (ok d, u))
    × (take 22 d ≡ frame board 20 (device []))
    × (get_report board [] u
        ≡ (ok (replicate 7 0 ++ (0x40 ∷ [])), record u { curr_seq = 0; exp_seq = 0 }))
send_frame-get_report_example = send_frame-get_report board [] 20 (device []) refl (omega arith)

board-TwoBytes : TwoBytes board
unfolding TwoBytes little from_little
board-TwoBytes = (λ n. refl, λ n h. omega (arith, h), λ n. refl, λ n h. omega (arith, h))

board-Stores : Stores board Ef.otp_slot2 one_slot
unfolding Stores slot_store derive_key sealed
board-Stores d h = rw h refl

in_the_clear : slot_load board Ef.otp_slot1 one_slot ≡ (success, zeros)
unfolding slot_load load_stored is_secure read eq_bytes
in_the_clear = refl

writes_first : Stores board Ef.otp_slot1 one_slot
unfolding Stores slot_store derive_key sealed
writes_first d h = rw h refl

press_yubico_counts_example :
    let s' = press_yubico board 5000 1 Ef.otp_slot1 zeros (state one_slot) in
    Types board zeros (number board zeros 0) (state one_slot) s'
    × ((c : List ℕ) × (slot_load board Ef.otp_slot1 s'.fs ≡ (success, c))
        × (number board c (get_or s'.session_counter 0 0) ≡ number board zeros 0 + 1))
press_yubico_counts_example =
    press_yubico_counts board 5000 1 Ef.otp_slot1 zeros (state one_slot) board-Ciphers
      board-TwoBytes writes_first in_the_clear refl (omega arith) (omega arith) (omega arith)

-- A configuration of 62 bytes
abbrev long_config : Files
long_config = (Ef.dev_conf, 8 ∷ (60 ∷ replicate 60 0)) ∷ []

abbrev config_frame : List ℕ
config_frame = replicate 64 0 ++ (0x13 ∷ (0x6b ∷ (0x5b ∷ replicate 3 0)))

frame_checked : calculate_crc (take 64 config_frame) ≡ from_little (take 2 (drop 65 config_frame))
unfolding calculate_crc crc_bytes crc_bits crc_bit from_little
frame_checked = refl

long_enabled : cap_supported board Cap.otp long_config ≡ ok true
unfolding cap_supported find_enabled enabled_by read walk
long_enabled = refl

long_answer : 70 < length (man_get_config board long_config)
unfolding man_get_config identity read
long_answer = omega arith

deliver-man_get_config_example : (deliver board false config_frame (device long_config)).0 ≡ fault
deliver-man_get_config_example =
    deliver-man_get_config board false config_frame (device long_config) frame_checked refl
      long_enabled long_answer

-- USB without any application
abbrev nothing_enabled : List ℕ
nothing_enabled = 3 ∷ (1 ∷ (0 ∷ []))

abbrev manager : Manager Files
manager = record { fs = []; keyboard = true }

otp_off : find_enabled board Cap.otp (walk nothing_enabled) ≡ ok false
unfolding find_enabled enabled_by walk
otp_off = refl

written :
    (cmd_write_config board true (3 ∷ nothing_enabled) manager).0 ≡ ok fido_touch.Management.ok_sw
unfolding cmd_write_config cap_supported find_enabled enabled_by walk read write
written = refl

abbrev switched_off : OtpOf board
switched_off = state (cmd_write_config board true (3 ∷ nothing_enabled) manager).1.fs

process_apdu-cmd_write_config_example :
    (process_apdu board false swap_apdu switched_off ≡ (ok ins_not_supported, switched_off))
    × ((cmd_write_config board true (3 ∷ nothing_enabled) manager).1.keyboard ≡ false)
process_apdu-cmd_write_config_example =
    process_apdu-cmd_write_config board true 3 nothing_enabled manager false swap_apdu switched_off
      (λ f. refl) (omega arith) otp_off written refl refl
