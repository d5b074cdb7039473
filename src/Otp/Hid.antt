-- ===== src/Otp/Hid.antt =====
-- The frames of the keyboard reports, which carry the commands and their answers in pieces.
pub mod Receive
pub mod Send
pub mod Room
use fido_touch.Prelude.{
  ℕ, ◌+◌, ◌-◌, ◌*◌, ◌/◌, ◌%◌, ◌≡◌, refl, Bool, true, false, not, ◌&&◌, ◌||◌, List, [], ◌∷◌, ◌++◌,
  length, take, drop, replicate, get_or, ltb, ◌==◌, min, bit_and, bit_or, has_bits, if◌then◌else◌,
}
use fido_touch.Exec.{Exec, Result, ok, err, fault}
use fido_touch.Platform.{Platform}
use fido_touch.Otp.{Otp, OtpOf, Apdu, Sw, ok_sw, overlay}
use fido_touch.Otp.Crc.{calculate_crc, complement}
use fido_touch.Otp.Status.{otp_status}
use fido_touch.Otp.Command.{process_apdu}

-- `sizeof(otp_frame_rx)` and `sizeof(otp_frame_tx)`
abbrev pub frame_size : ℕ
frame_size = 70

-- The application, `otp_frame_rx`, `otp_frame_tx`, `otp_exp_seq`, `otp_curr_seq`, and the size that is
-- left to send
pub record Hid (F R : Type 0) : Type 0 where
  pub app : Otp F R
  pub rx : List ℕ
  pub tx : List ℕ
  pub exp_seq : ℕ
  pub curr_seq : ℕ
  pub send_size : ℕ

abbrev pub HidOf : Platform → Type 0
HidOf P = Hid P.Fs P.Rng

module _ (P : Platform) where
  open P use {get_le16}

  -- `otp_send_frame` of the first `len` bytes of the answer
  unfoldable pub send_frame : ℕ → HidOf P → HidOf P
  send_frame len h = record h {
    tx = overlay len (complement (calculate_crc (take len h.tx))) h.tx;
    send_size = len + 2;
    exp_seq = ((len + 2) / 7 + (if (len + 2) % 7 == 0 then 0 else 1)) % 256;
    curr_seq = 0;
  }

  -- The answer stands in `otp_frame_tx`, and a longer one is written past its end.
  abbrev pub answered : Result Sw × OtpOf P → Exec (HidOf P) ℕ
  answered (r, app) h =
      let t = record h { app = record app { is_otp = false }; tx = app.out } in
      if ltb frame_size (length app.out) then (fault, h) else elim r [
        | ok ok_sw ↦ (ok 1, if app.size == 0 then t else send_frame app.size t)
        | ok _ ↦ (ok 1, t)
        | err e ↦ (err e, t)
        | fault ↦ (fault, t)
      ]

  abbrev pub command : List ℕ → Apdu
  command frame = record { cla = 0; ins = 1; p1 = get_or frame 64 0; p2 = 0; bytes = take 64 frame }

  -- A whole frame: 64 bytes, the command, and the CRC
  unfoldable pub deliver : Bool → List ℕ → Exec (HidOf P) ℕ
  deliver refused frame h =
      if calculate_crc (take 64 frame) == get_le16 (take 2 (drop 65 frame))
      then answered
          (process_apdu P refused (command frame) (record (h.app) { is_otp = true; out = h.tx })) h
      else (ok 1, h)

  -- A report that carries a piece of a frame. What a command writes into `otp_frame_rx` itself is not
  -- kept here; the first piece of the next frame clears it.
  unfoldable pub receive_piece : Bool → ℕ → List ℕ → Exec (HidOf P) ℕ
  receive_piece refused rseq piece h =
      let rx = overlay (rseq * 7) piece (if rseq == 0 then replicate frame_size 0 else h.rx) in
      let t = record h { rx = rx } in
      if not (ltb rseq 10) then (ok 1, h) else if rseq == 9 then deliver refused rx t else (ok 1, t)

  -- `otp_hid_set_report_cb`, with what `button_wait` returns
  unfoldable pub set_report : Bool → ℕ → List ℕ → Exec (HidOf P) ℕ
  set_report refused report_type buffer h =
      let last = get_or buffer 7 0 in
      if not (report_type == 3)
      then (ok 0, h)
      else if last == 0xff
      then (
        ok 1,
        record h { send_size = 0; exp_seq = 0; curr_seq = 0; tx = replicate frame_size 0 },
      )
      else if has_bits last 0x80
      then receive_piece refused (bit_and last 0x1f) (take 7 buffer) h
      else (ok 1, h)

  -- `otp_hid_get_report_cb`: the report of eight bytes, of which the caller gives the buffer. A piece
  -- behind the end of the frame is a fault.
  unfoldable pub get_report : List ℕ → Exec (HidOf P) (List ℕ)
  get_report buffer h =
      let n = min 7 h.send_size in
      let app = (otp_status P true (record (h.app) { out = buffer })).1 in
      if ltb 0 h.send_size
      then (if ltb (length h.tx) (7 * h.curr_seq + n) then (fault, h) else (
        ok (
            take n (drop (7 * h.curr_seq) h.tx)
            ++ (replicate (7 - n) 0 ++ (bit_or 0x40 h.curr_seq ∷ []))),
        record h { curr_seq = (h.curr_seq + 1) % 256; send_size = h.send_size - n },
      ))
      else if h.curr_seq == h.exp_seq && ltb 0 h.exp_seq
      then (ok (replicate 7 0 ++ (0x40 ∷ [])), record h { curr_seq = 0; exp_seq = 0 })
      else (ok app.out, record h { app = app })
