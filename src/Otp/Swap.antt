-- ===== src/Otp/Swap.antt =====
-- Swapping two slots.
pub mod Laws
use fido_touch.Prelude.{
  ℕ, ◌+◌, ◌-◌, ◌%◌, ◌≡◌, refl, Bool, true, false, not, ◌&&◌, ◌||◌, Option, none, some, List, [],
  ◌∷◌, length, take, drop, replicate, get_or, ltb, ◌==◌, eq_bytes, if◌then◌else◌,
}
use fido_touch.Platform.{Platform, Picokeys, success}
use fido_touch.Ctap.Ef
use fido_touch.Otp.{
  Otp, OtpOf, Apdu, Sw, ok_sw, wrong_length, incorrect_p1p2, exec_error,
  security_status_not_satisfied, wrong_data, acc_code,
}
use fido_touch.Otp.Slot.{slot_load, slot_store}
use fido_touch.Otp.Status.{otp_status}
use fido_touch.Otp.Configure.{next_seq, all_zero}

-- What the command names: two slots and an access code
pub record Exchange : Type 0 where
  pub first : ℕ
  pub second : ℕ
  pub code : List ℕ

-- The status word of a refusal, or the exchange
pub data Request : Type 0 where
  refuse : Sw → Request
  exchange : Exchange → Request

-- Two slots with the code behind them, or with none
abbrev named : List ℕ → List ℕ → Request
named d code = exchange (record {
  first = Ef.otp_slot1 + get_or d 0 0;
  second = Ef.otp_slot2 + get_or d 1 0;
  code = code;
})

-- A keyboard report has 64 bytes, of which only the first eight count.
unfoldable pub swap_request : Bool → List ℕ → Request
swap_request true d =
    if not (length d == 64)
    then refuse wrong_length
    else if not (all_zero (drop 8 d))
    then refuse wrong_data
    else named d (take 6 (drop 2 d))
swap_request false d =
    if length d == 0
    then exchange (record { first = Ef.otp_slot1; second = Ef.otp_slot2; code = replicate 6 0 })
    else if length d == 2
    then named d (replicate 6 0)
    else if length d == 8
    then named d (take 6 (drop 2 d))
    else refuse wrong_length

-- A slot as the swap loads it: empty, refused with a status word, or with data and the right code
pub data Loaded : Type 0 where
  empty : Loaded
  denied : Sw → Loaded
  held : List ℕ → Loaded

abbrev pub opened : List ℕ → Picokeys × List ℕ → Loaded
opened code (success, c) =
    if eq_bytes (acc_code c) code then held c else denied security_status_not_satisfied
opened code _ = denied exec_error

module _ (P : Platform) where
  open P use {Fs, contents, create, delete, commit}

  unfoldable pub load_for : List ℕ → ℕ → Fs → Loaded
  load_for code fid fs =
      if length (contents fs fid) == 0 then empty else opened code (slot_load P fid fs)

  abbrev pub fail_with : OtpOf P → Picokeys × Fs → (Fs → Sw × OtpOf P) → Sw × OtpOf P
  fail_with s (success, fs) rest = rest fs
  fail_with s (code, fs) rest = (exec_error, record s { fs = fs })

  -- The end, with the files as they are
  unfoldable pub finish_swap : OtpOf P → Fs → Sw × OtpOf P
  finish_swap s fs = otp_status P s.is_otp (next_seq P (record s { fs = commit fs }))

  -- Both slots are read before either is written.
  unfoldable pub exchange_slots : ℕ → ℕ → Loaded → Loaded → OtpOf P → Sw × OtpOf P
  exchange_slots a b (denied sw) other s = (sw, s)
  exchange_slots a b empty (denied sw) s = (sw, s)
  exchange_slots a b (held c) (denied sw) s = (sw, s)
  exchange_slots a b (held c) (held d) s =
      fail_with s (slot_store P a d s.fs) (λ fs. fail_with s (slot_store P b c fs) (finish_swap s))
  exchange_slots a b (held c) empty s =
      fail_with s (slot_store P b c (create (delete s.fs a) b).1) (finish_swap s)
  exchange_slots a b empty (held d) s =
      fail_with s (slot_store P a d s.fs) (λ fs. finish_swap s (delete fs b))
  exchange_slots a b empty empty s = finish_swap s (create (delete s.fs a) b).1

  unfoldable pub exchange_with : Exchange → OtpOf P → Sw × OtpOf P
  exchange_with e s =
      let t = record s { fs = (create (create s.fs e.first).1 e.second).1 } in
      if ltb (Ef.otp_slot1 + 3) e.first || ltb (Ef.otp_slot1 + 3) e.second || e.first == e.second
      then (incorrect_p1p2, s)
      else exchange_slots e.first e.second (load_for e.code e.first t.fs)
          (load_for e.code e.second t.fs) t

  abbrev pub run_request : Request → OtpOf P → Sw × OtpOf P
  run_request (refuse sw) s = (sw, s)
  run_request (exchange e) s = exchange_with e s

  -- `cmd_otp` for P1 6
  unfoldable pub swap : Apdu → OtpOf P → Sw × OtpOf P
  swap apdu s = run_request (swap_request s.is_otp apdu.bytes) s
