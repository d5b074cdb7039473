-- ===== src/Otp/Button.antt =====
-- The start of the slots, and what a press of the button types.
pub mod Block
pub mod Usage
use fido_touch.Prelude.{
  ℕ, zero, suc, ◌+◌, ◌-◌, ◌*◌, ◌/◌, ◌%◌, ◌^◌, ◌≡◌, refl, Bool, true, false, not, ◌&&◌, ◌||◌, List,
  [], ◌∷◌, ◌++◌, length, take, drop, replicate, get_or, set, leb, ltb, ◌==◌, has_bits,
  if◌then◌else◌,
}
use fido_touch.Exec.{Exec, Result, ok, err, fault}
use fido_touch.Platform.{Platform, Picokeys, success, is_success}
use fido_touch.Ctap.Ef
use fido_touch.Management.Cap
use fido_touch.Management.{cap_supported}
use fido_touch.Oath.Calculate.{Outcome, done, calculate_oath}
use fido_touch.Otp.{
  Otp, OtpOf, Press, add_keyboard_buffer, append_keyboard_buffer, config_size, fixed_data, uid,
  aes_key, tkt_flags, cfg_flags,
}
use fido_touch.Otp.Crc.{calculate_crc, complement}
use fido_touch.Otp.Modhex.{encode_modhex}
use fido_touch.Otp.Flags
use fido_touch.Otp.Slot.{plain_max, slot_load, slot_store, migrate_slots}
use fido_touch.Otp.Status.{is_challenge, is_hotp, is_static, scan}

-- `%0*lu` for a number of at most `n` digits
unfoldable pub decimal : ℕ → ℕ → List ℕ
decimal zero n = []
decimal (suc k) n = decimal k (n / 10) ++ ((0x30 + n % 10) ∷ [])

-- The usage counter that a password carries, the one after it, and whether that one is stored: when
-- it is the first, or the session counter wraps
unfoldable pub current : ℕ → ℕ
current used = if used == 0 then 1 else used

unfoldable pub following : ℕ → ℕ → ℕ
following used session =
    if (session + 1) % 256 == 0 then (current used + 1) % 2 ^ 16 else current used

unfoldable pub is_stored : ℕ → ℕ → Bool
is_stored used session =
    used == 0 || ((session + 1) % 256 == 0 && leb (following used session) 0x7fff)

module _ (P : Platform) where
  open P use {
    Fs, contents, put, commit, be16, get_be16, be64, get_be64, le16, random, aes_ecb, scan_all,
  }

  -- The usage counter behind the configuration
  abbrev pub usage : List ℕ → ℕ
  usage d = if length d == plain_max then get_be16 (take 2 (drop config_size d)) else 0

  abbrev pub with_usage : List ℕ → ℕ → List ℕ
  with_usage d n = take config_size d ++ (be16 n ++ drop (config_size + 2) d)

  -- A slot of Yubico OTP with a counter
  abbrev counts : List ℕ → Bool
  counts c = length c == plain_max && not (is_hotp c) && not (is_static c)

  abbrev count_up : ℕ → Picokeys × List ℕ → Fs → Bool × Fs
  count_up fid (success, c) fs =
      let next = (usage c + 1) % 2 ^ 16 in
      let (code, fs') = slot_store P fid (with_usage c next) fs in
      if counts c && leb next 0x7fff then (is_success code, fs') else (true, fs)
  count_up fid _ fs = (true, fs)

  -- The loop of `init_otp`, which a failed write leaves
  unfoldable pub count_from : ℕ → ℕ → Fs → Bool × Fs
  count_from zero fid fs = (true, fs)
  count_from (suc n) fid fs =
      let (go_on, fs') = count_up fid (slot_load P fid fs) fs in
      let rest = count_from n (suc fid) fs' in if go_on then rest else (false, fs')

  abbrev counted : Bool × Fs → OtpOf P → OtpOf P
  counted (true, fs) s = record s { fs = commit fs; scanned = true }
  counted (false, fs) s = record s { fs = fs }

  abbrev started : Picokeys × Fs → OtpOf P → OtpOf P
  started (success, fs) s = counted (count_from 4 Ef.otp_slot1 fs) s
  started (code, fs) s = record s { fs = fs }

  -- `init_otp`
  unfoldable pub init_otp : OtpOf P → OtpOf P
  init_otp s = if s.scanned then s else started (migrate_slots P (scan_all s.fs)) s

  abbrev pub type : Press → OtpOf P → OtpOf P
  type p s = record s { typed = s.typed ++ (p ∷ []) }

  -- `if (otp_config->tkt_flags & APPEND_CR)`
  abbrev pub append_key : ℕ → List ℕ → OtpOf P → OtpOf P
  append_key key c s =
      if has_bits (tkt_flags c) Flags.append_cr
      then type (append_keyboard_buffer (key ∷ [])) s
      else s

  -- The moving factor of a HOTP slot: stored behind the configuration, or else the end of the identity
  abbrev pub moving_factor : List ℕ → ℕ
  moving_factor c =
      let stored = if length c == plain_max then get_be64 (take 8 (drop config_size c)) else 0 in
      if stored == 0 then get_be16 (drop 4 (uid c)) else stored

  -- The code is shown, and the counter that follows is stored.
  abbrev show_hotp : ℕ → List ℕ → Result (Outcome × List ℕ) → OtpOf P → OtpOf P
  show_hotp fid c (ok (done, r)) s =
      let digits = if has_bits (cfg_flags c) Flags.oath_hotp8 then 8 else 6 in
      let number = get_be16 (take 2 (drop 2 r)) % 10 ^ digits in
      let next = (moving_factor c + 1) % 2 ^ 64 in
      let t = type (add_keyboard_buffer (decimal digits number) true) s in
      record t {
        fs = commit (slot_store P fid (take config_size c ++ be64 next) s.fs).1;
        out = r ++ drop (length r) s.out;
        size = length r;
      }
  show_hotp fid c _ s = record s { size = 0 }

  -- A HOTP slot. The second byte of the key, the number of digits, is not set by the C code, and
  -- `digits` stands for what is there.
  unfoldable pub press_hotp : ℕ → ℕ → ℕ → List ℕ → OtpOf P → OtpOf P
  press_hotp buffer digits fid c s = append_key 0x0d c (
      show_hotp fid c
        (calculate_oath P buffer 1 (0x01 ∷ (digits ∷ aes_key c)) (be64 (moving_factor c)) []) s)

  unfoldable pub press_static : List ℕ → OtpOf P → OtpOf P
  press_static c s = append_key 0x28 c (type (add_keyboard_buffer (take 38 c) false) s)

  -- What Yubico OTP encrypts: identity, usage counter, time, session counter, random bytes and CRC
  unfoldable pub otp_block : List ℕ → ℕ → ℕ → ℕ → List ℕ → List ℕ
  otp_block c counter ts session rnd =
      let fields =
        uid c
        ++ (le16 counter
            ++ (ts % 256 ∷ (ts / 2 ^ 8 % 256 ∷ (ts / 2 ^ 16 % 256 ∷ (session ∷ rnd))))) in
      fields ++ complement (calculate_crc fields)

  -- A Yubico OTP slot
  unfoldable pub press_yubico : ℕ → ℕ → ℕ → List ℕ → OtpOf P → OtpOf P
  press_yubico millis slot fid c s =
      let session = get_or s.session_counter (slot - 1) 0 in
      let (rnd, rng) = random 2 s.rng in
      let block = otp_block c (current (usage c)) (millis / 1000 / 2) session rnd in
      let otp = take 6 (fixed_data c) ++ (aes_ecb (aes_key c) block).1 in
      let t = append_key 0x0d c (type (add_keyboard_buffer (encode_modhex otp) true) s) in
      let new =
        with_usage (c ++ replicate (plain_max - length c) 0) (following (usage c) session) in
      record t {
        rng = rng;
        session_counter = set s.session_counter (slot - 1) ((session + 1) % 256);
        fs = if is_stored (usage c) session then commit (slot_store P fid new s.fs).1 else s.fs;
      }

  abbrev press_loaded : ℕ → ℕ → ℕ → ℕ → ℕ → Picokeys × List ℕ → Exec (OtpOf P) ℕ
  press_loaded buffer digits millis slot fid (success, c) s =
      if is_challenge c
      then (ok 2, s)
      else if is_hotp c
      then (ok 0, press_hotp buffer digits fid c s)
      else if is_static c
      then (ok 0, press_static c s)
      else if ltb slot 1 || ltb (length s.session_counter) slot
      then (fault, s)
      else (ok 0, press_yubico millis slot fid c s)
  press_loaded buffer digits millis slot fid _ s = (ok 1, s)

  -- Only the first two slots have a session counter.
  abbrev press_supported : ℕ → ℕ → ℕ → ℕ → Result Bool → Exec (OtpOf P) ℕ
  press_supported buffer digits millis slot (ok true) s =
      let fid = Ef.otp_slot1 + slot - 1 in
      press_loaded buffer digits millis slot fid (slot_load P fid s.fs) s
  press_supported buffer digits millis slot (ok false) s = (ok 3, s)
  press_supported buffer digits millis slot (err e) s = (err e, s)
  press_supported buffer digits millis slot fault s = (fault, s)

  -- `otp_button_pressed`, with the time in milliseconds
  unfoldable pub otp_button_pressed : ℕ → ℕ → ℕ → ℕ → Exec (OtpOf P) ℕ
  otp_button_pressed buffer digits millis slot s =
      let t = init_otp s in
      press_supported buffer digits millis slot (cap_supported P Cap.otp t.fs) t
