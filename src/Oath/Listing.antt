-- ===== src/Oath/Listing.antt =====
-- LIST and CALCULATE ALL of the OATH application, which go through the credentials.
pub mod Fits
pub mod Room
use fido_touch.Prelude.{
  ℕ, zero, suc, ◌+◌, Bool, true, false, not, ◌&&◌, ◌||◌, Option, none, some, List, [], ◌∷◌, ◌++◌,
  length, get_or, ltb, leb, ◌==◌, bit_and, if◌then◌else◌,
}
use fido_touch.Exec.{Exec, Result, ok, err, fault}
use fido_touch.Platform.{Platform}
use fido_touch.Ctap.Ef
use fido_touch.Oath.{
  Sw, ok_sw, security_status_not_satisfied, incorrect_params, incorrect_p1p2, wrong_length, Apdu,
  OathOf, return, return_if, value,
}
use fido_touch.Oath.Keys.{decrypt_key}
use fido_touch.Oath.Code.{tag_key, tag_challenge}
use fido_touch.Oath.Credentials.{max_oath_cred, tag_name, is_hotp}
use fido_touch.Oath.Calculate.{Outcome, done, has_room, calculate_oath}

-- The answer so far, and whether the command goes on
abbrev pub Answer : Type 0
Answer = Result (Bool × List ℕ)

abbrev pub then_next : Answer → (List ℕ → Answer) → Answer
then_next (ok (true, r)) next = next r
then_next (ok (false, r)) next = ok (false, r)
then_next (err e) next = err e
then_next fault next = fault

-- Without the value, the credential is passed over.
abbrev pub or_skip : List ℕ → Option (List ℕ) → (List ℕ → Answer) → Answer
or_skip r none written = ok (true, r)
or_skip r (some bytes) written = written bytes

-- The bytes are written if there is room for them.
unfoldable pub if_room : ℕ → ℕ → List ℕ → Answer → Answer
if_room buffer n response written =
    if has_room buffer response n then written else ok (false, response)

abbrev pub is_there : Option (List ℕ) → Bool
is_there none = false
is_there (some bytes) = true

abbrev pub has_touch : Option (List ℕ) → Bool
has_touch none = false
has_touch (some bytes) = ltb 0 (length bytes) && not (bit_and (get_or bytes 0 0) 2 == 0)

abbrev pub response_len : Bool → ℕ
response_len short = if short then 3 else 8

-- A code that cannot be computed leaves its number of digits.
abbrev pub code_or_digits : List ℕ → Result (Outcome × List ℕ) → Answer
code_or_digits key (ok (done, r)) = ok (true, r)
code_or_digits key (ok (_, r)) = ok (true, r ++ (1 ∷ (get_or key 1 0 ∷ [])))
code_or_digits key (err e) = err e
code_or_digits key fault = fault

module _ (P : Platform) (buffer : ℕ) where
  open P use {Fs, contents}

  -- The property byte of an entry of the extended list
  abbrev pub props : List ℕ → ℕ
  props d =
      (if is_there (value P d 0x83) || (is_there (value P d 0x84) || is_there (value P d 0x85))
        then 4
        else 0)
      + (if has_touch (value P d 0x78) then 1 else 0)

  abbrev list_bytes : Bool → List ℕ → List ℕ → List ℕ → ℕ → List ℕ
  list_bytes ext d name key n =
      0x72 ∷ ((n + 1) ∷ (get_or key 0 0 ∷ (name ++ (if ext then props d ∷ [] else []))))

  unfoldable pub list_entry : Bool → List ℕ → List ℕ → List ℕ → List ℕ → Answer
  unfolding if_room
  list_entry ext d name key r =
      let n = length name + (if ext then 1 else 0) in
      if ltb (length key) 2
      then ok (true, r)
      else if ltb 0xfe n
      then ok (false, r)
      else if_room buffer (3 + n) r (ok (true, r ++ list_bytes ext d name key n))

  unfoldable pub all_entry : ℕ → List ℕ → List ℕ → List ℕ → List ℕ → List ℕ → Answer
  unfolding if_room
  all_entry p2 chal d name key r =
      let touch = has_touch (value P d 0x78) in
      let head = r ++ (tag_name ∷ (length name ∷ name)) in
      if ltb (length key) 2
      then ok (true, r)
      else if_room buffer (2 + length name + response_len (is_hotp key || touch)) r (
          if is_hotp key
          then ok (true, head ++ (0x77 ∷ (1 ∷ (get_or key 1 0 ∷ []))))
          else if touch
          then ok (true, head ++ (0x7c ∷ (1 ∷ (get_or key 1 0 ∷ []))))
          else code_or_digits key
              (calculate_oath P buffer p2 key chal (head ++ ((0x75 + p2) ∷ []))))

  -- A credential without a name or a key, or with a key that does not open, is passed over.
  unfoldable pub list_one : Bool → List ℕ → List ℕ → Answer
  unfolding list_entry
  list_one ext d r = or_skip r (value P d tag_name) (λ name.
      or_skip r (value P d tag_key)
        (λ stored. or_skip r (decrypt_key P stored) (λ key. list_entry ext d name key r)))

  unfoldable pub all_one : ℕ → List ℕ → List ℕ → List ℕ → Answer
  unfolding all_entry
  all_one p2 chal d r = or_skip r (value P d tag_name) (λ name.
      or_skip r (value P d tag_key) (λ stored.
        if ltb 0xff (length name)
        then ok (false, r)
        else or_skip r (decrypt_key P stored) (λ key. all_entry p2 chal d name key r)))

  -- The files with data among the `n` from `fid` on, in the order of their numbers
  unfoldable pub each_from : (List ℕ → List ℕ → Answer) → ℕ → ℕ → Fs → List ℕ → Answer
  each_from one zero fid fs r = ok (true, r)
  each_from one (suc n) fid fs r =
      then_next (if length (contents fs fid) == 0 then ok (true, r) else one (contents fs fid) r)
        (λ r'. each_from one n (fid + 1) fs r')

  abbrev pub finished : OathOf P → Answer → Result Sw × OathOf P
  finished s (ok (true, r)) = (ok ok_sw, record s { response = r })
  finished s (ok (false, r)) = (ok wrong_length, record s { response = r })
  finished s (err e) = (err e, s)
  finished s fault = (fault, s)

  -- `cmd_list`, with USB_BUFFER_SIZE
  unfoldable pub cmd_list : Apdu → Exec (OathOf P) Sw
  cmd_list apdu s =
      let ext = length apdu.bytes == 1 && get_or apdu.bytes 0 0 == 1 in
      return_if (not s.validated) security_status_not_satisfied
        (λ t. finished t (each_from (list_one ext) max_oath_cred Ef.oath_cred t.fs t.response)) s

  abbrev pub all_for : ℕ → Option (List ℕ) → Exec (OathOf P) Sw
  all_for p2 none = return incorrect_params
  all_for p2 (some chal) = λ t.
      finished (record t { response = [] })
        (each_from (all_one p2 chal) max_oath_cred Ef.oath_cred t.fs [])

  -- `cmd_calculate_all`, with USB_BUFFER_SIZE
  unfoldable pub cmd_calculate_all : Apdu → Exec (OathOf P) Sw
  cmd_calculate_all apdu s =
      return_if (not (leb apdu.p2 1)) incorrect_p1p2
        (return_if (not s.validated) security_status_not_satisfied
          (all_for apdu.p2 (value P apdu.bytes tag_challenge)))
        s
