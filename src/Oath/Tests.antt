-- ===== src/Oath/Tests.antt =====
-- Runs of the OATH commands on files in memory.
use fido_touch.Prelude.{
  ℕ, ◌^◌, ◌<◌, ◌+◌, ◌≤◌, ◌≡◌, ◌≢◌, refl, ◌⊎◌, inl, Bool, true, false, some, List, [], ◌∷◌, ◌++◌,
  length, get_or, replicate, arith, eq_bytes,
}
use fido_touch.Exec.{ok, fault}
use fido_touch.Platform.{Platform, end}
use fido_touch.Platform.Memory.{memory, Files, read, write, pad, last_or, find, from_little, little}
use fido_touch.Ctap.Ef
use fido_touch.Oath.{ok_sw, security_status_not_satisfied, Apdu, OathOf, value}
use fido_touch.Oath.Keys.{is_secure, md_info, decrypt_key}
use fido_touch.Oath.Code.{proves, validate, validate_with, validate_key, answer_challenge}
use fido_touch.Oath.OtpPin.{matched, otp_pin_matches, spend_otp, check_pin}
use fido_touch.Oath.Access.{
  validate_op, step, Earned, step-Earned, answer_of, check_pin_spends, validate-cmd_delete,
}
use fido_touch.Oath.Calculate.{calculate_oath, respond, truncated}
use fido_touch.Oath.Credentials.{
  max_oath_cred, tag_name, is_named, find_from, find_oath_cred, cmd_put, cmd_delete,
}
use fido_touch.Oath.Hotp.{put_counter, advance_counter, respond_code, calculate_key}
use fido_touch.Oath.Hotp.Laws.{counter, calculate_key_advances}
use fido_touch.Oath.Rename.{
  renamed, append_tag, rename_to, cmd_rename, append_entries, cmd_get_credential,
}
use fido_touch.Oath.Listing.{if_room, list_entry, list_one, each_from, cmd_list, cmd_calculate_all}
use fido_touch.Oath.Listing.Room.{cmd_calculate_all_fits}
use fido_touch.Oath.Reset.{cmd_reset}
use fido_touch.Oath.Reset.Laws.{cmd_reset_clears}
use fido_touch.Oath.Stored.{MayWrite, FirstNamed, cmd_put_keeps, cmd_delete_lem}

abbrev board : Platform
board = memory (λ b. end 0)

abbrev files : Files
files =
    (Ef.oath_code, 1 ∷ (9 ∷ []))
    ∷ ((Ef.otp_pin, 3 ∷ (1 ∷ replicate 32 52))
        ∷ ((Ef.oath_cred, 0x71 ∷ (1 ∷ (65 ∷ (0x73 ∷ (2 ∷ (33 ∷ (6 ∷ []))))))) ∷ []))

abbrev state : Files → Bool → OathOf board
state fs validated = record {
  fs = fs;
  rng = 1;
  validated = validated;
  challenge = replicate 8 5;
  response = [];
}

abbrev apdu_of : List ℕ → Apdu
apdu_of d = record { p1 = 0; p2 = 0; bytes = d }

-- The challenge 1, and the MAC of the challenge of the device under the code
abbrev proof : Apdu
proof = apdu_of (0x74 ∷ (1 ∷ (1 ∷ (0x75 ∷ (20 ∷ replicate 20 5)))))

opened : (step board (validate_op proof) (state files false)).validated ≡ true
unfolding step validate validate_with validate_key answer_challenge proves decrypt_key is_secure
    md_info value find read pad last_or eq_bytes
opened = refl

step-Earned_example : Earned board (validate_op proof) (state files false)
unfolding read
step-Earned_example =
    step-Earned board (validate_op proof) (state files false) (omega arith) refl opened

abbrev pin_1234 : List ℕ
pin_1234 = 49 ∷ (50 ∷ (51 ∷ (52 ∷ [])))

pin_matches : (check_pin board pin_1234 (state files false)).0 ≡ matched
unfolding check_pin spend_otp otp_pin_matches read write pad last_or eq_bytes
pin_matches = refl

few : get_or (board.contents (state files false).fs Ef.otp_pin) 0 0 < 256
unfolding read
few = omega arith

check_pin_spends_example :
    let s' = (check_pin board pin_1234 (state files false)).1 in
    (get_or (board.contents s'.fs Ef.otp_pin) 0 0 + 1
      ≡ get_or (board.contents (state files false).fs Ef.otp_pin) 0 0)
    × ((check_pin board pin_1234 (state files false)).0
        ≡ answer_of board (otp_pin_matches board (board.contents s'.fs Ef.otp_pin) pin_1234))
    × ((check_pin board [] (state files false)).1 ≡ s')
check_pin_spends_example =
    check_pin_spends board pin_1234 [] (state files false) few (inl pin_matches)

abbrev only_pin : Files
only_pin =
    (Ef.otp_pin, 3 ∷ (1 ∷ replicate 32 52))
    ∷ ((Ef.oath_cred, 0x71 ∷ (1 ∷ (65 ∷ (0x73 ∷ (2 ∷ (33 ∷ (6 ∷ []))))))) ∷ [])

chal_there : value board proof.bytes 0x74 ≡ some (1 ∷ [])
unfolding value find
chal_there = refl

resp_there : value board proof.bytes 0x75 ≡ some (replicate 20 5)
unfolding value find
resp_there = refl

no_code : length (board.contents only_pin Ef.oath_code) ≡ 0
unfolding read
no_code = refl

abbrev delete_apdu : Apdu
delete_apdu = apdu_of (0x71 ∷ (1 ∷ (65 ∷ [])))

name_there : value board delete_apdu.bytes tag_name ≡ some (65 ∷ [])
unfolding value find
name_there = refl

credential_there : find_oath_cred board (65 ∷ []) only_pin ≡ some Ef.oath_cred
unfolding find_oath_cred find_from is_named value find read eq_bytes
credential_there = refl

validate-cmd_delete_example :
    (cmd_delete board delete_apdu (state only_pin false)
      ≡ (ok security_status_not_satisfied, state only_pin false))
    × ((cmd_delete board delete_apdu (validate board proof (state only_pin false)).1).0 ≡ ok ok_sw)
    × (board.contents
          (cmd_delete board delete_apdu (validate board proof (state only_pin false)).1).1.fs
          Ef.oath_cred
        ≡ [])
validate-cmd_delete_example =
    validate-cmd_delete board proof delete_apdu (1 ∷ []) (replicate 20 5) (65 ∷ []) Ef.oath_cred
      (state only_pin false) chal_there resp_there no_code refl name_there credential_there

abbrev new_credential : Apdu
new_credential = apdu_of (0x71 ∷ (1 ∷ (66 ∷ (0x73 ∷ (2 ∷ (33 ∷ (6 ∷ [])))))))

cmd_put_keeps_example :
    (board.contents (cmd_put board new_credential (state files true)).1.fs Ef.oath_cred
      ≡ board.contents (state files true).fs Ef.oath_cred)
    ⊎ ((name : List ℕ) × (value board new_credential.bytes tag_name ≡ some name)
        × MayWrite board name (state files true).fs Ef.oath_cred)
cmd_put_keeps_example = cmd_put_keeps board new_credential (state files true) Ef.oath_cred

abbrev old_name : Apdu
old_name = apdu_of (0x71 ∷ (1 ∷ (65 ∷ [])))

deleted : (cmd_delete board old_name (state files true)).0 ≡ ok ok_sw
unfolding cmd_delete find_oath_cred find_from is_named value find read eq_bytes
deleted = refl

cmd_delete_lem_example :
    (name : List ℕ) × (k : ℕ) × (value board old_name.bytes tag_name ≡ some name)
    × FirstNamed board max_oath_cred Ef.oath_cred name (state files true).fs k
    × (board.contents (cmd_delete board old_name (state files true)).1.fs k ≡ [])
    × ((j : ℕ)
        → k ≢ j
        → board.contents (cmd_delete board old_name (state files true)).1.fs j
          ≡ board.contents (state files true).fs j)
cmd_delete_lem_example = cmd_delete_lem board old_name (state files true) deleted

-- The key of HMAC-SHA1, six digits, and the counter 0 behind it
abbrev hotp_key : List ℕ
hotp_key = 0x11 ∷ (6 ∷ (9 ∷ []))

abbrev hotp_files : Files
hotp_files =
    (Ef.oath_cred, 0x71 ∷ (1 ∷ (65 ∷ (0x73 ∷ (3 ∷ (hotp_key ++ (0x7a ∷ (8 ∷ replicate 8 0))))))))
    ∷ []

abbrev calculate : Apdu
calculate = record { p1 = 0; p2 = 1; bytes = [] }

imf_there : board.find_tag (board.contents hotp_files Ef.oath_cred) 0x7a ≡ some (10, 8)
unfolding find read
imf_there = refl

computed :
    (calculate_key board 2048 calculate Ef.oath_cred [] hotp_key (state hotp_files true)).0
    ≡ ok ok_sw
unfolding calculate_key respond_code advance_counter put_counter calculate_oath respond truncated
    md_info find read write pad last_or from_little little
computed = refl

counter_0 : counter board 2048 hotp_files Ef.oath_cred 10 + 1 < 2 ^ 64
unfolding read from_little
counter_0 = omega arith

calculate_key_advances_example :
    counter board 2048
      (calculate_key board 2048 calculate Ef.oath_cred [] hotp_key (state hotp_files true)).1.fs
      Ef.oath_cred
      10
    ≡ counter board 2048 hotp_files Ef.oath_cred 10 + 1
calculate_key_advances_example =
    calculate_key_advances board 2048 calculate Ef.oath_cred [] hotp_key 10 8
      (state hotp_files true) refl imf_there (λ d. refl) counter_0 computed

abbrev reset : Apdu
reset = record { p1 = 0xde; p2 = 0xad; bytes = [] }

cmd_reset_clears_example :
    let s' = (cmd_reset board reset (state files false)).1 in
    let ours =
      (Ef.oath_cred ≤ Ef.oath_code) × (Ef.oath_code < Ef.oath_cred + max_oath_cred)
      ⊎ ((Ef.oath_code ≡ Ef.oath_code) ⊎ (Ef.oath_code ≡ Ef.otp_pin)) in
    (s'.validated ≡ true)
    × (ours → board.contents s'.fs Ef.oath_code ≡ [])
    × ((ours → ⊥) → board.contents s'.fs Ef.oath_code ≡ board.contents files Ef.oath_code)
cmd_reset_clears_example = cmd_reset_clears board reset (state files false) Ef.oath_code refl refl

abbrev rename_apdu : Apdu
rename_apdu = apdu_of (0x71 ∷ (1 ∷ (65 ∷ (0x71 ∷ (2 ∷ (66 ∷ (67 ∷ [])))))))

renamed_file :
    board.contents (cmd_rename board rename_apdu (state files true)).1.fs Ef.oath_cred
    ≡ 0x71 ∷ (2 ∷ (66 ∷ (67 ∷ (0x73 ∷ (2 ∷ (33 ∷ (6 ∷ [])))))))
unfolding cmd_rename rename_to renamed find_oath_cred find_from is_named value find read write pad
    last_or eq_bytes
renamed_file = refl

shown :
    (cmd_get_credential board 2048 (apdu_of (0x71 ∷ (1 ∷ (65 ∷ [])))) (state files true)).1.response
    ≡ 0x71 ∷ (1 ∷ (65 ∷ []))
unfolding cmd_get_credential append_entries append_tag find_oath_cred find_from is_named value find
    read pad last_or eq_bytes
shown = refl

listed :
    (cmd_list board 2048 (apdu_of []) (state files true)).1.response ≡ 0x72 ∷ (2 ∷ (33 ∷ (65 ∷ [])))
unfolding cmd_list each_from list_one list_entry if_room decrypt_key is_secure value find read pad
    last_or
listed = refl

abbrev all_apdu : Apdu
all_apdu = record { p1 = 0; p2 = 1; bytes = 0x74 ∷ (1 ∷ (1 ∷ [])) }

cmd_calculate_all_fits_example :
    ((cmd_calculate_all board 2048 all_apdu (state files true)).0 ≢ fault)
    × (length (cmd_calculate_all board 2048 all_apdu (state files true)).1.response ≤ 2048)
cmd_calculate_all_fits_example =
    cmd_calculate_all_fits board 2048 all_apdu (state files true) (omega arith)
