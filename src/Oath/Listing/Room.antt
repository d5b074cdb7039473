-- ===== src/Oath/Listing/Room.antt =====
-- The room that LIST and CALCULATE ALL take in the buffer of the answer.
use fido_touch.Prelude.{
  ℕ, ◌+◌, ◌≤◌, ◌≡◌, ◌≢◌, refl, Bool, true, false, Option, none, some, List, [], ◌∷◌, ◌⊎◌, ◌++◌,
  length, length-append, get_or, arith, if-elim, ltb, leb, ◌==◌, if◌then◌else◌, not, ◌||◌, ◌&&◌,
}
use fido_touch.Exec.{Result, ok, err, fault}
use fido_touch.Platform.{Platform}
use fido_touch.Oath.{security_status_not_satisfied, incorrect_p1p2, Apdu, OathOf, return_if, value}
use fido_touch.Ctap.Ef
use fido_touch.Oath.Keys.{decrypt_key}
use fido_touch.Oath.Code.{tag_key, tag_challenge}
use fido_touch.Oath.Credentials.{max_oath_cred, tag_name, is_hotp}
use fido_touch.Oath.Calculate.{Outcome, done, calculate_oath, calculate_oath_fits}
use fido_touch.Oath.Calculate.Short.{calculate_oath-short}
use fido_touch.Oath.Listing.Fits.{
  Fits, ok-Fits, err-Fits, if_room-Fits, or_skip-Fits, each_from-Fits, Inside, finished-Fits,
  return_if-Inside,
}
use fido_touch.Oath.Listing.{
  has_touch, response_len, code_or_digits, list_entry, all_entry, props, list_one, cmd_list,
  finished, all_for, all_one, each_from, cmd_calculate_all,
}

length-grown :
    (r name more : List ℕ)
    → length ((r ++ (tag_name ∷ (length name ∷ name))) ++ more)
      ≡ length r + (2 + length name) + length more
length-grown r name more =
    let outer = length-append (r ++ (tag_name ∷ (length name ∷ name))) more in
    let inner = length-append r (tag_name ∷ (length name ∷ name)) in omega arith

module _ (P : Platform) (buffer : ℕ) where
  -- The property byte, in the extended list
  abbrev props_of : Bool → List ℕ → List ℕ
  props_of ext d = if ext then props P buffer d ∷ [] else []

  digits-Fits :
      (key head : List ℕ) (x : Result (Outcome × List ℕ))
      → length head + 2 ≤ buffer
      → x ≢ fault
      → ((o : Outcome) (r : List ℕ) → x ≡ ok (o, r) → length r ≤ buffer)
      → ((o : Outcome) (r : List ℕ) → x ≡ ok (o, r) → (o ≡ done) ⊎ (r ≡ head))
      → Fits buffer (code_or_digits key x)
  digits-Fits key head (ok (done, r)) fits sound inside short =
      ok-Fits buffer true r (inside done r refl)
  digits-Fits key head (ok (o, r)) fits sound inside short =
      ok-Fits buffer true (r ++ (1 ∷ (get_or key 1 0 ∷ [])))
        (ground (arith, short o r refl, length-append r (1 ∷ (get_or key 1 0 ∷ []))))
  digits-Fits key head (err e) fits sound inside short = err-Fits buffer e
  digits-Fits key head fault fits sound inside short = absurd (sound refl)

  all_entry-Fits :
      (p2 : ℕ) (chal d name key r : List ℕ)
      → length r ≤ buffer
      → Fits buffer (all_entry P buffer p2 chal d name key r)
  unfolding all_entry
  all_entry-Fits p2 chal d name key r fits =
      if-elim (λ x. Fits buffer x) (ltb (length key) 2) (λ _. ok-Fits buffer true r fits)
        (λ _.
          if_room-Fits buffer (2 + length name + response_len (is_hotp key || touch)) r _ fits
            (λ room. by_kind (is_hotp key) touch room))
    where
      touch : Bool
      touch = has_touch (value P d 0x78)

      head : List ℕ
      head = r ++ (tag_name ∷ (length name ∷ name))

      three :
          length r + (2 + length name + 3) ≤ buffer
          → (more : List ℕ) → length more ≡ 3
          → length (head ++ more) ≤ buffer
      three room more e = let len = length-grown r name more in omega arith

      by_kind :
          (h t : Bool)
          → length r + (2 + length name + response_len (h || t)) ≤ buffer
          → Fits buffer (
              if h
              then ok (true, head ++ (0x77 ∷ (1 ∷ (get_or key 1 0 ∷ []))))
              else if t
              then ok (true, head ++ (0x7c ∷ (1 ∷ (get_or key 1 0 ∷ []))))
              else code_or_digits key
                  (calculate_oath P buffer p2 key chal (head ++ ((0x75 + p2) ∷ []))))
      by_kind true t room =
          ok-Fits buffer true _ (three room (0x77 ∷ (1 ∷ (get_or key 1 0 ∷ []))) refl)
      by_kind false true room =
          ok-Fits buffer true _ (three room (0x7c ∷ (1 ∷ (get_or key 1 0 ∷ []))) refl)
      by_kind false false room =
          let out = head ++ ((0x75 + p2) ∷ []) in
          let len : length out + 7 ≡ length r + (2 + length name + 8) =
            (let grown = length-grown r name ((0x75 + p2) ∷ []) in omega arith) in
          let fine = calculate_oath_fits P buffer p2 key chal out (omega arith) in
          digits-Fits key out (calculate_oath P buffer p2 key chal out) (omega arith) fine.0 fine.1
            (calculate_oath-short P buffer p2 key chal out)

  all_one-Fits :
      (p2 : ℕ) (chal d r : List ℕ) → length r ≤ buffer → Fits buffer (all_one P buffer p2 chal d r)
  unfolding all_one
  all_one-Fits p2 chal d r fits = or_skip-Fits buffer r (value P d tag_name) _ fits (λ name.
      or_skip-Fits buffer r (value P d tag_key) _ fits (λ stored.
        if-elim (λ x. Fits buffer x) (ltb 0xff (length name)) (λ _. ok-Fits buffer false r fits)
          (λ _.
            or_skip-Fits buffer r (decrypt_key P stored) _ fits
              (λ key. all_entry-Fits p2 chal d name key r fits))))

  length-props : (ext : Bool) (d : List ℕ) → length (props_of ext d) ≡ (if ext then 1 else 0)
  length-props true d = refl
  length-props false d = refl

  list_entry-Fits :
      (ext : Bool) (d name key r : List ℕ)
      → length r ≤ buffer
      → Fits buffer (list_entry P buffer ext d name key r)
  unfolding list_entry
  list_entry-Fits ext d name key r fits =
      let n = length name + (if ext then 1 else 0) in
      let entry = name ++ props_of ext d in
      if-elim (λ x. Fits buffer x) (ltb (length key) 2) (λ _. ok-Fits buffer true r fits)
        (λ _.
          if-elim (λ x. Fits buffer x) (ltb 0xfe n) (λ _. ok-Fits buffer false r fits)
            (λ _. if_room-Fits buffer (3 + n) r _ fits (λ room. ok-Fits buffer true _ (
              omega (
                arith,
                length-append r (0x72 ∷ ((n + 1) ∷ (get_or key 0 0 ∷ entry))),
                length-append name (props_of ext d),
                length-props ext d,
              )))))

  list_one-Fits :
      (ext : Bool) (d r : List ℕ) → length r ≤ buffer → Fits buffer (list_one P buffer ext d r)
  unfolding list_one
  list_one-Fits ext d r fits = or_skip-Fits buffer r (value P d tag_name) _ fits (λ name.
      or_skip-Fits buffer r (value P d tag_key) _ fits (λ stored.
        or_skip-Fits buffer r (decrypt_key P stored) _ fits
          (λ key. list_entry-Fits ext d name key r fits)))

  -- LIST reads nothing that it may not read, and its answer stays inside the buffer, whatever the files
  -- of the credentials hold and on every branch, if the answer was inside it before.
  cmd_list_fits :
      (apdu : Apdu) (s : OathOf P)
      → length s.response ≤ buffer
      → ((cmd_list P buffer apdu s).0 ≢ fault)
        × (length (cmd_list P buffer apdu s).1.response ≤ buffer)
  unfolding cmd_list
  cmd_list_fits apdu s fits =
      let ext = length apdu.bytes == 1 && get_or apdu.bytes 0 0 == 1 in
      return_if-Inside P buffer (not s.validated) security_status_not_satisfied
        (λ t.
          finished P buffer t
            (each_from P buffer (list_one P buffer ext) max_oath_cred Ef.oath_cred t.fs t.response))
        s fits
        (finished-Fits P buffer s _ fits (
          each_from-Fits P buffer (list_one P buffer ext) (list_one-Fits ext) max_oath_cred
            Ef.oath_cred s.fs s.response fits))

  all_for-Inside :
      (p2 : ℕ) (chal : Option (List ℕ)) (s : OathOf P)
      → length s.response ≤ buffer
      → Inside P buffer (all_for P buffer p2 chal s)
  all_for-Inside p2 none s fits = (ground arith, fits)
  all_for-Inside p2 (some chal) s fits =
      finished-Fits P buffer (record s { response = [] }) _ (omega arith)
        (each_from-Fits P buffer (all_one P buffer p2 chal) (all_one-Fits p2 chal) max_oath_cred
          Ef.oath_cred s.fs [] (omega arith))

  -- CALCULATE ALL reads nothing behind a MAC, and its answer stays inside the buffer, whatever the
  -- files of the credentials hold and on every branch, if the answer was inside it before.
  pub cmd_calculate_all_fits :
      (apdu : Apdu) (s : OathOf P)
      → length s.response ≤ buffer
      → ((cmd_calculate_all P buffer apdu s).0 ≢ fault)
        × (length (cmd_calculate_all P buffer apdu s).1.response ≤ buffer)
  unfolding cmd_calculate_all
  cmd_calculate_all_fits apdu s fits =
      return_if-Inside P buffer (not (leb apdu.p2 1)) incorrect_p1p2
        (return_if (not s.validated) security_status_not_satisfied
          (all_for P buffer apdu.p2 (value P apdu.bytes tag_challenge)))
        s fits
        (return_if-Inside P buffer (not s.validated) security_status_not_satisfied
          (all_for P buffer apdu.p2 (value P apdu.bytes tag_challenge)) s fits
          (all_for-Inside apdu.p2 (value P apdu.bytes tag_challenge) s fits))
