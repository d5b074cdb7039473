-- ===== src/Oath/Hotp/Laws.antt =====
-- The counter of a HOTP credential after CALCULATE.
use fido_touch.Prelude.{
  ℕ, zero, suc, ◌+◌, ◌%◌, ◌^◌, ◌≤◌, ◌<◌, ◌≡◌, refl, sym, ap, ◌∙◌, true, some, List, [], ◌∷◌, ◌++◌,
  length, length-take, take, drop, take-append, arith,
}
use fido_touch.Exec.{Result, ok, err, fault}
use fido_touch.Platform.{Platform, success}
use fido_touch.Oath.{Sw, ok_sw, Apdu, OathOf}
use fido_touch.Oath.Credentials.{tag_imf, is_hotp}
use fido_touch.Oath.Calculate.{
  Outcome, done, wrong_data, incorrect_params, exec_error, wrong_length, calculate_oath,
}
use fido_touch.Oath.Hotp.{put_counter, advance_counter, respond_code, calculate_key}

drop-append : (xs ys : List ℕ) {n : ℕ} → length xs ≡ n → drop n (xs ++ ys) ≡ ys
drop-append [] ys {n = zero} h = refl
drop-append [] ys {n = suc n} h = absurd (omega (arith, h))
drop-append (x ∷ xs) ys {n = zero} h = absurd (omega (arith, h))
drop-append (x ∷ xs) ys {n = suc n} h = drop-append xs ys (omega (arith, h))

counter_put :
    (at : ℕ) (eight d : List ℕ)
    → at ≤ length d
    → length eight ≡ 8
    → take 8 (drop at (put_counter at eight d)) ≡ eight
unfolding put_counter
counter_put at eight d h h8 =
    ap (take 8)
      (drop-append (take at d) (eight ++ drop (at + 8) d) (omega (arith, length-take at d)))
    ∙ take-append eight (drop (at + 8) d) h8

module _ (P : Platform) (buffer : ℕ) where
  open P use {
    Fs, contents, put, commit, find_tag, be64, get_be64, contents-put, contents-put_ne,
    contents-commit, get_be64-be64, length-be64,
  }

  abbrev pub counter : Fs → ℕ → ℕ → ℕ
  counter fs k at = get_be64 (take 8 (drop at (contents fs k)))

  advance_counter_lem :
      (k at : ℕ) (s : OathOf P)
      → ((d : List ℕ) → (put s.fs k d).0 ≡ success)
      → counter s.fs k at + 1 < 2 ^ 64
      → (advance_counter P buffer k at s).0 ≡ ok ok_sw
      → (counter (advance_counter P buffer k at s).1.fs k at ≡ counter s.fs k at + 1)
  unfolding advance_counter
  advance_counter_lem k at s hp small h =
      let d = contents s.fs k in
      let next = (counter s.fs k at + 1) % 2 ^ 64 in
      let d' = put_counter at (be64 next) d in
      let long : at ≤ length d = ground arith in
      ground (
        arith,
        contents-commit (put s.fs k d').1 k,
        contents-put s.fs k d' (hp d'),
        counter_put at (be64 next) d long (length-be64 next),
        get_be64-be64 next,
      )

  -- An answer that is a success is that of the step after the code was computed.
  respond_code-ok :
      (apdu : Apdu) (key chal : List ℕ) (next : OathOf P → Result Sw × OathOf P) (s : OathOf P)
      → (respond_code P buffer apdu key chal next s).0 ≡ ok ok_sw
      → (r : List ℕ) × (respond_code P buffer apdu key chal next s
          ≡ next (record s { response = r }))
  unfolding respond_code
  respond_code-ok apdu key chal next s h =
      by_code (calculate_oath P buffer apdu.p2 key chal (s.response ++ ((0x75 + apdu.p2) ∷ [])))
        refl
    where
      by_code :
          (c : Result (Outcome × List ℕ))
          → calculate_oath P buffer apdu.p2 key chal (s.response ++ ((0x75 + apdu.p2) ∷ [])) ≡ c
          → (r : List ℕ) × (respond_code P buffer apdu key chal next s
              ≡ next (record s { response = r }))
      by_code (ok (done, r)) e = (r, ground arith)
      by_code (ok (wrong_data, r)) e = absurd (ground arith)
      by_code (ok (incorrect_params, r)) e = absurd (ground arith)
      by_code (ok (exec_error, r)) e = absurd (ground arith)
      by_code (ok (wrong_length, r)) e = absurd (ground arith)
      by_code (err c) e = absurd (ground arith)
      by_code fault e = absurd (ground arith)

  -- CALCULATE with a HOTP key that succeeds, on a flash that takes the write, leaves the counter where the
  -- moving factor stands in the file one higher, if it was below 2 ^ 64 - 1.
  pub calculate_key_advances :
      (apdu : Apdu) (k : ℕ) (chal key : List ℕ) (at len : ℕ) (s : OathOf P)
      → is_hotp key ≡ true
      → find_tag (contents s.fs k) tag_imf ≡ some (at, len)
      → ((d : List ℕ) → (put s.fs k d).0 ≡ success)
      → counter s.fs k at + 1 < 2 ^ 64
      → (calculate_key P buffer apdu k chal key s).0 ≡ ok ok_sw
      → counter (calculate_key P buffer apdu k chal key s).1.fs k at ≡ counter s.fs k at + 1
  unfolding calculate_key
  calculate_key_advances apdu k chal key at len s hk hf hp small h =
      ap (λ t. counter t.1.fs k at) e
      ∙ advance_counter_lem k at (record s { response = r.0 }) hp small (sym (ap (λ t. t.0) e) ∙ h)
    where
      imf : List ℕ
      imf = take len (drop at (contents s.fs k))

      plain :
          calculate_key P buffer apdu k chal key s
          ≡ respond_code P buffer apdu key imf (advance_counter P buffer k at) s
      plain = ground (arith, hk, hf, h)

      r :
          (r : List ℕ) × (respond_code P buffer apdu key imf (advance_counter P buffer k at) s
            ≡ advance_counter P buffer k at (record s { response = r }))
      r =
          respond_code-ok apdu key imf (advance_counter P buffer k at) s
            (sym (ap (λ t. t.0) plain) ∙ h)

      e :
          calculate_key P buffer apdu k chal key s
          ≡ advance_counter P buffer k at (record s { response = r.0 })
      e = plain ∙ r.1
