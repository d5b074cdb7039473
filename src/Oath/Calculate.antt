-- ===== src/Oath/Calculate.antt =====
-- `calculate_oath`: the code of a credential for a challenge.
pub mod Short
use fido_touch.Prelude.{
  ℕ, ◌+◌, ◌-◌, ◌%◌, ◌≤◌, ◌≡◌, ◌≢◌, refl, Bool, ◌&&◌, Option, none, some, List, [], ◌∷◌, ◌++◌,
  length, length-append, length-take, take, drop, get_or, arith, ltb, leb, ◌==◌, bit_and,
  bit_and_bound, if◌then◌else◌,
}
use fido_touch.Exec.{Result, ok, fault}
use fido_touch.Platform.{Platform, Md}
use fido_touch.Oath.Keys.{md_info}

-- What `calculate_oath` returns
pub data Outcome : Type 0 where
  done wrong_data incorrect_params exec_error wrong_length : Outcome

-- `oath_response_has_room`, with USB_BUFFER_SIZE
abbrev pub has_room : ℕ → List ℕ → ℕ → Bool
has_room buffer response n = leb (length response) buffer && leb n (buffer - length response)

-- The dynamic truncation of RFC 4226. The MAC has `n` bytes, and reading behind them is a fault.
unfoldable pub truncated : List ℕ → ℕ → Result (List ℕ)
truncated mac n =
    let at = bit_and (get_or mac (n - 1) 0) 0x0f in
    if ltb (at + 3) n
    then ok (
        bit_and (get_or mac at 0) 0x7f
        ∷ (get_or mac (at + 1) 0 ∷ (get_or mac (at + 2) 0 ∷ (get_or mac (at + 3) 0 ∷ []))))
    else fault

abbrev pub answered : List ℕ → ℕ → Result (List ℕ) → Result (Outcome × List ℕ)
answered response digits (ok four) = ok (done, response ++ (5 ∷ (digits ∷ four)))
answered response digits (Result.err e) = Result.err e
answered response digits fault = fault

module _ (P : Platform) where
  open P use {hmac, md_size, length-hmac, md_size_bounds}

  unfoldable pub respond : ℕ → ℕ → Md → ℕ → List ℕ → List ℕ → Result (Outcome × List ℕ)
  unfolding truncated
  respond buffer truncate md digits mac response =
      if truncate == 1
      then (if has_room buffer response 7
          then answered response digits (truncated mac (md_size md))
          else ok (wrong_length, response))
      else if has_room buffer response (md_size md + 2)
      then ok (done, response ++ ((md_size md + 1) % 256 ∷ (digits ∷ take (md_size md) mac)))
      else ok (wrong_length, response)

  -- `calculate_oath`, with the answer so far
  unfoldable pub calculate_oath : ℕ → ℕ → List ℕ → List ℕ → List ℕ → Result (Outcome × List ℕ)
  unfolding respond
  calculate_oath buffer truncate key chal response =
      if ltb (length key) 2 then ok (wrong_data, response) else elim (md_info (get_or key 0 0)) [
        | none ↦ ok (incorrect_params, response)
        | some md ↦
            let (ret, mac) = hmac md (drop 2 key) chal in
            if ret == 0
            then respond buffer truncate md (get_or key 1 0) mac response
            else ok (exec_error, response)
      ]

truncated_lem :
    (mac : List ℕ) (n : ℕ)
    → 20 ≤ n
    → (four : List ℕ) × (truncated mac n ≡ ok four) × (length four ≡ 4) × (get_or four 0 0 ≤ 0x7f)
unfolding truncated
truncated_lem mac n h =
    let at = bit_and (get_or mac (n - 1) 0) 0x0f in
    (
      bit_and (get_or mac at 0) 0x7f
          ∷ (get_or mac (at + 1) 0 ∷ (get_or mac (at + 2) 0 ∷ (get_or mac (at + 3) 0 ∷ []))),
      ground (arith, bit_and_bound (get_or mac (n - 1) 0) 0x0f),
      refl,
      bit_and_bound (get_or mac at 0) 0x7f,
    )

module _ (P : Platform) where
  open P use {hmac, md_size, length-hmac, md_size_bounds}

  respond-ne-fault :
      (buffer truncate : ℕ) (md : Md) (digits : ℕ) (mac response : List ℕ)
      → respond P buffer truncate md digits mac response ≢ fault
  unfolding respond
  respond-ne-fault buffer truncate md digits mac response =
      let (four, e, len, _) = truncated_lem mac (md_size md) (md_size_bounds md).0 in
      ground (arith, e)

  length-answered :
      (response : List ℕ) (digits : ℕ) (mac : List ℕ) (o : Outcome) (r : List ℕ) (n : ℕ)
      → 20 ≤ n
      → answered response digits (truncated mac n) ≡ ok (o, r)
      → length r ≡ length response + 6
  length-answered response digits mac o r n h e =
      let (four, et, len, _) = truncated_lem mac n h in
      ground (arith, et, len, length-append response (5 ∷ (digits ∷ four)))

  respond_fits :
      (buffer truncate : ℕ) (md : Md) (digits : ℕ) (mac response : List ℕ) (o : Outcome)
      (r : List ℕ)
      → length response ≤ buffer
      → length mac ≡ md_size md
      → respond P buffer truncate md digits mac response ≡ ok (o, r)
      → length r ≤ buffer
  unfolding respond
  respond_fits buffer truncate md digits mac response o r fits size h = ground (
    arith,
    length-answered response digits mac o r (md_size md) (md_size_bounds md).0,
    length-append response ((md_size md + 1) % 256 ∷ (digits ∷ take (md_size md) mac)),
    length-take (md_size md) mac,
  )

  -- For every key, challenge and digest, the truncation reads inside the MAC, and the answer stays
  -- inside the buffer.
  pub calculate_oath_fits :
      (buffer truncate : ℕ) (key chal response : List ℕ)
      → length response ≤ buffer
      → (calculate_oath P buffer truncate key chal response ≢ fault)
        × ((o : Outcome) (r : List ℕ)
            → calculate_oath P buffer truncate key chal response ≡ ok (o, r)
            → length r ≤ buffer)
  unfolding calculate_oath
  calculate_oath_fits buffer truncate key chal response fits = by_md (md_info (get_or key 0 0)) refl
    where
      by_md :
          (m : Option Md)
          → md_info (get_or key 0 0) ≡ m
          → (calculate_oath P buffer truncate key chal response ≢ fault)
            × ((o : Outcome) (r : List ℕ)
                → calculate_oath P buffer truncate key chal response ≡ ok (o, r)
                → length r ≤ buffer)
      by_md none e = (ground arith, λ o r h. ground arith)
      by_md (some md) e =
          let mac = hmac md (drop 2 key) chal in
          (
            ground (arith, respond-ne-fault buffer truncate md (get_or key 1 0) mac.1 response),
            λ o r h. ground (
              arith,
              respond_fits buffer truncate md (get_or key 1 0) mac.1 response o r,
              length-hmac md (drop 2 key) chal,
            ),
          )
