-- ===== src/Oath/Calculate/Short.antt =====
-- What `calculate_oath` leaves of the answer where it computes no code.
use fido_touch.Prelude.{
  ℕ, ◌+◌, ◌≡◌, ◌⊎◌, inl, inr, Option, none, some, List, drop, length, get_or, arith, if-elim, ltb,
  ◌==◌, if◌then◌else◌,
}
use fido_touch.Exec.{Result, ok, err, fault}
use fido_touch.Platform.{Platform, Md}
use fido_touch.Oath.Keys.{md_info}
use fido_touch.Oath.Calculate.{
  Outcome, done, incorrect_params, exec_error, has_room, calculate_oath, respond, answered,
  truncated,
}

module _ (P : Platform) (buffer : ℕ) where
  -- What is not a code leaves the answer as it was.
  respond-short :
      (truncate : ℕ) (md : Md) (digits : ℕ) (mac response : List ℕ) (o : Outcome) (r : List ℕ)
      → respond P buffer truncate md digits mac response ≡ ok (o, r)
      → (o ≡ done) ⊎ (r ≡ response)
  unfolding respond
  respond-short truncate md digits mac response o r h =
      if-elim (λ x. x ≡ ok (o, r) → (o ≡ done) ⊎ (r ≡ response)) (truncate == 1)
        (λ _.
          if-elim (λ x. x ≡ ok (o, r) → (o ≡ done) ⊎ (r ≡ response)) (has_room buffer response 7)
            (λ _. by_four (truncated mac (P.md_size md))) (λ _ e. inr (ground arith)))
        (λ _.
          if-elim (λ x. x ≡ ok (o, r) → (o ≡ done) ⊎ (r ≡ response))
            (has_room buffer response (P.md_size md + 2)) (λ _ e. inl (ground arith))
            (λ _ e. inr (ground arith)))
        h
    where
      by_four :
          (x : Result (List ℕ))
          → answered response digits x ≡ ok (o, r)
          → (o ≡ done) ⊎ (r ≡ response)
      by_four (ok four) e = inl (ground arith)
      by_four (err x) e = ground arith
      by_four fault e = ground arith

  pub calculate_oath-short :
      (truncate : ℕ) (key chal response : List ℕ) (o : Outcome) (r : List ℕ)
      → calculate_oath P buffer truncate key chal response ≡ ok (o, r)
      → (o ≡ done) ⊎ (r ≡ response)
  unfolding calculate_oath
  calculate_oath-short truncate key chal response o r h =
      if-elim (λ x. x ≡ ok (o, r) → (o ≡ done) ⊎ (r ≡ response)) (ltb (length key) 2)
        (λ _ e. inr (ground arith)) (λ _. by_md (md_info (get_or key 0 0))) h
    where
      by_md :
          (m : Option Md)
          → (elim m as (λ k. Result (Outcome × List ℕ)) [
            | none ↦ ok (incorrect_params, response)
            | some md ↦
                let (ret, mac) = P.hmac md (drop 2 key) chal in
                if ret == 0
                then respond P buffer truncate md (get_or key 1 0) mac response
                else ok (exec_error, response)
          ])
            ≡ ok (o, r)
          → (o ≡ done) ⊎ (r ≡ response)
      by_md none e = inr (ground arith)
      by_md (some md) e =
          if-elim (λ x. x ≡ ok (o, r) → (o ≡ done) ⊎ (r ≡ response))
            ((P.hmac md (drop 2 key) chal).0 == 0)
            (λ _.
              respond-short truncate md (get_or key 1 0) (P.hmac md (drop 2 key) chal).1 response o
                r)
            (λ _ e'. inr (ground arith)) e
