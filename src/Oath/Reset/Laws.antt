-- ===== src/Oath/Reset/Laws.antt =====
-- What RESET leaves in the files.
use fido_touch.Prelude.{
  ℕ, zero, suc, ◌+◌, ◌≤◌, ◌<◌, ◌≡◌, ◌≢◌, refl, ◌⊎◌, ◌∙◌, true, List, [], ◌∷◌, length, ◌==◌, arith,
  if◌then◌else◌,
}
use fido_touch.Platform.{Platform}
use fido_touch.Ctap.Ef
use fido_touch.Oath.{Apdu, OathOf}
use fido_touch.Oath.Credentials.{max_oath_cred}
use fido_touch.Oath.Reset.{wipe, cmd_reset}

empty : (xs : List ℕ) → length xs ≡ 0 → xs ≡ []
empty [] h = refl
empty (x ∷ xs) h = absurd (omega (arith, h))

module _ (P : Platform) where
  open P use {Fs, contents, delete, commit, contents-delete, contents-commit}

  abbrev wiped : ℕ → Fs → Fs
  wiped fid fs = if length (contents fs fid) == 0 then fs else delete fs fid

  contents-wiped_self : (fid : ℕ) (fs : Fs) → contents (wiped fid fs) fid ≡ []
  contents-wiped_self fid fs = ground (arith, empty (contents fs fid), contents-delete fs fid fid)

  contents-wiped_ne : (fid j : ℕ) (fs : Fs) → fid ≢ j → contents (wiped fid fs) j ≡ contents fs j
  contents-wiped_ne fid j fs h = ground (arith, contents-delete fs fid j)

  -- A file outside the range stays as it is.
  wipe_out :
      (n fid j : ℕ) (fs : Fs)
      → (j < fid) ⊎ (fid + n ≤ j)
      → contents (wipe P n fid fs) j ≡ contents fs j
  unfolding wipe
  wipe_out zero fid j fs h = refl
  wipe_out (suc n) fid j fs h =
      wipe_out n (fid + 1) j (wiped fid fs) (ground arith)
      ∙ contents-wiped_ne fid j fs (ground arith)

  wipe_in : (n fid j : ℕ) (fs : Fs) → fid ≤ j → j < fid + n → contents (wipe P n fid fs) j ≡ []
  unfolding wipe
  wipe_in zero fid j fs h1 h2 = absurd (omega arith)
  wipe_in (suc n) fid j fs h1 h2 = ground (
    arith,
    wipe_in n (fid + 1) j (wiped fid fs),
    wipe_out n (fid + 1) fid (wiped fid fs),
    contents-wiped_self fid fs,
  )

  -- RESET with its two magic parameters leaves no credential, no access code and no PIN, opens the
  -- application, and changes no other file.
  pub cmd_reset_clears :
      (apdu : Apdu) (s : OathOf P) (j : ℕ)
      → apdu.p1 ≡ 0xde
      → apdu.p2 ≡ 0xad
      → let s' = (cmd_reset P apdu s).1 in
        let ours =
          (Ef.oath_cred ≤ j) × (j < Ef.oath_cred + max_oath_cred)
          ⊎ ((j ≡ Ef.oath_code) ⊎ (j ≡ Ef.otp_pin)) in
        (s'.validated ≡ true)
        × (ours → contents s'.fs j ≡ [])
        × ((ours → ⊥) → contents s'.fs j ≡ contents s.fs j)
  unfolding cmd_reset
  cmd_reset_clears apdu s j h1 h2 =
      let f1 = wipe P max_oath_cred Ef.oath_cred s.fs in
      let f2 = delete f1 Ef.oath_code in
      ground (
        arith,
        wipe_in max_oath_cred Ef.oath_cred j s.fs,
        wipe_out max_oath_cred Ef.oath_cred j s.fs,
        contents-delete f1 Ef.oath_code j,
        contents-delete f2 Ef.otp_pin j,
        contents-commit (delete f2 Ef.otp_pin) j,
      )
