-- ===== src/Oath/Stored.antt =====
-- Which files the commands on credentials touch.
use fido_touch.Prelude.{
  ℕ, zero, suc, ◌+◌, ◌≤◌, ◌<◌, ◌≡◌, ◌≢◌, refl, ap, ◌∙◌, ◌⊎◌, inl, inr, Bool, true, false, Option,
  none, some, List, [], arith,
}
use fido_touch.Exec.{Result, ok, err, fault}
use fido_touch.Platform.{Platform}
use fido_touch.Ctap.Ef
use fido_touch.Oath.{ok_sw, Apdu, OathOf, value}
use fido_touch.Oath.Keys.{encrypt_key}
use fido_touch.Oath.Code.{tag_key}
use fido_touch.Oath.Credentials.{
  max_oath_cred, tag_name, tag_imf, with_imf, is_named, find_from, find_oath_cred, free_from,
  put_credential_data, rewritten, stored_as, put_at, put_new, put_named, put_checked, cmd_put,
  cmd_delete,
}

module _ (P : Platform) where
  open P use {
    Fs, exists, contents, put, create, delete, commit, contents-put_ne, contents-create,
    contents-commit, contents-delete,
  }

  -- `k` is the first of the `n` files from `fid` on with the name.
  abbrev pub FirstNamed : ℕ → ℕ → List ℕ → Fs → ℕ → Type 0
  FirstNamed n fid name fs k =
      (is_named P name fs k ≡ true)
      × (fid ≤ k)
      × (k < fid + n)
      × ((j : ℕ) → fid ≤ j → j < k → is_named P name fs j ≡ false)

  find_from_named :
      (n fid : ℕ) (name : List ℕ) (fs : Fs) (k : ℕ) (b : Bool)
      → is_named P name fs fid ≡ b
      → (find_from P n (fid + 1) name fs ≡ some k → FirstNamed n (fid + 1) name fs k)
      → find_from P (suc n) fid name fs ≡ some k
      → FirstNamed (suc n) fid name fs k
  unfolding find_from
  find_from_named n fid name fs k true e again h =
      (ground arith, ground arith, ground arith, λ j l u. ground arith)
  find_from_named n fid name fs k false e again h =
      let (named, low, high, first) = again (ground arith) in
      (named, omega (arith, low), omega (arith, high), λ j l u. before j l u (compare_first j l))
    where
      compare_first : (j : ℕ) → fid ≤ j → (j ≡ fid) ⊎ (fid + 1 ≤ j)
      compare_first j l = ground arith

      before : (j : ℕ) → fid ≤ j → j < k → (j ≡ fid) ⊎ (fid + 1 ≤ j) → is_named P name fs j ≡ false
      before j l u (inl z) = ap (is_named P name fs) z ∙ e
      before j l u (inr m) = (again (ground arith)).3 j m u

  find_from-some :
      (n fid : ℕ) (name : List ℕ) (fs : Fs) (k : ℕ)
      → find_from P n fid name fs ≡ some k
      → FirstNamed n fid name fs k
  unfolding find_from
  find_from-some zero fid name fs k h = ground arith
  find_from-some (suc n) fid name fs k h =
      find_from_named n fid name fs k (is_named P name fs fid) refl
        (find_from-some n (fid + 1) name fs k) h

  free_from-some :
      (n fid : ℕ) (fs : Fs) (k : ℕ)
      → free_from P n fid fs ≡ some k
      → (exists fs k ≡ false) × (fid ≤ k) × (k < fid + n)
  unfolding free_from
  free_from-some zero fid fs k h = ground arith
  free_from-some (suc n) fid fs k h = ground (arith, free_from-some n (fid + 1) fs k)

  put_credential_data_ne :
      (fid : ℕ) (d : List ℕ) (fs : Fs) (j : ℕ)
      → fid ≢ j
      → contents (put_credential_data P fid d fs).1 j ≡ contents fs j
  unfolding put_credential_data
  put_credential_data_ne fid d fs j h = by_key (value P d tag_key) refl
    where
      by_key :
          (o : Option (List ℕ))
          → value P d tag_key ≡ o
          → contents (put_credential_data P fid d fs).1 j ≡ contents fs j
      by_key none e = ground (arith, contents-put_ne fs fid j d)
      by_key (some key) e = by_secret (encrypt_key P key) refl
        where
          by_secret :
              (o : Option (List ℕ))
              → encrypt_key P key ≡ o
              → contents (put_credential_data P fid d fs).1 j ≡ contents fs j
          by_secret none es = ground (arith, contents-put_ne fs fid j d)
          by_secret (some s) es =
              ground (arith, contents-put_ne fs fid j d, contents-put_ne fs fid j (rewritten P d s))

  stored_as_same :
      (s : OathOf P) (r : Result Bool) (fs : Fs) (j : ℕ)
      → contents (stored_as P s (r, fs)).1.fs j ≡ contents fs j
  stored_as_same s (ok true) fs j = contents-commit fs j
  stored_as_same s (ok false) fs j = refl
  stored_as_same s (err e) fs j = refl
  stored_as_same s fault fs j = refl

  put_new_ne :
      (d : List ℕ) (o : Option ℕ) (s : OathOf P) (j : ℕ)
      → o ≢ some j
      → contents (put_new P d o s).1.fs j ≡ contents s.fs j
  put_new_ne d none s j h = refl
  put_new_ne d (some fid) s j h =
      let fs = (create s.fs fid).1 in
      let p = put_credential_data P fid d fs in
      ground (
        arith,
        contents-create s.fs fid j,
        put_credential_data_ne fid d fs j,
        stored_as_same s p.0 p.1 j,
      )

  put_at_ne :
      (d : List ℕ) (o : Option ℕ) (s : OathOf P) (j : ℕ)
      → o ≢ some j
      → free_from P max_oath_cred Ef.oath_cred s.fs ≢ some j
      → contents (put_at P d o s).1.fs j ≡ contents s.fs j
  unfolding put_at
  put_at_ne d none s j h hf = put_new_ne d (free_from P max_oath_cred Ef.oath_cred s.fs) s j hf
  put_at_ne d (some fid) s j h hf =
      let p = put_credential_data P fid d s.fs in
      stored_as_same s p.0 p.1 j ∙ put_credential_data_ne fid d s.fs j (ground arith)

  -- The file may be written for a credential of the name: it holds that name, or is no file yet.
  unfoldable pub MayWrite : List ℕ → Fs → ℕ → Type 0
  MayWrite name fs j = (is_named P name fs j ≡ true) ⊎ (exists fs j ≡ false)

  find_oath_cred-some :
      (name : List ℕ) (fs : Fs) (k : ℕ)
      → find_oath_cred P name fs ≡ some k
      → FirstNamed max_oath_cred Ef.oath_cred name fs k
  unfolding find_oath_cred
  find_oath_cred-some name fs k h = find_from-some max_oath_cred Ef.oath_cred name fs k h

  is_some : (o : Option ℕ) (j : ℕ) → (o ≡ some j) ⊎ (o ≢ some j)
  is_some none j = ground arith
  is_some (some k) j = ground arith

  put_named_keeps :
      (name d : List ℕ) (s : OathOf P) (j : ℕ)
      → (contents (put_named P name d s).1.fs j ≡ contents s.fs j) ⊎ MayWrite name s.fs j
  unfolding MayWrite
  put_named_keeps name d s j =
      by_file (is_some (find_oath_cred P name s.fs) j)
        (is_some (free_from P max_oath_cred Ef.oath_cred s.fs) j)
    where
      by_file :
          (find_oath_cred P name s.fs ≡ some j) ⊎ (find_oath_cred P name s.fs ≢ some j)
          → (free_from P max_oath_cred Ef.oath_cred s.fs ≡ some j)
            ⊎ (free_from P max_oath_cred Ef.oath_cred s.fs ≢ some j)
          → (contents (put_named P name d s).1.fs j ≡ contents s.fs j) ⊎ MayWrite name s.fs j
      by_file (inl e) f = inr (inl (find_oath_cred-some name s.fs j e).0)
      by_file (inr e) (inl f) = inr (inr (free_from-some max_oath_cred Ef.oath_cred s.fs j f).0)
      by_file (inr e) (inr f) = inl (put_at_ne d (find_oath_cred P name s.fs) s j e f)

  put_checked_keeps :
      (msg key name : List ℕ) (s : OathOf P) (j : ℕ)
      → (contents (put_checked P msg key name s).1.fs j ≡ contents s.fs j) ⊎ MayWrite name s.fs j
  unfolding put_checked
  put_checked_keeps msg key name s j = ground (
    arith,
    put_named_keeps name msg s j,
    put_named_keeps name (with_imf msg (P.find_tag msg tag_imf)) s j,
  )

  -- PUT changes no file but one that holds a credential of the name it is given, or one that did not
  -- exist, so it never overwrites another credential.
  pub cmd_put_keeps :
      (apdu : Apdu) (s : OathOf P) (j : ℕ)
      → (contents (cmd_put P apdu s).1.fs j ≡ contents s.fs j)
        ⊎ ((name : List ℕ) × (value P apdu.bytes tag_name ≡ some name) × MayWrite name s.fs j)
  unfolding cmd_put
  cmd_put_keeps apdu s j =
      by_tags (value P apdu.bytes tag_key) refl (value P apdu.bytes tag_name) refl
    where
      by_tags :
          (k : Option (List ℕ))
          → value P apdu.bytes tag_key ≡ k
          → (n : Option (List ℕ)) → value P apdu.bytes tag_name ≡ n
          → (contents (cmd_put P apdu s).1.fs j ≡ contents s.fs j)
            ⊎ ((name : List ℕ) × (value P apdu.bytes tag_name ≡ some name) × MayWrite name s.fs j)
      by_tags none ek n en = inl (ground arith)
      by_tags (some key) ek none en = inl (ground arith)
      by_tags (some key) ek (some name) en = by_kept (put_checked_keeps apdu.bytes key name s j)
        where
          by_kept :
              (contents (put_checked P apdu.bytes key name s).1.fs j ≡ contents s.fs j)
                ⊎ MayWrite name s.fs j
              → (contents (cmd_put P apdu s).1.fs j ≡ contents s.fs j)
                ⊎ ((name : List ℕ) × (value P apdu.bytes tag_name ≡ some name)
                    × MayWrite name s.fs j)
          by_kept (inl h) = inl (ground (arith, h))
          by_kept (inr m) = inr (name, en, m)

  -- DELETE that succeeds has emptied the first file with the name it is given, and no other file has
  -- changed.
  pub cmd_delete_lem :
      (apdu : Apdu) (s : OathOf P)
      → (cmd_delete P apdu s).0 ≡ ok ok_sw
      → (name : List ℕ) × (k : ℕ) × (value P apdu.bytes tag_name ≡ some name)
        × FirstNamed max_oath_cred Ef.oath_cred name s.fs k
        × (contents (cmd_delete P apdu s).1.fs k ≡ [])
        × ((j : ℕ) → k ≢ j → contents (cmd_delete P apdu s).1.fs j ≡ contents s.fs j)
  unfolding cmd_delete
  cmd_delete_lem apdu s h = by_tag (value P apdu.bytes tag_name) refl
    where
      by_tag :
          (n : Option (List ℕ))
          → value P apdu.bytes tag_name ≡ n
          → (name : List ℕ) × (k : ℕ) × (value P apdu.bytes tag_name ≡ some name)
            × FirstNamed max_oath_cred Ef.oath_cred name s.fs k
            × (contents (cmd_delete P apdu s).1.fs k ≡ [])
            × ((j : ℕ) → k ≢ j → contents (cmd_delete P apdu s).1.fs j ≡ contents s.fs j)
      by_tag none e = ground arith
      by_tag (some name) e = by_found (find_oath_cred P name s.fs) refl
        where
          by_found :
              (o : Option ℕ)
              → find_oath_cred P name s.fs ≡ o
              → (name : List ℕ) × (k : ℕ) × (value P apdu.bytes tag_name ≡ some name)
                × FirstNamed max_oath_cred Ef.oath_cred name s.fs k
                × (contents (cmd_delete P apdu s).1.fs k ≡ [])
                × ((j : ℕ) → k ≢ j → contents (cmd_delete P apdu s).1.fs j ≡ contents s.fs j)
          by_found none eo = ground arith
          by_found (some k) eo = (
            name,
            k,
            e,
            find_oath_cred-some name s.fs k eo,
            ground (arith, contents-delete s.fs k k),
            λ j ne. ground (arith, contents-delete s.fs k j),
          )
