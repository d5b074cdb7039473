-- ===== src/Otp/Button/Usage.antt =====
-- The counters of a Yubico OTP slot.
use fido_touch.Prelude.{
  ℕ, ◌+◌, ◌-◌, ◌*◌, ◌%◌, ◌^◌, ◌<◌, ◌≡◌, ◌⊎◌, inl, inr, refl, ap, ◌∙◌, true, false, List, ◌++◌,
  length, length-append, length-take, length-drop, length-replicate, take, take-append, drop,
  drop-append, replicate, get_or, get_or-set_self, arith, ◌==◌, Bool-cases,
}
use fido_touch.Platform.{Platform, success}
use fido_touch.Otp.{OtpOf, config_size}
use fido_touch.Otp.Slot.{sized, slot_load, slot_store, plain_max}
use fido_touch.Otp.Slot.Laws.{Ciphers, slot_load-slot_store}
use fido_touch.Otp.Slot.Migration.{slot_load-same}
use fido_touch.Otp.Button.Block.{TwoBytes, Types, press_yubico-Types}
use fido_touch.Otp.Button.{current, following, is_stored, usage, with_usage, press_yubico}

stored_step :
    (used session : ℕ)
    → used < 0x7fff
    → session < 256
    → is_stored used session ≡ true
    → (following used session < 2 ^ 16)
      × (256 * current (following used session) + (session + 1) % 256
          ≡ 256 * current used + session + 1)
unfolding is_stored following current
stored_step used session few byte h = (ground (arith, h), ground (arith, h))

kept_step :
    (used session : ℕ)
    → used < 0x7fff
    → session < 256
    → is_stored used session ≡ false
    → (session + 1) % 256 ≡ session + 1
unfolding is_stored following current
kept_step used session few byte h = ground (arith, h)

current_small : (used : ℕ) → used < 0x7fff → current used < 2 ^ 16
unfolding current
current_small used few = ground arith

module _ (P : Platform) where
  open P use {Fs, contents, commit, be16, get_be16, contents-commit}

  -- The number that the usage counter and the session counter of a slot are together
  unfoldable pub number : List ℕ → ℕ → ℕ
  number c session = 256 * current (usage P c) + session

  -- Storing to the slot succeeds.
  unfoldable pub Stores : ℕ → Fs → Type 0
  Stores fid fs = (d : List ℕ) → length d ≡ plain_max → (slot_store P fid d fs).0 ≡ success

  abbrev padded : List ℕ → List ℕ
  padded c = c ++ replicate (plain_max - length c) 0

  usage-with_usage :
      (c : List ℕ) (n : ℕ)
      → TwoBytes P
      → length c ≡ plain_max
      → n < 2 ^ 16
      → (length (with_usage P c n) ≡ plain_max) × (usage P (with_usage P c n) ≡ n)
  unfolding TwoBytes
  usage-with_usage c n (two, back, _, _) len small =
      let head : length (take config_size c) ≡ 52 = omega (arith, length-take config_size c, len) in
      let tail = drop (config_size + 2) c in
      let whole : length (with_usage P c n) ≡ plain_max = omega (
        arith,
        length-append (take config_size c) (be16 n ++ tail),
        length-append (be16 n) tail,
        length-drop (config_size + 2) c,
        head,
        two n,
        len,
      ) in
      let at : drop config_size (with_usage P c n) ≡ be16 n ++ tail =
        drop-append (take config_size c) (be16 n ++ tail) 0 head in
      let same : (length (with_usage P c n) == plain_max) ≡ true = ground (arith, whole) in
      (
        whole,
        rw same (
            ap (λ l. get_be16 (take 2 l)) at
            ∙ ap get_be16 (take-append (be16 n) tail (two n))
            ∙ back n small),
      )

  length-padded : (c : List ℕ) → sized (length c) ≡ true → length (padded c) ≡ plain_max
  length-padded c h = ground (
    arith,
    length-append c (replicate (plain_max - length c) 0),
    length-replicate {A = ℕ} (plain_max - length c) 0,
  )

  -- The slot after a press, when the counter `n` was stored
  stored-usage :
      (fid n : ℕ) (c : List ℕ) (fs : Fs)
      → Ciphers P
      → TwoBytes P
      → Stores fid fs
      → sized (length c) ≡ true
      → n < 2 ^ 16
      → (c' : List ℕ) × (slot_load P fid
            (commit (slot_store P fid (with_usage P (padded c) n) fs).1)
          ≡ (success, c'))
        × (usage P c' ≡ n)
  unfolding Stores
  stored-usage fid n c fs ciphers two stores hs small =
      let new = with_usage P (padded c) n in
      let (len, used) = usage-with_usage (padded c) n two (length-padded c hs) small in
      let f1 = (slot_store P fid new fs).1 in
      (
        new,
        slot_load-same P fid f1 (commit f1) (contents-commit f1 fid)
            ∙ (slot_load-slot_store P fid new fs ciphers (stores new len)).1,
        used,
      )

  -- Until the usage counter is used up, a press of the button types the password of a block that
  -- carries the number of the Yubico OTP slot, and moves this number on by exactly one, also in what
  -- the flash then holds. Storing succeeds here, and the encryption and the byte order keep their
  -- promises.
  pub press_yubico_counts :
      (millis slot fid : ℕ) (c : List ℕ) (s : OtpOf P)
      → Ciphers P
      → TwoBytes P
      → Stores fid s.fs
      → slot_load P fid s.fs ≡ (success, c)
      → sized (length c) ≡ true
      → usage P c < 0x7fff
      → slot - 1 < length s.session_counter
      → get_or s.session_counter (slot - 1) 0 < 256
      → Types P c
          (number c (get_or s.session_counter (slot - 1) 0))
          s
          (press_yubico P millis slot fid c s)
        × ((c' : List ℕ) × (slot_load P fid (press_yubico P millis slot fid c s).fs ≡ (success, c'))
            × (number c' (get_or (press_yubico P millis slot fid c s).session_counter (slot - 1) 0)
                ≡ number c (get_or s.session_counter (slot - 1) 0) + 1))
  unfolding press_yubico number
  press_yubico_counts millis slot fid c s ciphers two stores load hs few in_range byte = (
    press_yubico-Types P millis slot fid c s two hs (current_small (usage P c) few),
    by_stored (Bool-cases (is_stored (usage P c) session)),
  )
    where
      session : ℕ
      session = get_or s.session_counter (slot - 1) 0

      -- The session counter after the press
      next : ℕ
      next = (session + 1) % 256

      shown : get_or (press_yubico P millis slot fid c s).session_counter (slot - 1) 0 ≡ next
      shown = get_or-set_self s.session_counter (slot - 1) next 0 in_range

      new : List ℕ
      new = with_usage P (padded c) (following (usage P c) session)

      by_stored :
          (is_stored (usage P c) session ≡ true) ⊎ (is_stored (usage P c) session ≡ false)
          → (c' : List ℕ) × (slot_load P fid (press_yubico P millis slot fid c s).fs
              ≡ (success, c'))
            × (number c' (get_or (press_yubico P millis slot fid c s).session_counter (slot - 1) 0)
                ≡ number c session + 1)
      by_stored (inl h) =
          let (small, step) = stored_step (usage P c) session few byte h in
          let (c', loaded, used) =
            stored-usage fid (following (usage P c) session) c s.fs ciphers two stores hs small in
          let files : (press_yubico P millis slot fid c s).fs
              ≡ commit (slot_store P fid new s.fs).1 =
            rw h refl in
          (
            c',
            ap (slot_load P fid) files ∙ loaded,
            ap (λ n. 256 * current (usage P c') + n) shown
                ∙ ap (λ n. 256 * current n + next) used
                ∙ step,
          )
      by_stored (inr h) =
          let files : (press_yubico P millis slot fid c s).fs ≡ s.fs = rw h refl in
          (
            c,
            ap (slot_load P fid) files ∙ load,
            ap (λ n. 256 * current (usage P c) + n)
                  (shown ∙ kept_step (usage P c) session few byte h)
                ∙ omega arith,
          )
