-- ===== src/Management.antt =====
-- src/fido/management.c: the configuration of the device, and what it switches off.
pub mod Cap
pub mod Tag
pub mod Tests
use fido_touch.Prelude.{
  ℕ, ◌+◌, ◌-◌, ◌/◌, ◌%◌, ◌≡◌, ◌≢◌, refl, ap, ◌∙◌, Bool, true, false, not, List, [], ◌∷◌, ◌++◌,
  length, take, drop, get_or, ◌==◌, ==_iff, bit_and, bit_or, has_bits, if◌then◌else◌, arith,
}
use fido_touch.Exec.{Exec, Result, ok, err, fault}
use fido_touch.Platform.{Platform, success}
use fido_touch.Ctap.Ef

-- PICO_FIDO_VERSION_MAJOR and PICO_FIDO_VERSION_MINOR of src/fido/version.h
abbrev pub version_major : ℕ
version_major = 7

abbrev pub version_minor : ℕ
version_minor = 6

-- The status words that the commands answer
pub data Sw : Type 0 where
  ok_sw wrong_data conditions_not_satisfied cla_not_supported ins_not_supported : Sw

-- The flash, and whether the keyboard is among the interfaces that are enabled
pub record Manager (F : Type 0) : Type 0 where
  pub fs : F
  pub keyboard : Bool

abbrev openpgp_aid : List ℕ
openpgp_aid = 0xd2 ∷ (0x76 ∷ (0x00 ∷ (0x01 ∷ (0x24 ∷ (0x01 ∷ [])))))

abbrev piv_aid : List ℕ
piv_aid = 0xa0 ∷ (0x00 ∷ (0x00 ∷ (0x03 ∷ (0x08 ∷ []))))

abbrev two_bytes : ℕ → List ℕ
two_bytes n = n / 256 ∷ (n % 256 ∷ [])

-- The bit of `cap`, if the test of it holds
abbrev cap_bit : Result Bool → ℕ → ℕ
cap_bit (ok true) cap = cap
cap_bit _ cap = 0

module _ (P : Platform) where
  open P use {
    Fs, contents, put, create, commit, walk, get_be16, serial, app_exists, contents-commit,
    contents-put,
  }

  -- `ecaps & cap`; of an empty value the byte behind it is read.
  unfoldable pub enabled_by : ℕ → List ℕ → Result Bool
  enabled_by cap [] = fault
  enabled_by cap (a ∷ b ∷ []) = ok (has_bits (get_be16 (a ∷ (b ∷ []))) cap)
  enabled_by cap (a ∷ _) = ok (has_bits a cap)

  -- The first entry for USB decides.
  unfoldable pub find_enabled : ℕ → List (ℕ × List ℕ) → Result Bool
  unfolding enabled_by
  find_enabled cap [] = ok true
  find_enabled cap ((tag, v) ∷ rest) =
      let later = find_enabled cap rest in
      if tag == Tag.usb_enabled then enabled_by cap v else later

  -- `cap_supported`
  unfoldable pub cap_supported : ℕ → Fs → Result Bool
  unfolding find_enabled
  cap_supported cap fs =
      if length (contents fs Ef.dev_conf) == 0
      then ok true
      else find_enabled cap (walk (contents fs Ef.dev_conf))

  abbrev supported_caps : ℕ
  supported_caps =
      Cap.fido2
      + Cap.otp
      + Cap.u2f
      + Cap.oath
      + (if app_exists openpgp_aid then Cap.openpgp else 0)
      + (if app_exists piv_aid then Cap.piv else 0)

  abbrev enabled_caps : Fs → ℕ
  enabled_caps fs =
      cap_bit (cap_supported Cap.fido2 fs) Cap.fido2
      + cap_bit (cap_supported Cap.otp fs) Cap.otp
      + cap_bit (cap_supported Cap.u2f fs) Cap.u2f
      + cap_bit (cap_supported Cap.oath fs) Cap.oath
      + cap_bit (cap_supported Cap.openpgp fs) Cap.openpgp
      + cap_bit (cap_supported Cap.piv fs) Cap.piv

  -- What `man_get_config` says of every device
  unfoldable pub identity : List ℕ
  identity =
      Tag.usb_supported
      ∷ (2
          ∷ (two_bytes supported_caps
              ++ (Tag.serial
                  ∷ (4
                      ∷ (bit_and (get_or serial 0 0) 0x03
                          ∷ (take 3 (drop 1 serial)
                              ++ (Tag.form_factor
                                  ∷ (1
                                      ∷ (1
                                          ∷ (Tag.version
                                              ∷ (3
                                                  ∷ (version_major
                                                      ∷ (version_minor ∷ (0 ∷ []))))))))))))))

  -- The configuration while none is stored
  unfoldable pub default_config : Fs → List ℕ
  unfolding cap_supported
  default_config fs =
      Tag.usb_enabled
      ∷ (2
          ∷ (two_bytes (enabled_caps fs)
              ++ (Tag.device_flags ∷ (1 ∷ (0x80 ∷ (Tag.config_lock ∷ (1 ∷ (0 ∷ []))))))))

  -- `man_get_config`
  unfoldable pub man_get_config : Fs → List ℕ
  unfolding identity default_config
  man_get_config fs =
      let body =
        identity
        ++ (if length (contents fs Ef.dev_conf) == 0
            then default_config fs
            else contents fs Ef.dev_conf) in
      length body % 256 ∷ body

  -- The keyboard follows the OTP application.
  abbrev follow_otp : Result Bool → Exec (Manager Fs) Sw
  follow_otp (ok b) m = (ok ok_sw, record m { keyboard = b })
  follow_otp (err e) m = (err e, m)
  follow_otp fault m = (fault, m)

  -- `cmd_write_config`, with the answer of `check_user_presence`
  unfoldable pub cmd_write_config : Bool → List ℕ → Exec (Manager Fs) Sw
  unfolding cap_supported
  cmd_write_config present [] m = (ok wrong_data, m)
  cmd_write_config present (n ∷ rest) m =
      let fs = commit (put (create m.fs Ef.dev_conf).1 Ef.dev_conf rest).1 in
      if n == length rest
      then (if present
          then follow_otp (cap_supported Cap.otp fs) (record m { fs = fs })
          else (ok conditions_not_satisfied, m))
      else (ok wrong_data, m)

  cap_supported-stored :
      (cap : ℕ) (fs : Fs) (config : List ℕ)
      → contents fs Ef.dev_conf ≡ config
      → length config ≢ 0
      → cap_supported cap fs ≡ find_enabled cap (walk config)
  unfolding cap_supported
  cap_supported-stored cap fs config h ne = ground (arith, h)

  man_get_config-stored :
      (fs : Fs) (config : List ℕ)
      → contents fs Ef.dev_conf ≡ config
      → length config ≢ 0
      → man_get_config fs ≡ length (identity ++ config) % 256 ∷ (identity ++ config)
  unfolding man_get_config
  man_get_config-stored fs config h ne = ground (arith, h)

  -- A configuration that is written is the one that the device then reports, behind what it says of
  -- every device, and by which its applications are switched; the user was present. This is for a flash
  -- that takes the write, and a configuration that is not empty.
  pub cmd_write_config-man_get_config :
      (present : Bool) (n : ℕ) (config : List ℕ) (m : Manager Fs)
      → ((s : Fs) → (put s Ef.dev_conf config).0 ≡ success)
      → length config ≢ 0
      → (cmd_write_config present (n ∷ config) m).0 ≡ ok ok_sw
      → (present ≡ true)
        × (man_get_config (cmd_write_config present (n ∷ config) m).1.fs
            ≡ length (identity ++ config) % 256 ∷ (identity ++ config))
        × ((cap : ℕ)
            → cap_supported cap (cmd_write_config present (n ∷ config) m).1.fs
              ≡ find_enabled cap (walk config))
        × (cap_supported Cap.otp (cmd_write_config present (n ∷ config) m).1.fs
            ≡ ok (cmd_write_config present (n ∷ config) m).1.keyboard)
  unfolding cmd_write_config
  cmd_write_config-man_get_config present n config m hp ne h =
      let fs = commit (put (create m.fs Ef.dev_conf).1 Ef.dev_conf config).1 in
      let stored : contents fs Ef.dev_conf ≡ config = ground (
        arith,
        contents-commit (put (create m.fs Ef.dev_conf).1 Ef.dev_conf config).1 Ef.dev_conf,
        contents-put (create m.fs Ef.dev_conf).1 Ef.dev_conf config,
        hp (create m.fs Ef.dev_conf).1,
      ) in
      let same : (cmd_write_config present (n ∷ config) m).1.fs ≡ fs = ground arith in
      (
        ground arith,
        ap man_get_config same ∙ man_get_config-stored fs config stored ne,
        λ cap. ap (cap_supported cap) same ∙ cap_supported-stored cap fs config stored ne,
        ground (arith, same),
      )
