-- ===== src/Management/Tests.antt =====
-- A run of the configuration on files in memory.
use fido_touch.Prelude.{ℕ, ◌%◌, ◌≡◌, refl, true, false, List, [], ◌∷◌, ◌++◌, length, arith}
use fido_touch.Exec.{ok}
use fido_touch.Platform.{Platform, end}
use fido_touch.Platform.Memory.{memory, Files, read, write, walk}
use fido_touch.Management.{
  Manager, ok_sw, cap_supported, find_enabled, enabled_by, identity, man_get_config,
  cmd_write_config, cmd_write_config-man_get_config,
}
use fido_touch.Management.Cap

abbrev board : Platform
board = memory (λ b. end 0)

abbrev manager : Manager Files
manager = record { fs = []; keyboard = false }

-- OTP and OATH for USB
abbrev config : List ℕ
config = 3 ∷ (1 ∷ (0x21 ∷ []))

written : (cmd_write_config board true (3 ∷ config) manager).0 ≡ ok ok_sw
unfolding cmd_write_config cap_supported find_enabled enabled_by walk read write
written = refl

cmd_write_config-man_get_config_example :
    (true ≡ true)
    × (man_get_config board (cmd_write_config board true (3 ∷ config) manager).1.fs
        ≡ length (identity board ++ config) % 256 ∷ (identity board ++ config))
    × ((cap : ℕ)
        → cap_supported board cap (cmd_write_config board true (3 ∷ config) manager).1.fs
          ≡ find_enabled board cap (walk config))
    × (cap_supported board Cap.otp (cmd_write_config board true (3 ∷ config) manager).1.fs
        ≡ ok (cmd_write_config board true (3 ∷ config) manager).1.keyboard)
cmd_write_config-man_get_config_example =
    cmd_write_config-man_get_config board true 3 config manager (λ s. refl) (omega arith) written
