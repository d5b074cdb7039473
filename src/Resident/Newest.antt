-- ===== src/Resident/Newest.antt =====
-- Which of two manifests is in use.
use fido_touch.Prelude.{ℕ, ◌<◌, ◌≡◌, Bool, Option, none, some, ◌==◌, if◌then◌else◌, arith}
use fido_touch.Platform.{Platform}
use fido_touch.Resident.{Manifest, Objects}
use fido_touch.Resident.Load.{
  Candidate, valid, invalid, loaded, choose, parse_slot, manifest_load, storage_present,
}
use fido_touch.Resident.Update.{other_place}

abbrev pub at_place : ℕ → Candidate → Candidate → Candidate
at_place place a b = if place == 0 then a else b

abbrev pub is_valid : Candidate → Option Manifest
is_valid (valid m) = some m
is_valid (invalid r) = none

choose_lem :
    (present : Bool) (a b : Candidate) (m : Manifest) (place : ℕ) (other : Option Manifest)
    → choose present a b ≡ loaded m place other
    → (at_place place a b ≡ valid m)
      × (is_valid (at_place (other_place place) a b) ≡ other)
      × ((n : Manifest) → other ≡ some n → n.generation < m.generation)
unfolding choose
choose_lem present (valid x) (valid y) m place other h =
    (ground (arith, h), ground (arith, h), λ n e. ground (arith, h, e))
choose_lem present (valid x) (invalid r) m place other h =
    (ground (arith, h), ground (arith, h), λ n e. ground (arith, h, e))
choose_lem present (invalid r) (valid y) m place other h =
    (ground (arith, h), ground (arith, h), λ n e. ground (arith, h, e))
choose_lem present (invalid r) (invalid q) m place other h =
    (ground (arith, h), ground (arith, h), λ n e. ground (arith, h, e))

module _ (P : Platform) (O : Objects) where
  open P use {Fs}
  open O use {Auth}

  -- The manifest that is loaded is valid in its place; the other one is given with it exactly if it is
  -- valid too, and then it is older.
  pub manifest_load-newest :
      (slot place : ℕ) (auth : Option Auth) (fs : Fs) (m : Manifest) (other : Option Manifest)
      → manifest_load P O slot auth fs ≡ loaded m place other
      → (at_place place (parse_slot P O slot 0 auth fs) (parse_slot P O slot 1 auth fs) ≡ valid m)
        × (is_valid (
              at_place
                (other_place place)
                (parse_slot P O slot 0 auth fs)
                (parse_slot P O slot 1 auth fs))
            ≡ other)
        × ((n : Manifest) → other ≡ some n → n.generation < m.generation)
  unfolding manifest_load
  manifest_load-newest slot place auth fs m other h =
      choose_lem (storage_present P O slot fs) (parse_slot P O slot 0 auth fs)
        (parse_slot P O slot 1 auth fs) m place other h
