-- ===== src/Resident/Access.antt =====
-- Reading and deleting a container.
use fido_touch.Prelude.{
  ℕ, zero, suc, ◌+◌, Bool, true, false, not, Option, none, some, List, [], if◌then◌else◌,
}
use fido_touch.Platform.{Platform, Picokeys, success, null_param, file_not_found, other_error}
use fido_touch.Resident.{Manifest, Objects, manifest_fid, record_fid, ef_cred}
use fido_touch.Resident.Load.{
  object_type_valid, manifest_find, Loaded, loaded, not_loaded, manifest_load,
}
use fido_touch.Resident.Record.{is_marker, synced, unseal_object}
use fido_touch.Resident.Update.{drop_file}

module _ (P : Platform) (O : Objects) where
  open P use {Fs, exists, contents, delete, commit_sync, exec_error}
  open O use {Auth, Protector, authenticator, protector}

  abbrev pub size_in : ℕ → Loaded → Picokeys × ℕ
  size_in t (not_loaded r) = (r, 0)
  size_in t (loaded m place other) = elim (manifest_find m.objects t) [
    | none ↦ (file_not_found, 0)
    | some o ↦ (success, o.logical_size)
  ]

  abbrev pub size_with : ℕ → ℕ → Option Auth → Fs → Picokeys × ℕ
  size_with slot t none fs = (other_error exec_error, 0)
  size_with slot t (some auth) fs = size_in t (manifest_load P O slot (some auth) fs)

  -- `resident_container_object_size`
  unfoldable pub object_size : ℕ → ℕ → Fs → Picokeys × ℕ
  object_size slot t fs =
      if not (object_type_valid t) then (null_param, 0) else size_with slot t authenticator fs

  -- What one of the two tries leaves: the code so far, or that of the record
  abbrev pub try_object : Manifest → ℕ → Protector → ℕ → Fs → Picokeys × List ℕ → Picokeys × List ℕ
  try_object m t prot capacity fs before = elim (manifest_find m.objects t) [
    | none ↦ before
    | some o ↦ unseal_object P O m o prot capacity fs
  ]

  abbrev pub found : Manifest → ℕ → Bool
  found m t = elim (manifest_find m.objects t) [ none ↦ false | some o ↦ true ]

  abbrev pub read_other :
      Option Manifest → ℕ → Protector → ℕ → Fs → Picokeys × List ℕ → Picokeys × List ℕ
  read_other none t prot capacity fs before = before
  read_other (some n) t prot capacity fs before = try_object n t prot capacity fs before

  -- The manifest in use comes first, then the other one. Where neither has the object the code is that of
  -- the load, success, and nothing was read.
  abbrev pub read_next :
      Bool → Option Manifest → ℕ → Protector → ℕ → Fs → Picokeys × List ℕ → Picokeys × List ℕ
  read_next true other t prot capacity fs (success, d) = (success, d)
  read_next _ other t prot capacity fs r = read_other other t prot capacity fs r

  abbrev pub read_in : ℕ → Protector → ℕ → Fs → Loaded → Picokeys × List ℕ
  read_in t prot capacity fs (not_loaded r) = (r, [])
  read_in t prot capacity fs (loaded m place other) =
      read_next (found m t) other t prot capacity fs (try_object m t prot capacity fs (success, []))

  abbrev pub read_with : ℕ → ℕ → ℕ → Option Auth → Option Protector → Fs → Picokeys × List ℕ
  read_with slot t capacity (some auth) (some prot) fs =
      read_in t prot capacity fs (manifest_load P O slot (some auth) fs)
  read_with slot t capacity _ _ fs = (other_error exec_error, [])

  -- `resident_container_read` into a buffer of some capacity, with the bytes that were written
  unfoldable pub container_read : ℕ → ℕ → ℕ → Fs → Picokeys × List ℕ
  container_read slot t capacity fs =
      if not (object_type_valid t)
      then (null_param, [])
      else read_with slot t capacity authenticator protector fs

  unfoldable pub delete_records : ℕ → ℕ → ℕ → Fs → Fs
  delete_records slot place zero fs = fs
  delete_records slot place (suc t) fs =
      drop_file P O (record_fid slot place (suc t)) (delete_records slot place t fs)

  unfoldable pub delete_place : ℕ → ℕ → Fs → Fs
  delete_place slot place fs =
      drop_file P O (manifest_fid slot place) (delete_records slot place 4 fs)

  abbrev pub delete_loaded : ℕ → Loaded → Fs → Picokeys × Fs
  delete_loaded slot (loaded m place other) fs =
      synced P
        (commit_sync (delete (delete_place slot 1 (delete_place slot 0 fs)) (ef_cred + slot)))
  delete_loaded slot (not_loaded r) fs = (r, fs)

  -- `resident_container_delete`
  unfoldable pub container_delete : ℕ → Fs → Picokeys × Fs
  container_delete slot fs =
      if is_marker (ef_cred + slot) (contents fs (ef_cred + slot))
      then delete_loaded slot (manifest_load P O slot authenticator fs) fs
      else (file_not_found, fs)
