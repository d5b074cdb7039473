-- ===== src/Resident/Record.antt =====
-- The records of a container, and the marker that stands where an older credential would.
use fido_touch.Prelude.{
  ℕ, ◌+◌, ◌-◌, ◌^◌, ◌%◌, Bool, true, false, ◌&&◌, List, [], ◌∷◌, length, take, get_or, ltb, ◌==◌,
  eq_bytes, if◌then◌else◌,
}
use fido_touch.Platform.{
  Platform, Picokeys, success, no_memory, wrong_length, file_not_found, other_error,
}
use fido_touch.Resident.{
  Descriptor, Manifest, Objects, fido_namespace, resident_kind, resident_policy_id, record_fid,
  ef_cred,
}

-- `resident_container_write_t`; a missing pointer is not modelled.
pub record Write : Type 0 where
  pub object_type : ℕ
  pub bytes : List ℕ
  pub protection : ℕ
  pub flags : ℕ

-- "PKF1", the format and the number of the container
abbrev pub marker_bytes : ℕ → List ℕ
marker_bytes slot = 0x50 ∷ (0x4b ∷ (0x46 ∷ (0x31 ∷ (1 ∷ (slot ∷ (0 ∷ (0 ∷ [])))))))

-- `resident_container_is_marker`
unfoldable pub is_marker : ℕ → List ℕ → Bool
is_marker fid d =
    length d == 8
    && eq_bytes (take 4 d) (take 4 (marker_bytes 0))
    && get_or d 4 0 == 1
    && get_or d 5 0 == fid % 256
    && get_or d 6 0 == 0
    && get_or d 7 0 == 0

module _ (P : Platform) where
  open P use {Fs, exists, contents, put, create, delete, commit_sync, memory_fatal}

  abbrev pub put_new : ℕ → List ℕ → Bool × Fs → Picokeys × Fs
  put_new fid d (true, fs) = put fs fid d
  put_new fid d (false, fs) = (no_memory, fs)

  -- `resident_replace_file`; that a file cannot be deleted is not modelled.
  unfoldable pub replace_file : ℕ → List ℕ → Fs → Picokeys × Fs
  replace_file fid d fs = put_new fid d (create (if exists fs fid then delete fs fid else fs) fid)

  -- `flash_commit_sync(...) ? PICOKEYS_OK : PICOKEYS_ERR_MEMORY_FATAL`
  abbrev pub synced : Bool × Fs → Picokeys × Fs
  synced (true, fs) = (success, fs)
  synced (false, fs) = (other_error memory_fatal, fs)

  abbrev pub and_then : Picokeys × Fs → (Fs → Picokeys × Fs) → Picokeys × Fs
  and_then (success, fs) rest = rest fs
  and_then (r, fs) rest = (r, fs)

  -- `resident_marker_write`
  unfoldable pub marker_write : ℕ → Fs → Picokeys × Fs
  marker_write slot fs =
      and_then (replace_file (ef_cred + slot) (marker_bytes slot) fs) (λ f. synced (commit_sync f))

module _ (P : Platform) (O : Objects) where
  open P use {Fs, contents}
  open O use {Protector, record_header_size, auth_tag_size, policy_hash, seal, unseal}

  -- The descriptor of a record that is written
  unfoldable pub descriptor_of : ℕ → ℕ → Write → ℕ → Descriptor
  descriptor_of slot manifest_slot w object_generation = record {
    object_type = w.object_type;
    object_tag = 0;
    generation = object_generation;
    logical_size = length w.bytes;
    record_id = record_fid slot manifest_slot w.object_type;
    stored_size = length w.bytes;
    policy_id = resident_policy_id;
    key_domain = 0;
    protection = w.protection;
    flags = w.flags;
  }

  abbrev pub record_manifest : ℕ → ℕ → Descriptor → Manifest
  record_manifest slot container_generation o = record {
    namespace_id = fido_namespace;
    container_kind = resident_kind;
    container_id = slot;
    generation = container_generation;
    previous_generation = container_generation - 1;
    extension_size = 0;
    objects = [];
    has_object = true;
    object = o;
  }

  abbrev pub written : ℕ → ℕ → Picokeys × List ℕ → Fs → Picokeys × Fs
  written fid size (success, d) fs =
      if length d == size then replace_file P fid d fs else (wrong_length, fs)
  written fid size (r, d) fs = (r, fs)

  abbrev pub with_hash : Picokeys × List ℕ → (List ℕ → Picokeys × Fs) → Fs → Picokeys × Fs
  with_hash (success, hash) rest fs = rest hash
  with_hash (r, hash) rest fs = (r, fs)

  -- The size of a record with its header and its tag
  abbrev pub record_size : List ℕ → ℕ
  record_size d = record_header_size + length d + auth_tag_size

  abbrev pub sealed_under : ℕ → ℕ → Write → ℕ → ℕ → Protector → Fs → List ℕ → Picokeys × List ℕ
  sealed_under slot manifest_slot w object_generation container_generation prot fs hash =
      seal
        (record_manifest slot container_generation
          (descriptor_of slot manifest_slot w object_generation))
        hash prot w.bytes

  abbrev pub write_under : ℕ → ℕ → Write → ℕ → ℕ → Protector → Fs → List ℕ → Picokeys × Fs
  write_under slot manifest_slot w object_generation container_generation prot fs hash =
      if ltb (2 ^ 32 - 1 - record_header_size - auth_tag_size) (length w.bytes)
      then (wrong_length, fs)
      else written (record_fid slot manifest_slot w.object_type) (record_size w.bytes)
          (sealed_under slot manifest_slot w object_generation container_generation prot fs hash) fs

  -- `resident_record_write`
  unfoldable pub record_write : ℕ → ℕ → Write → ℕ → ℕ → Protector → Fs → Picokeys × Fs
  record_write slot manifest_slot w object_generation container_generation prot fs =
      with_hash policy_hash
        (write_under slot manifest_slot w object_generation container_generation prot fs) fs

  abbrev pub opened_with : Picokeys × List ℕ → (List ℕ → Picokeys × List ℕ) → Picokeys × List ℕ
  opened_with (success, hash) rest = rest hash
  opened_with (r, hash) rest = (r, [])

  -- `resident_unseal`: the code, and the bytes that were written
  unfoldable pub unseal_object : Manifest → Descriptor → Protector → ℕ → Fs → Picokeys × List ℕ
  unseal_object m o prot capacity fs =
      let d = contents fs (o.record_id % 2 ^ 16) in
      opened_with policy_hash (λ hash.
        if length d == 0
        then (file_not_found, [])
        else unseal (record m { objects = take 1 m.objects; has_object = true; object = o }) hash
            prot d capacity)

  abbrev pub validated : ℕ → Picokeys × List ℕ → Picokeys
  validated size (success, d) = if length d == size then success else wrong_length
  validated size (r, d) = r

  abbrev pub both : Picokeys → Picokeys → Picokeys
  both success r = r
  both r _ = r

  -- `resident_manifest_validate`
  unfoldable pub objects_validate : Manifest → List Descriptor → Protector → Fs → Picokeys
  objects_validate m [] prot fs = success
  objects_validate m (o ∷ os) prot fs =
      both (validated o.logical_size (unseal_object m o prot o.logical_size fs))
        (objects_validate m os prot fs)

  abbrev pub manifest_validate : Manifest → Protector → Fs → Picokeys
  manifest_validate m prot fs = objects_validate m m.objects prot fs
