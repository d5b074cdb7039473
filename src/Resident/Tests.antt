-- ===== src/Resident/Tests.antt =====
-- Runs of a container on files in memory, with an object store that takes every manifest for one and
-- adds a header and a tag of no bytes to a record.
use fido_touch.Prelude.{
  ℕ, ◌+◌, ◌≤◌, ◌<◌, ◌≡◌, inl, inr, refl, true, none, some, [], ◌∷◌, eq_bytes, arith,
}
use fido_touch.Platform.{Platform, success, file_not_found, end}
use fido_touch.Platform.Memory.{memory, Files, read, write, has}
use fido_touch.Resident.{
  Descriptor, Manifest, Objects, record_fid, ef_cred, fido_namespace, resident_kind, no_object,
}
use fido_touch.Resident.Load.{
  valid, loaded, not_loaded, parse_slot, manifest_load, objects_valid, record_id_valid,
  object_type_valid, has_type, choose, storage_present,
}
use fido_touch.Resident.Record.{Write, is_marker, marker_bytes}
use fido_touch.Resident.Update.{container_update, write_objects}
use fido_touch.Resident.Update.Frame.{IsOutside}
use fido_touch.Resident.Access.{container_delete, delete_place, delete_records}
use fido_touch.Resident.Frame.{container_update_ne}
use fido_touch.Resident.Keeps.{Spares, InPlace, InPlace-Spares, Agree, write_objects-parse_slot}
use fido_touch.Resident.Newest.{at_place, is_valid, manifest_load-newest}
use fido_touch.Resident.Deletion.{container_delete-manifest_load}

abbrev board : Platform
board = memory (λ b. end 0)

-- The hash of the relying party, in the first place
abbrev rp_hash : Descriptor
rp_hash = record no_object { object_type = 1; generation = 1; logical_size = 2; record_id = 0xd305 }

abbrev one_object : Manifest
one_object = record {
  namespace_id = fido_namespace;
  container_kind = resident_kind;
  container_id = 5;
  generation = 1;
  previous_generation = 0;
  extension_size = 0;
  objects = rp_hash ∷ [];
  has_object = true;
  object = rp_hash;
}

abbrev store : Objects
store = record {
  Auth = ℕ;
  Protector = ℕ;
  authenticator = some 0;
  protector = some 0;
  max_objects = 8;
  record_header_size = 0;
  auth_tag_size = 0;
  flag_inline = 1;
  flag_mutable = 2;
  flag_non_exportable = 4;
  authenticated_public = 1;
  aead_secret = 2;
  policy_hash = (success, []);
  parse = λ d a. (success, one_object);
  build = λ m a. (success, 1 ∷ []);
  header_parse = λ d o. success;
  seal = λ m h p d. (success, d);
  unseal = λ m h p d n. (success, d);
}

abbrev files : Files
files =
    (0xd105, 1 ∷ [])
    ∷ ((0xd305, 7 ∷ (7 ∷ [])) ∷ ((0xcf05, marker_bytes 5) ∷ ((0xd005, 9 ∷ []) ∷ [])))

abbrev new_credential : Write
new_credential = record { object_type = 3; bytes = 4 ∷ (4 ∷ []); protection = 2; flags = 6 }

rps-IsOutside : IsOutside 5 0xd005
unfolding IsOutside
rps-IsOutside p (inl e) h = absurd (omega (arith, e, h))
rps-IsOutside p (inr (lo, hi)) h = absurd (omega (arith, lo, hi, h))

container_update_ne_example :
    board.contents (container_update board store 5 (new_credential ∷ []) files).1 0xd005
    ≡ board.contents files 0xd005
container_update_ne_example =
    container_update_ne board store 5 0xd005 (new_credential ∷ []) files rps-IsOutside

in_use : parse_slot board store 5 0 (some 0) files ≡ valid one_object
unfolding parse_slot objects_valid record_id_valid object_type_valid has_type read
in_use = refl

beside : Spares board store 5 1 (new_credential ∷ []) one_object.objects
unfolding InPlace object_type_valid
beside =
    InPlace-Spares board store 5 0 (new_credential ∷ []) one_object.objects ((1, refl, refl), tt)

write_objects-parse_slot_example :
    (parse_slot board store 5 0
        (some 0)
        (write_objects board store 5 1 0 [] (new_credential ∷ []) one_object files).2
      ≡ valid one_object)
    × Agree board store files
        (write_objects board store 5 1 0 [] (new_credential ∷ []) one_object files).2
        one_object.objects
write_objects-parse_slot_example =
    write_objects-parse_slot board store 5 0 1 (some 0) 0 (new_credential ∷ []) one_object
      one_object files in_use beside

only_one : manifest_load board store 5 (some 0) files ≡ loaded one_object 0 none
unfolding manifest_load choose storage_present parse_slot objects_valid record_id_valid
    object_type_valid has_type read
only_one = refl

manifest_load-newest_example :
    (at_place 0
        (parse_slot board store 5 0 (some 0) files)
        (parse_slot board store 5 1 (some 0) files)
      ≡ valid one_object)
    × (is_valid (
          at_place 1
            (parse_slot board store 5 0 (some 0) files)
            (parse_slot board store 5 1 (some 0) files))
        ≡ none)
    × ((n : Manifest) → none ≡ some n → n.generation < 1)
manifest_load-newest_example =
    manifest_load-newest board store 5 0 (some 0) files one_object none only_one

deleted : (container_delete board store 5 files).0 ≡ success
unfolding container_delete delete_place delete_records is_marker eq_bytes manifest_load choose
    storage_present parse_slot objects_valid record_id_valid object_type_valid has_type read write
    has
deleted = refl

container_delete-manifest_load_example :
    (manifest_load board store 5 (some 0) (container_delete board store 5 files).1
      ≡ not_loaded file_not_found)
    × (board.contents (container_delete board store 5 files).1 (ef_cred + 5) ≡ [])
    × ((t : ℕ)
        → 1 ≤ t
        → t ≤ 4
        → (board.contents (container_delete board store 5 files).1 (record_fid 5 0 t) ≡ [])
          × (board.contents (container_delete board store 5 files).1 (record_fid 5 1 t) ≡ []))
container_delete-manifest_load_example =
    container_delete-manifest_load board store 5 (some 0) files deleted
