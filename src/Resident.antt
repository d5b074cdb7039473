-- ===== src/Resident.antt =====
-- src/fido/resident_container.c: a resident credential as a container of four objects, each in a record
-- file, with a manifest that names the records. There are two places for a manifest and two for each
-- record, so that an update writes beside what it replaces.
pub mod Load
pub mod Record
pub mod Update
pub mod Access
pub mod Frame
pub mod Keeps
pub mod Newest
pub mod Deletion
pub mod Tests
use fido_touch.Prelude.{
  ℕ, ◌+◌, ◌-◌, ◌*◌, ◌≤◌, ◌≡◌, Bool, true, false, Option, List, length, ◌==◌, if◌then◌else◌,
}
use fido_touch.Platform.{Picokeys, success, file_not_found, wrong_data, wrong_signature}

-- `file_object_descriptor_t`
pub record Descriptor : Type 0 where
  pub object_type : ℕ
  pub object_tag : ℕ
  pub generation : ℕ
  pub logical_size : ℕ
  pub record_id : ℕ
  pub stored_size : ℕ
  pub policy_id : ℕ
  pub key_domain : ℕ
  pub protection : ℕ
  pub flags : ℕ

-- `file_object_manifest_t`; the number of objects is the length of the list.
pub record Manifest : Type 0 where
  pub namespace_id : ℕ
  pub container_kind : ℕ
  pub container_id : ℕ
  pub generation : ℕ
  pub previous_generation : ℕ
  pub extension_size : ℕ
  pub objects : List Descriptor
  pub has_object : Bool
  pub object : Descriptor

abbrev pub no_object : Descriptor
no_object = record {
  object_type = 0;
  object_tag = 0;
  generation = 0;
  logical_size = 0;
  record_id = 0;
  stored_size = 0;
  policy_id = 0;
  key_domain = 0;
  protection = 0;
  flags = 0;
}

-- The object store of pico-keys-sdk, which is not in this repository: its constants, the manifest as
-- bytes, the records, and the keys, which may be missing.
pub record Objects : Type 1 where
  pub Auth : Type 0
  pub Protector : Type 0
  pub authenticator : Option Auth
  pub protector : Option Protector
  pub max_objects : ℕ
  pub record_header_size : ℕ
  pub auth_tag_size : ℕ
  pub flag_inline : ℕ
  pub flag_mutable : ℕ
  pub flag_non_exportable : ℕ
  pub authenticated_public : ℕ
  pub aead_secret : ℕ
  -- file_object_policy_hash of the policy of the file
  pub policy_hash : Picokeys × List ℕ
  -- file_object_manifest_parse, which may be given no authenticator, and file_object_manifest_build
  pub parse : List ℕ → Option Auth → Picokeys × Manifest
  pub build : Manifest → Auth → Picokeys × List ℕ
  -- file_object_record_header_parse, for its code
  pub header_parse : List ℕ → Descriptor → Picokeys
  -- file_object_record_seal, and file_object_record_unseal into a buffer of some capacity
  pub seal : Manifest → List ℕ → Protector → List ℕ → Picokeys × List ℕ
  pub unseal : Manifest → List ℕ → Protector → List ℕ → ℕ → Picokeys × List ℕ

-- FIDO_OBJECT_NAMESPACE, FIDO_RESIDENT_CONTAINER_KIND and FIDO_RESIDENT_POLICY_ID
abbrev pub fido_namespace : ℕ
fido_namespace = 0x0002

abbrev pub resident_kind : ℕ
resident_kind = 0x0001

abbrev pub resident_policy_id : ℕ
resident_policy_id = 0x0200

-- FIDO_RESIDENT_OBJECT_RP_ID_HASH, _CLIENT_ID, _CREDENTIAL and _PUBLIC_KEY
abbrev pub rp_id_hash_object : ℕ
rp_id_hash_object = 1

abbrev pub client_id_object : ℕ
client_id_object = 2

abbrev pub credential_object : ℕ
credential_object = 3

abbrev pub public_key_object : ℕ
public_key_object = 4

-- EF_CRED
abbrev pub ef_cred : ℕ
ef_cred = 0xcf00

-- `resident_manifest_fid`
abbrev pub manifest_fid : ℕ → ℕ → ℕ
manifest_fid slot manifest_slot = (if manifest_slot == 0 then 0xd1 else 0xd2) * 256 + slot

-- `resident_record_fid`
abbrev pub record_fid : ℕ → ℕ → ℕ → ℕ
record_fid slot manifest_slot object_type =
    ((if manifest_slot == 0 then 0xd3 else 0xd7) + object_type - 1) * 256 + slot
