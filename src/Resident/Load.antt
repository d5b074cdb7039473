-- ===== src/Resident/Load.antt =====
-- Reading the manifests of a container.
use fido_touch.Prelude.{
  ℕ, Bool, true, false, not, ◌&&◌, ◌||◌, Option, none, some, List, [], ◌∷◌, length, leb, ltb, ◌==◌,
  if◌then◌else◌,
}
use fido_touch.Platform.{
  Platform, Picokeys, success, file_not_found, wrong_data, wrong_signature, is_success,
}
use fido_touch.Resident.{
  Descriptor, Manifest, Objects, fido_namespace, resident_kind, manifest_fid, record_fid,
}

-- `resident_object_type_valid`
unfoldable pub object_type_valid : ℕ → Bool
object_type_valid t = leb 1 t && leb t 4

-- `resident_record_id_valid`
unfoldable pub record_id_valid : ℕ → Descriptor → Bool
record_id_valid slot o =
    object_type_valid o.object_type
    && leb o.record_id 0xffff
    && (o.record_id == record_fid slot 0 o.object_type
        || o.record_id == record_fid slot 1 o.object_type)

-- `resident_manifest_find`
unfoldable pub manifest_find : List Descriptor → ℕ → Option Descriptor
manifest_find [] t = none
manifest_find (o ∷ os) t =
    let later = manifest_find os t in
    if o.object_type == t && o.object_tag == 0 then some o else later

-- `resident_manifest_references_fid`
unfoldable pub references_fid : List Descriptor → ℕ → Bool
references_fid [] fid = false
references_fid (o ∷ os) fid = o.record_id == fid || references_fid os fid

unfoldable pub has_type : List Descriptor → ℕ → Bool
has_type [] t = false
has_type (o ∷ os) t = o.object_type == t || has_type os t

-- A place for a manifest as it was read: a valid manifest, or the code of its refusal
pub data Candidate : Type 0 where
  valid : Manifest → Candidate
  invalid : Picokeys → Candidate

-- The manifest in use with its place, and the one in the other place if that is valid; or a code
pub data Loaded : Type 0 where
  loaded : Manifest → ℕ → Option Manifest → Loaded
  not_loaded : Picokeys → Loaded

-- The codes after which the other place is tried
abbrev pub is_soft : Picokeys → Bool
is_soft file_not_found = true
is_soft wrong_data = true
is_soft wrong_signature = true
is_soft _ = false

-- The end of `resident_manifest_load`, with whether there is a manifest file with data
unfoldable pub choose : Bool → Candidate → Candidate → Loaded
choose present (valid m) (valid n) =
    if m.generation == n.generation
    then not_loaded wrong_data
    else if ltb m.generation n.generation
    then loaded n 1 (some m)
    else loaded m 0 (some n)
choose present (valid m) (invalid r) = if is_soft r then loaded m 0 none else not_loaded r
choose present (invalid r) (valid n) = if is_soft r then loaded n 1 none else not_loaded r
choose present (invalid r) (invalid q) =
    if not (is_soft r)
    then not_loaded r
    else if not (is_soft q)
    then not_loaded q
    else not_loaded (if present then wrong_data else file_not_found)

module _ (P : Platform) (O : Objects) where
  open P use {Fs, contents}
  open O use {Auth, parse, header_parse}

  -- The loop of `resident_manifest_parse_slot`; `seen` are the objects before.
  unfoldable pub objects_valid : ℕ → Fs → List Descriptor → List Descriptor → Bool
  objects_valid slot fs seen [] = true
  objects_valid slot fs seen (o ∷ os) =
      record_id_valid slot o
      && not (has_type seen o.object_type)
      && not (length (contents fs o.record_id) == 0)
      && is_success (header_parse (contents fs o.record_id) o)
      && objects_valid slot fs (o ∷ seen) os

  abbrev pub parsed : ℕ → Fs → Picokeys × Manifest → Candidate
  parsed slot fs (success, m) =
      if m.namespace_id == fido_namespace
        && m.container_kind == resident_kind
        && m.container_id == slot
        && not (length m.objects == 0)
        && objects_valid slot fs [] m.objects
      then valid m
      else invalid wrong_data
  parsed slot fs (r, m) = invalid r

  -- `resident_manifest_parse_slot`
  unfoldable pub parse_slot : ℕ → ℕ → Option Auth → Fs → Candidate
  parse_slot slot manifest_slot auth fs =
      let d = contents fs (manifest_fid slot manifest_slot) in
      if length d == 0 then invalid file_not_found else parsed slot fs (parse d auth)

  unfoldable pub storage_present : ℕ → Fs → Bool
  storage_present slot fs =
      not (length (contents fs (manifest_fid slot 0)) == 0)
      || not (length (contents fs (manifest_fid slot 1)) == 0)

  -- `resident_manifest_load`
  unfoldable pub manifest_load : ℕ → Option Auth → Fs → Loaded
  manifest_load slot auth fs =
      choose (storage_present slot fs) (parse_slot slot 0 auth fs) (parse_slot slot 1 auth fs)
