-- ===== src/Resident/Update.antt =====
-- Creating and updating a container.
pub mod Frame
use fido_touch.Prelude.{
  ℕ, zero, suc, ◌+◌, ◌-◌, ◌^◌, ◌≡◌, refl, Bool, true, false, not, ◌&&◌, ◌||◌, Option, none, some,
  List, [], ◌∷◌, ◌++◌, length, take, leb, ltb, ◌==◌, eq_bytes, bit_or, has_bits, if◌then◌else◌,
}
use fido_touch.Platform.{
  Platform, Picokeys, success, null_param, no_memory, wrong_data, file_not_found, other_error,
  is_success,
}
use fido_touch.Resident.{
  Descriptor, Manifest, Objects, fido_namespace, resident_kind, manifest_fid, record_fid, ef_cred,
  no_object, rp_id_hash_object, client_id_object, credential_object, public_key_object,
}
use fido_touch.Resident.Load.{
  object_type_valid, manifest_find, references_fid, Loaded, loaded, not_loaded, manifest_load,
}
use fido_touch.Resident.Record.{
  Write, is_marker, replace_file, synced, and_then, marker_write, descriptor_of, record_write,
  manifest_validate,
}

-- UINT32_MAX
abbrev pub uint32_max : ℕ
uint32_max = 2 ^ 32 - 1

-- The first object of the type gives way.
unfoldable pub replace_object : Descriptor → List Descriptor → List Descriptor
replace_object new [] = []
replace_object new (o ∷ os) =
    let rest = replace_object new os in
    if o.object_type == new.object_type && o.object_tag == 0 then new ∷ os else o ∷ rest

unfoldable pub written_before : List ℕ → ℕ → Bool
written_before [] t = false
written_before (u ∷ us) t = u == t || written_before us t

-- The generation of an object that is written, unless the last one is used up
abbrev pub next_generation : Option Descriptor → Option ℕ
next_generation none = some 1
next_generation (some o) = if o.generation == uint32_max then none else some (o.generation + 1)

-- The other place
abbrev pub other_place : ℕ → ℕ
other_place place = if place == 0 then 1 else 0

-- What an update starts from: a manifest in use with its place, none, or a code
pub data Start : Type 0 where
  from : Manifest → ℕ → Start
  fresh : Start
  refused : Picokeys → Start

module _ (P : Platform) (O : Objects) where
  open P use {Fs, exists, contents, delete, commit, commit_sync, exec_error}
  open O use {
    Auth, Protector, authenticator, protector, max_objects, flag_inline, flag_mutable,
    flag_non_exportable, authenticated_public, aead_secret, build,
  }

  -- A file of a record that is not one, which an older credential may have left
  unfoldable pub foreign_record : ℕ → Fs → Bool
  foreign_record fid fs =
      exists fs fid
      && not (eq_bytes (take 4 (contents fs fid)) (0x50 ∷ (0x4b ∷ (0x4f ∷ (0x52 ∷ [])))))

  unfoldable pub some_foreign : ℕ → ℕ → ℕ → Fs → Bool
  some_foreign slot place zero fs = false
  some_foreign slot place (suc t) fs =
      foreign_record (record_fid slot place (suc t)) fs || some_foreign slot place t fs

  abbrev pub loads_and_validates : Loaded → Option Protector → Fs → Bool
  loads_and_validates (loaded m place other) (some prot) fs =
      is_success (manifest_validate P O m prot fs)
  loads_and_validates _ _ fs = false

  abbrev pub is_some : Option Auth → Bool
  is_some none = false
  is_some (some a) = true

  -- `resident_container_can_create`
  unfoldable pub can_create : ℕ → Fs → Bool
  can_create slot fs =
      if exists fs (manifest_fid slot 0) || exists fs (manifest_fid slot 1)
      then is_some authenticator
        && loads_and_validates (manifest_load P O slot authenticator fs) protector fs
      else not (some_foreign slot 0 4 fs || some_foreign slot 1 4 fs)

  -- The manifest to go on from: the one in use, or the other one where the records of the first do not
  -- open
  abbrev pub with_status : Manifest → ℕ → Option Manifest → Protector → Fs → Picokeys → Start
  with_status m place other prot fs success = from m place
  with_status m place (some n) prot fs r =
      if is_success (manifest_validate P O n prot fs) then from n (other_place place) else refused r
  with_status m place none prot fs r = refused r

  unfoldable pub start_from : ℕ → Loaded → Protector → Fs → Start
  start_from slot (loaded m place other) prot fs =
      with_status m place other prot fs (manifest_validate P O m prot fs)
  start_from slot (not_loaded file_not_found) prot fs =
      if can_create slot fs then fresh else refused wrong_data
  start_from slot (not_loaded r) prot fs = refused r

  abbrev pub added : Manifest → Option Descriptor → Descriptor → Picokeys × Manifest
  added next (some old) new = (success, record next { objects = replace_object new next.objects })
  added next none new =
      if ltb (length next.objects) max_objects
      then (success, record next { objects = next.objects ++ (new ∷ []); has_object = true })
      else (no_memory, next)

  -- The record is written; its descriptor goes into the manifest.
  abbrev pub recorded :
      Manifest → Option Descriptor → Descriptor → Picokeys × Fs → Picokeys × Manifest × Fs
  recorded next old new (success, fs) = let (q, m) = added next old new in (q, m, fs)
  recorded next old new (r, fs) = (r, next, fs)

  abbrev pub generated :
      Option ℕ → (ℕ → Picokeys × Manifest × Fs) → Manifest → Fs → Picokeys × Manifest × Fs
  generated none rest next fs = (wrong_data, next, fs)
  generated (some g) rest next fs = rest g

  -- One turn of the loop over the writes, with the types before it
  unfoldable pub write_object :
      ℕ → ℕ → Protector → List ℕ → Write → Manifest → Fs → Picokeys × Manifest × Fs
  write_object slot target prot before w next fs =
      let old = manifest_find next.objects w.object_type in
      if not (object_type_valid w.object_type)
        || has_bits w.flags flag_inline
        || written_before before w.object_type
      then (wrong_data, next, fs)
      else generated (next_generation old)
          (λ g.
            recorded next old (descriptor_of P O slot target w g)
              (record_write P O slot target w g next.generation prot fs))
          next fs

  abbrev pub and_write :
      Picokeys × Manifest × Fs
      → (Manifest → Fs → Picokeys × Manifest × Fs)
      → Picokeys × Manifest × Fs
  and_write (success, m, fs) rest = rest m fs
  and_write (r, m, fs) rest = (r, m, fs)

  unfoldable pub write_objects :
      ℕ → ℕ → Protector → List ℕ → List Write → Manifest → Fs → Picokeys × Manifest × Fs
  write_objects slot target prot before [] next fs = (success, next, fs)
  write_objects slot target prot before (w ∷ ws) next fs =
      and_write (write_object slot target prot before w next fs)
        (write_objects slot target prot (w.object_type ∷ before) ws)

  abbrev pub drop_file : ℕ → Fs → Fs
  drop_file fid fs = if exists fs fid then delete fs fid else fs

  -- The records of a place that the manifest does not refer to are deleted.
  unfoldable pub drop_records : ℕ → ℕ → Manifest → ℕ → Fs → Fs
  drop_records slot place m zero fs = fs
  drop_records slot place m (suc t) fs =
      let fid = record_fid slot place (suc t) in
      let fs' = drop_records slot place m t fs in
      if references_fid m.objects fid then fs' else drop_file fid fs'

  unfoldable pub drop_place : ℕ → ℕ → ℕ → Manifest → Fs → Fs
  drop_place slot target place m fs =
      drop_records slot place m 4
        (if place == target then fs else drop_file (manifest_fid slot place) fs)

  abbrev pub marked : ℕ → Fs → Picokeys × Fs
  marked slot fs =
      if is_marker (ef_cred + slot) (contents fs (ef_cred + slot))
      then (success, fs)
      else marker_write P slot fs

  -- The manifest is written, from then on it is in use, and what it replaces is deleted.
  abbrev pub built : ℕ → ℕ → Manifest → Picokeys × List ℕ → Fs → Picokeys × Fs
  built slot target next (success, d) fs =
      and_then P (replace_file P (manifest_fid slot target) d fs) (λ f1.
        and_then P (synced P (commit_sync f1)) (λ f2. and_then P (marked slot f2) (λ f3.
          (success, commit (drop_place slot target 1 next (drop_place slot target 0 next f3))))))
  built slot target next (r, d) fs = (r, fs)

  abbrev pub finish : ℕ → ℕ → Auth → Picokeys × Manifest × Fs → Picokeys × Fs
  finish slot target auth (success, next, fs) =
      and_then P (synced P (commit_sync fs)) (built slot target next (build next auth))
  finish slot target auth (r, next, fs) = (r, fs)

  -- The records are written beside those in use, and committed.
  unfoldable pub write_next : ℕ → ℕ → Auth → Protector → List Write → Manifest → Fs → Picokeys × Fs
  write_next slot target auth prot ws next fs =
      finish slot target auth (write_objects slot target prot [] ws next fs)

  abbrev pub successor : Manifest → Manifest
  successor m = record m { previous_generation = m.generation; generation = m.generation + 1 }

  abbrev pub first_manifest : ℕ → Manifest
  first_manifest slot = record {
    namespace_id = fido_namespace;
    container_kind = resident_kind;
    container_id = slot;
    generation = 1;
    previous_generation = 0;
    extension_size = 0;
    objects = [];
    has_object = false;
    object = no_object;
  }

  unfoldable pub update_from : ℕ → Auth → Protector → List Write → Start → Fs → Picokeys × Fs
  update_from slot auth prot ws (refused r) fs = (r, fs)
  update_from slot auth prot ws fresh fs = write_next slot 0 auth prot ws (first_manifest slot) fs
  update_from slot auth prot ws (from m place) fs =
      if m.generation == uint32_max || not (m.extension_size == 0)
      then (wrong_data, fs)
      else write_next slot (other_place place) auth prot ws (successor m) fs

  abbrev pub with_keys : ℕ → List Write → Option Auth → Option Protector → Fs → Picokeys × Fs
  with_keys slot ws (some auth) (some prot) fs =
      update_from slot auth prot ws
        (start_from slot (manifest_load P O slot (some auth) fs) prot fs) fs
  with_keys slot ws _ _ fs = (other_error exec_error, fs)

  -- `resident_container_update`
  unfoldable pub container_update : ℕ → List Write → Fs → Picokeys × Fs
  container_update slot ws fs =
      if length ws == 0 || ltb max_objects (length ws)
      then (null_param, fs)
      else with_keys slot ws authenticator protector fs

  -- `resident_container_create`
  unfoldable pub container_create : ℕ → List ℕ → List ℕ → List ℕ → List ℕ → Fs → Picokeys × Fs
  container_create slot rp_id_hash client_id credential public_key fs =
      let open_write : ℕ → List ℕ → Write = λ t d. record {
        object_type = t;
        bytes = d;
        protection = authenticated_public;
        flags = 0;
      } in
      if ltb uint32_max (length client_id)
        || ltb uint32_max (length credential)
        || ltb uint32_max (length public_key)
      then (null_param, fs)
      else container_update slot
          (open_write rp_id_hash_object (take 32 rp_id_hash)
            ∷ (open_write client_id_object client_id
                ∷ (record {
                  object_type = credential_object;
                  bytes = credential;
                  protection = aead_secret;
                  flags = bit_or flag_mutable flag_non_exportable;
                }
                    ∷ (open_write public_key_object public_key ∷ []))))
          fs

  -- `resident_container_update_credential`
  unfoldable pub update_credential : ℕ → List ℕ → Fs → Picokeys × Fs
  update_credential slot credential fs =
      if ltb uint32_max (length credential)
      then (null_param, fs)
      else container_update slot
          (record {
            object_type = credential_object;
            bytes = credential;
            protection = aead_secret;
            flags = bit_or flag_mutable flag_non_exportable;
          }
            ∷ [])
          fs
