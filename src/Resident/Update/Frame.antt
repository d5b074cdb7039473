-- ===== src/Resident/Update/Frame.antt =====
-- Which files a container consists of, and the files that the steps of an update change.
use fido_touch.Prelude.{
  ℕ, ◌+◌, ◌-◌, ◌*◌, ◌≤◌, ◌^◌, ◌≡◌, ◌≢◌, ◌⊎◌, inl, inr, refl, ◌∙◌, Bool, true, false, not, ◌||◌,
  Option, none, some, List, [], ◌∷◌, length, ltb, ◌==◌, has_bits, if◌then◌else◌, if-elim, arith,
}
use fido_touch.Platform.{Platform, Picokeys, success}
use fido_touch.Resident.{Descriptor, Manifest, Objects, manifest_fid, record_fid, ef_cred}
use fido_touch.Resident.Load.{object_type_valid, manifest_find}
use fido_touch.Resident.Record.{
  Write, marker_bytes, put_new, replace_file, synced, and_then, marker_write, with_hash, written,
  write_under, sealed_under, record_size, record_write, descriptor_of,
}
use fido_touch.Resident.Update.{
  generated, recorded, next_generation, written_before, write_object, and_write, write_objects,
}

-- The high byte of a file of a container: of its marker, of a manifest or of a record
abbrev IsPrefix : ℕ → Type 0
IsPrefix p = (p ≡ 0xcf) ⊎ ((0xd1 ≤ p) × (p ≤ 0xda))

-- The file is none of the container `slot`.
unfoldable pub IsOutside : ℕ → ℕ → Type 0
IsOutside slot j = (p : ℕ) → IsPrefix p → p * 256 + slot ≢ j

pub manifest_fid_ne : (slot place j : ℕ) → IsOutside slot j → manifest_fid slot place ≢ j
unfolding IsOutside
manifest_fid_ne slot place j out =
    if-elim (λ p. p * 256 + slot ≢ j) (place == 0) (λ _. out 0xd1 (inr (omega arith, omega arith)))
      (λ _. out 0xd2 (inr (omega arith, omega arith)))

pub record_fid_ne :
    (slot place t j : ℕ)
    → IsOutside slot j
    → object_type_valid t ≡ true
    → record_fid slot place t ≢ j
unfolding IsOutside object_type_valid
record_fid_ne slot place t j out h =
    if-elim (λ p. (p + t - 1) * 256 + slot ≢ j) (place == 0)
      (λ _. out (0xd3 + t - 1) (inr (ground (arith, h), ground (arith, h))))
      (λ _. out (0xd7 + t - 1) (inr (ground (arith, h), ground (arith, h))))

pub marker_ne : (slot j : ℕ) → IsOutside slot j → ef_cred + slot ≢ j
unfolding IsOutside
marker_ne slot j out = out 0xcf (inl refl)

module _ (P : Platform) where
  open P use {
    Fs, exists, contents, put, create, delete, commit, commit_sync, contents-put_ne,
    contents-create, contents-delete, contents-commit, contents-commit_sync,
  }

  -- The file is the same before and after.
  abbrev pub Same : ℕ → Fs → Fs → Type 0
  Same j fs fs' = contents fs' j ≡ contents fs j

  put_new_ne : (fid j : ℕ) (d : List ℕ) (r : Bool × Fs) → fid ≢ j → Same j r.1 (put_new P fid d r).1
  put_new_ne fid j d (true, fs) ne = contents-put_ne fs fid j d ne
  put_new_ne fid j d (false, fs) ne = refl

  pub drop_ne :
      (fid j : ℕ) (fs : Fs) → fid ≢ j → Same j fs (if exists fs fid then delete fs fid else fs)
  drop_ne fid j fs ne = ground (arith, contents-delete fs fid j)

  pub replace_file_ne :
      (fid j : ℕ) (d : List ℕ) (fs : Fs) → fid ≢ j → Same j fs (replace_file P fid d fs).1
  unfolding replace_file
  replace_file_ne fid j d fs ne =
      let f1 = if exists fs fid then delete fs fid else fs in
      put_new_ne fid j d (create f1 fid) ne ∙ contents-create f1 fid j ∙ drop_ne fid j fs ne

  synced-Same : (j : ℕ) (r : Bool × Fs) → Same j r.1 (synced P r).1
  synced-Same j (true, fs) = refl
  synced-Same j (false, fs) = refl

  pub sync-Same : (j : ℕ) (fs : Fs) → Same j fs (synced P (commit_sync fs)).1
  sync-Same j fs = synced-Same j (commit_sync fs) ∙ contents-commit_sync fs j

  pub and_then-Same :
      (j : ℕ) (fs : Fs) (r : Picokeys × Fs) (rest : Fs → Picokeys × Fs)
      → Same j fs r.1
      → ((f : Fs) → Same j f (rest f).1)
      → Same j fs (and_then P r rest).1
  and_then-Same j fs (success, f) rest h k = k f ∙ h
  and_then-Same j fs (r, f) rest h k = h

  pub marker_write_ne :
      (slot j : ℕ) (fs : Fs) → IsOutside slot j → Same j fs (marker_write P slot fs).1
  unfolding marker_write
  marker_write_ne slot j fs out =
      and_then-Same j fs (replace_file P (ef_cred + slot) (marker_bytes slot) fs)
        (λ f. synced P (commit_sync f))
        (replace_file_ne (ef_cred + slot) j (marker_bytes slot) fs (marker_ne slot j out))
        (sync-Same j)

module _ (P : Platform) (O : Objects) where
  open P use {
    Fs, exists, contents, put, create, delete, commit, commit_sync, contents-delete,
    contents-commit,
  }
  open O use {Auth, Protector, policy_hash, seal, build}

  written_ne :
      (fid size j : ℕ) (r : Picokeys × List ℕ) (fs : Fs)
      → fid ≢ j
      → Same P j fs (written P O fid size r fs).1
  written_ne fid size j (success, d) fs ne =
      if-elim (λ (r : Picokeys × Fs). Same P j fs r.1) (length d == size)
        (λ _. replace_file_ne P fid j d fs ne) (λ _. refl)
  written_ne fid size j (r, d) fs ne = refl

  with_hash-Same :
      (j : ℕ) (h : Picokeys × List ℕ) (rest : List ℕ → Picokeys × Fs) (fs : Fs)
      → ((d : List ℕ) → Same P j fs (rest d).1)
      → Same P j fs (with_hash P O h rest fs).1
  with_hash-Same j (success, d) rest fs k = k d
  with_hash-Same j (r, d) rest fs k = refl

  pub record_write_ne :
      (slot place j : ℕ) (w : Write) (g gen : ℕ) (prot : Protector) (fs : Fs)
      → record_fid slot place w.object_type ≢ j
      → Same P j fs (record_write P O slot place w g gen prot fs).1
  unfolding record_write
  record_write_ne slot place j w g gen prot fs ne =
      with_hash-Same j policy_hash (write_under P O slot place w g gen prot fs) fs (λ hash.
        if-elim (λ (r : Picokeys × Fs). Same P j fs r.1)
          (ltb (2 ^ 32 - 1 - O.record_header_size - O.auth_tag_size) (length w.bytes)) (λ _. refl)
          (λ _.
            written_ne (record_fid slot place w.object_type) (record_size P O w.bytes) j
              (sealed_under P O slot place w g gen prot fs hash) fs ne))

  -- The records that are to be written are other files.
  unfoldable pub Misses : ℕ → ℕ → List Write → ℕ → Type 0
  Misses slot target [] j = Unit
  Misses slot target (w ∷ ws) j =
      (object_type_valid w.object_type ≡ true → record_fid slot target w.object_type ≢ j)
      × Misses slot target ws j

  pub Misses-all :
      (slot target j : ℕ) (ws : List Write)
      → ((t : ℕ) → object_type_valid t ≡ true → record_fid slot target t ≢ j)
      → Misses slot target ws j
  unfolding Misses
  Misses-all slot target j [] h = tt
  Misses-all slot target j (w ∷ ws) h = (h w.object_type, Misses-all slot target j ws h)

  generated-Same :
      (j : ℕ) (fs : Fs) (next : Manifest) (o : Option ℕ) (rest : ℕ → Picokeys × Manifest × Fs)
      → ((g : ℕ) → Same P j fs (rest g).2)
      → Same P j fs (generated P O o rest next fs).2
  generated-Same j fs next none rest k = refl
  generated-Same j fs next (some g) rest k = k g

  write_object_ne :
      (slot target j : ℕ) (prot : Protector) (before : List ℕ) (w : Write) (next : Manifest)
      (fs : Fs)
      → (object_type_valid w.object_type ≡ true → record_fid slot target w.object_type ≢ j)
      → Same P j fs (write_object P O slot target prot before w next fs).2
  unfolding write_object
  write_object_ne slot target j prot before w next fs miss =
      if-elim (λ (r : Picokeys × Manifest × Fs). Same P j fs r.2)
        (not (object_type_valid w.object_type)
          || has_bits w.flags O.flag_inline
          || written_before before w.object_type)
        (λ _. refl)
        (λ h.
          generated-Same j fs next (next_generation (manifest_find next.objects w.object_type))
            (λ g.
              recorded P O next (manifest_find next.objects w.object_type)
                (descriptor_of P O slot target w g)
                (record_write P O slot target w g next.generation prot fs))
            (λ g.
              recorded-Same j fs next (manifest_find next.objects w.object_type)
                (descriptor_of P O slot target w g)
                (record_write P O slot target w g next.generation prot fs)
                (record_write_ne slot target j w g next.generation prot fs
                  (miss (ground (arith, h))))))
    where
      recorded-Same :
          (j : ℕ) (fs : Fs) (next : Manifest) (old : Option Descriptor) (new : Descriptor)
          (r : Picokeys × Fs)
          → Same P j fs r.1
          → Same P j fs (recorded P O next old new r).2
      recorded-Same j fs next old new (success, f) h = h
      recorded-Same j fs next old new (r, f) h = h

  -- Writing the records of a place changes those alone.
  pub write_objects_ne :
      (slot target j : ℕ) (prot : Protector) (before : List ℕ) (ws : List Write) (next : Manifest)
      (fs : Fs)
      → Misses slot target ws j
      → Same P j fs (write_objects P O slot target prot before ws next fs).2
  unfolding write_objects Misses
  write_objects_ne slot target j prot before [] next fs miss = refl
  write_objects_ne slot target j prot before (w ∷ ws) next fs miss =
      and_write-Same (write_object P O slot target prot before w next fs)
        (write_objects P O slot target prot (w.object_type ∷ before) ws)
        (write_object_ne slot target j prot before w next fs miss.0)
        (λ m f. write_objects_ne slot target j prot (w.object_type ∷ before) ws m f miss.1)
    where
      and_write-Same :
          (r : Picokeys × Manifest × Fs) (rest : Manifest → Fs → Picokeys × Manifest × Fs)
          → Same P j fs r.2
          → ((m : Manifest) (f : Fs) → Same P j f (rest m f).2)
          → Same P j fs (and_write P O r rest).2
      and_write-Same (success, m, f) rest h k = k m f ∙ h
      and_write-Same (r, m, f) rest h k = h
