-- ===== src/Resident/Frame.antt =====
-- The files that an update of a container changes.
use fido_touch.Prelude.{
  ℕ, zero, suc, ◌+◌, ◌≤◌, ◌<◌, ◌≡◌, refl, ◌∙◌, true, not, ◌||◌, Option, none, some, List, [],
  length, ltb, ◌==◌, if◌then◌else◌, if-elim, arith,
}
use fido_touch.Platform.{Platform, Picokeys, success}
use fido_touch.Resident.{Manifest, Objects, manifest_fid, record_fid, ef_cred}
use fido_touch.Resident.Load.{object_type_valid, references_fid, manifest_load}
use fido_touch.Resident.Record.{Write, is_marker, replace_file, synced}
use fido_touch.Resident.Update.{
  Start, from, fresh, refused, write_objects, drop_file, drop_records, drop_place, marked, built,
  finish, write_next, start_from, update_from, with_keys, container_update, uint32_max, other_place,
  successor, first_manifest,
}
use fido_touch.Resident.Update.Frame.{
  IsOutside, manifest_fid_ne, record_fid_ne, Same, drop_ne, replace_file_ne, sync-Same,
  and_then-Same, marker_write_ne, Misses-all, write_objects_ne,
}

module _ (P : Platform) (O : Objects) where
  open P use {Fs, contents, delete, commit, commit_sync, contents-delete, contents-commit}
  open O use {Auth, Protector, build, authenticator, protector, max_objects}

  valid_below : (t n : ℕ) → t < n → n ≤ 4 → object_type_valid (suc t) ≡ true
  unfolding object_type_valid
  valid_below t n lt le = ground arith

  drop_records_ne :
      (slot place j t : ℕ) (m : Manifest) (fs : Fs)
      → IsOutside slot j
      → t ≤ 4
      → Same P j fs (drop_records P O slot place m t fs)
  unfolding drop_records
  drop_records_ne slot place j zero m fs out le = refl
  drop_records_ne slot place j (suc t) m fs out le =
      let fid = record_fid slot place (suc t) in
      let below = drop_records P O slot place m t fs in
      let rest = drop_records_ne slot place j t m fs out (omega arith) in
      let ne = record_fid_ne slot place (suc t) j out (valid_below t (suc t) (omega arith) le) in
      if-elim (λ f. Same P j fs f) (references_fid m.objects fid) (λ _. rest)
        (λ _. drop_ne P fid j below ne ∙ rest)

  drop_place_ne :
      (slot target place j : ℕ) (m : Manifest) (fs : Fs)
      → IsOutside slot j
      → Same P j fs (drop_place P O slot target place m fs)
  unfolding drop_place
  drop_place_ne slot target place j m fs out =
      let f1 = if place == target then fs else drop_file P O (manifest_fid slot place) fs in
      let first : Same P j fs f1 =
        if-elim (λ f. Same P j fs f) (place == target) (λ _. refl)
          (λ _. drop_ne P (manifest_fid slot place) j fs (manifest_fid_ne slot place j out)) in
      drop_records_ne slot place j 4 m f1 out (omega arith) ∙ first

  marked_ne : (slot j : ℕ) (fs : Fs) → IsOutside slot j → Same P j fs (marked P O slot fs).1
  marked_ne slot j fs out =
      if-elim (λ (r : Picokeys × Fs). Same P j fs r.1)
        (is_marker (ef_cred + slot) (contents fs (ef_cred + slot))) (λ _. refl)
        (λ _. marker_write_ne P slot j fs out)

  cleaned_ne :
      (slot target j : ℕ) (m : Manifest) (fs : Fs)
      → IsOutside slot j
      → Same P j fs (commit (drop_place P O slot target 1 m (drop_place P O slot target 0 m fs)))
  cleaned_ne slot target j m fs out =
      let f1 = drop_place P O slot target 0 m fs in
      contents-commit (drop_place P O slot target 1 m f1) j
      ∙ drop_place_ne slot target 1 j m f1 out
      ∙ drop_place_ne slot target 0 j m fs out

  built_ne :
      (slot target j : ℕ) (m : Manifest) (r : Picokeys × List ℕ) (fs : Fs)
      → IsOutside slot j
      → Same P j fs (built P O slot target m r fs).1
  built_ne slot target j m (success, d) fs out =
      and_then-Same P j fs (replace_file P (manifest_fid slot target) d fs) _
        (replace_file_ne P (manifest_fid slot target) j d fs (manifest_fid_ne slot target j out))
        (λ f1. and_then-Same P j f1 (synced P (commit_sync f1)) _ (sync-Same P j f1) (λ f2.
          and_then-Same P j f2 (marked P O slot f2) _ (marked_ne slot j f2 out)
            (λ f3. cleaned_ne slot target j m f3 out)))
  built_ne slot target j m (r, d) fs out = refl

  finish_ne :
      (slot target j : ℕ) (auth : Auth) (t : Picokeys × Manifest × Fs)
      → IsOutside slot j
      → Same P j t.2 (finish P O slot target auth t).1
  finish_ne slot target j auth (success, m, fs) out =
      and_then-Same P j fs (synced P (commit_sync fs)) _ (sync-Same P j fs)
        (λ f. built_ne slot target j m (build m auth) f out)
  finish_ne slot target j auth (r, m, fs) out = refl

  write_next_ne :
      (slot target j : ℕ) (auth : Auth) (prot : Protector) (ws : List Write) (m : Manifest)
      (fs : Fs)
      → IsOutside slot j
      → Same P j fs (write_next P O slot target auth prot ws m fs).1
  unfolding write_next
  write_next_ne slot target j auth prot ws m fs out =
      finish_ne slot target j auth (write_objects P O slot target prot [] ws m fs) out
      ∙ write_objects_ne P O slot target j prot [] ws m fs
          (Misses-all P O slot target j ws (λ t h. record_fid_ne slot target t j out h))

  update_from_ne :
      (slot j : ℕ) (auth : Auth) (prot : Protector) (ws : List Write) (s : Start) (fs : Fs)
      → IsOutside slot j
      → Same P j fs (update_from P O slot auth prot ws s fs).1
  unfolding update_from
  update_from_ne slot j auth prot ws (refused r) fs out = refl
  update_from_ne slot j auth prot ws fresh fs out =
      write_next_ne slot 0 j auth prot ws (first_manifest P O slot) fs out
  update_from_ne slot j auth prot ws (from m place) fs out =
      if-elim (λ (r : Picokeys × Fs). Same P j fs r.1)
        (m.generation == uint32_max || not (m.extension_size == 0)) (λ _. refl)
        (λ _. write_next_ne slot (other_place place) j auth prot ws (successor P O m) fs out)

  with_keys_ne :
      (slot j : ℕ) (ws : List Write) (a : Option Auth) (p : Option Protector) (fs : Fs)
      → IsOutside slot j
      → Same P j fs (with_keys P O slot ws a p fs).1
  with_keys_ne slot j ws (some auth) (some prot) fs out =
      update_from_ne slot j auth prot ws
        (start_from P O slot (manifest_load P O slot (some auth) fs) prot fs) fs out
  with_keys_ne slot j ws none p fs out = refl
  with_keys_ne slot j ws (some auth) none fs out = refl

  -- However an update of a container ends, no file but the container's own has changed: its marker, its
  -- two manifests, and the records of its two places.
  pub container_update_ne :
      (slot j : ℕ) (ws : List Write) (fs : Fs)
      → IsOutside slot j
      → contents (container_update P O slot ws fs).1 j ≡ contents fs j
  unfolding container_update
  container_update_ne slot j ws fs out =
      if-elim (λ (r : Picokeys × Fs). Same P j fs r.1)
        (length ws == 0 || ltb max_objects (length ws)) (λ _. refl)
        (λ _. with_keys_ne slot j ws authenticator protector fs out)
