-- ===== src/Resident/Deletion.antt =====
-- What is left of a container that was deleted.
use fido_touch.Prelude.{
  ℕ, zero, suc, ◌+◌, ◌≤◌, ◌≡◌, ◌≢◌, refl, sym, subst, ap, ◌∙◌, ◌⊎◌, inl, inr, Bool, Bool-cases,
  true, false, Option, [], ◌==◌, arith,
}
use fido_touch.Platform.{Platform, Picokeys, success, file_not_found}
use fido_touch.Resident.{Manifest, Objects, manifest_fid, record_fid, ef_cred}
use fido_touch.Resident.Load.{
  Candidate, valid, invalid, parsed, Loaded, loaded, not_loaded, choose, parse_slot,
  storage_present, manifest_load,
}
use fido_touch.Resident.Record.{synced}
use fido_touch.Resident.Update.{drop_file}
use fido_touch.Resident.Access.{delete_records, delete_place, delete_loaded, container_delete}

invalid-refused : (r : Picokeys) → invalid r ≢ invalid success → r ≢ success
invalid-refused r h e = h (ap invalid e)

module _ (P : Platform) (O : Objects) where
  open P use {
    Fs, exists, contents, delete, commit_sync, contents-delete, contents-exists,
    contents-commit_sync,
  }
  open O use {Auth, authenticator}

  drop_file_self : (k : ℕ) (fs : Fs) → contents (drop_file P O k fs) k ≡ []
  drop_file_self k fs = ground (arith, contents-delete fs k k, contents-exists fs k)

  drop_file-empty : (k j : ℕ) (fs : Fs) → contents fs j ≡ [] → contents (drop_file P O k fs) j ≡ []
  drop_file-empty k j fs h = ground (arith, contents-delete fs k j, h)

  delete_records-empty :
      (slot place t j : ℕ) (fs : Fs)
      → contents fs j ≡ []
      → contents (delete_records P O slot place t fs) j ≡ []
  unfolding delete_records
  delete_records-empty slot place zero j fs h = h
  delete_records-empty slot place (suc t) j fs h =
      drop_file-empty (record_fid slot place (suc t)) j (delete_records P O slot place t fs)
        (delete_records-empty slot place t j fs h)

  delete_records_lem :
      (slot place n t : ℕ) (fs : Fs)
      → 1 ≤ t
      → t ≤ n
      → contents (delete_records P O slot place n fs) (record_fid slot place t) ≡ []
  unfolding delete_records
  delete_records_lem slot place zero t fs lo hi = absurd (omega (arith, lo, hi))
  delete_records_lem slot place (suc n) t fs lo hi =
      by_last (Bool-cases (t == suc n)) (λ le. delete_records_lem slot place n t fs lo le)
    where
      below : Fs
      below = delete_records P O slot place n fs

      by_last :
          ((t == suc n) ≡ true) ⊎ ((t == suc n) ≡ false)
          → (t ≤ n → contents below (record_fid slot place t) ≡ [])
          → contents (drop_file P O (record_fid slot place (suc n)) below) (record_fid slot place t)
            ≡ []
      by_last (inl e) rest =
          let same : suc n ≡ t = ground (arith, e) in
          subst
            (λ k.
              contents (drop_file P O (record_fid slot place k) below) (record_fid slot place t)
              ≡ [])
            (sym same) (drop_file_self (record_fid slot place t) below)
      by_last (inr ne) rest =
          drop_file-empty (record_fid slot place (suc n)) (record_fid slot place t) below
            (rest (ground (arith, ne, hi)))

  delete_place-empty :
      (slot place j : ℕ) (fs : Fs)
      → contents fs j ≡ []
      → contents (delete_place P O slot place fs) j ≡ []
  unfolding delete_place
  delete_place-empty slot place j fs h =
      drop_file-empty (manifest_fid slot place) j (delete_records P O slot place 4 fs)
        (delete_records-empty slot place 4 j fs h)

  delete_place-manifest :
      (slot place : ℕ) (fs : Fs)
      → contents (delete_place P O slot place fs) (manifest_fid slot place) ≡ []
  unfolding delete_place
  delete_place-manifest slot place fs =
      drop_file_self (manifest_fid slot place) (delete_records P O slot place 4 fs)

  delete_place-record :
      (slot place t : ℕ) (fs : Fs)
      → 1 ≤ t
      → t ≤ 4
      → contents (delete_place P O slot place fs) (record_fid slot place t) ≡ []
  unfolding delete_place
  delete_place-record slot place t fs lo hi =
      drop_file-empty (manifest_fid slot place) (record_fid slot place t)
        (delete_records P O slot place 4 fs) (delete_records_lem slot place 4 t fs lo hi)

  -- Everything is deleted, before the flash is committed.
  abbrev all_deleted : ℕ → Fs → Fs
  all_deleted slot fs =
      delete (delete_place P O slot 1 (delete_place P O slot 0 fs)) (ef_cred + slot)

  deleted-empty :
      (slot j : ℕ) (fs : Fs)
      → (contents (delete_place P O slot 0 fs) j ≡ [])
        ⊎ (contents (delete_place P O slot 1 (delete_place P O slot 0 fs)) j ≡ [])
        ⊎ (ef_cred + slot ≡ j)
      → contents (commit_sync (all_deleted slot fs)).1 j ≡ []
  deleted-empty slot j fs h =
      let f1 = delete_place P O slot 1 (delete_place P O slot 0 fs) in
      contents-commit_sync (all_deleted slot fs) j
      ∙ ground (
        arith,
        contents-delete f1 (ef_cred + slot) j,
        delete_place-empty slot 1 j (delete_place P O slot 0 fs),
        h,
      )

  synced-files : (r : Bool × Fs) → (synced P r).1 ≡ r.1
  synced-files (true, f) = refl
  synced-files (false, f) = refl

  delete_loaded-files :
      (slot : ℕ) (l : Loaded) (fs : Fs)
      → l ≢ not_loaded success
      → (delete_loaded P O slot l fs).0 ≡ success
      → (delete_loaded P O slot l fs).1 ≡ (commit_sync (all_deleted slot fs)).1
  delete_loaded-files slot (loaded m place other) fs k h =
      synced-files (commit_sync (all_deleted slot fs))
  delete_loaded-files slot (not_loaded r) fs k h = absurd (k (ap not_loaded h))

  manifest_load-empty :
      (slot : ℕ) (auth : Option Auth) (fs : Fs)
      → contents fs (manifest_fid slot 0) ≡ []
      → contents fs (manifest_fid slot 1) ≡ []
      → manifest_load P O slot auth fs ≡ not_loaded file_not_found
  unfolding manifest_load choose parse_slot storage_present
  manifest_load-empty slot auth fs h0 h1 = rw (h0, h1) refl

  parsed-refused :
      (slot : ℕ) (fs : Fs) (r : Picokeys × Manifest) → parsed P O slot fs r ≢ invalid success
  parsed-refused slot fs (success, m) h = ground (arith, h)
  parsed-refused slot fs (r, m) h = ground (arith, h)

  parse_slot-refused :
      (slot place : ℕ) (auth : Option Auth) (fs : Fs)
      → parse_slot P O slot place auth fs ≢ invalid success
  unfolding parse_slot
  parse_slot-refused slot place auth fs h =
      ground
        (arith, parsed-refused slot fs (O.parse (contents fs (manifest_fid slot place)) auth), h)

  choose-refused :
      (present : Bool) (a b : Candidate)
      → a ≢ invalid success
      → b ≢ invalid success
      → choose present a b ≢ not_loaded success
  unfolding choose
  choose-refused present (valid x) (valid y) ha hb h = ground (arith, h)
  choose-refused present (valid x) (invalid r) ha hb h = invalid-refused r hb (ground (arith, h))
  choose-refused present (invalid r) (valid y) ha hb h = invalid-refused r ha (ground (arith, h))
  choose-refused present (invalid r) (invalid q) ha hb h =
      ground (arith, invalid-refused r ha, invalid-refused q hb, h)

  manifest_load-refused :
      (slot : ℕ) (auth : Option Auth) (fs : Fs)
      → manifest_load P O slot auth fs ≢ not_loaded success
  unfolding manifest_load
  manifest_load-refused slot auth fs e =
      choose-refused (storage_present P O slot fs) (parse_slot P O slot 0 auth fs)
        (parse_slot P O slot 1 auth fs) (parse_slot-refused slot 0 auth fs)
        (parse_slot-refused slot 1 auth fs) e

  container_delete-files :
      (slot : ℕ) (fs : Fs)
      → (container_delete P O slot fs).0 ≡ success
      → (container_delete P O slot fs).1 ≡ (commit_sync (all_deleted slot fs)).1
  unfolding container_delete
  container_delete-files slot fs h = ground (
    arith,
    delete_loaded-files slot (manifest_load P O slot authenticator fs) fs
        (manifest_load-refused slot authenticator fs),
    h,
  )

  -- A deletion that succeeds leaves no manifest to load, no marker, and none of the records of either
  -- place.
  pub container_delete-manifest_load :
      (slot : ℕ) (auth : Option Auth) (fs : Fs)
      → (container_delete P O slot fs).0 ≡ success
      → (manifest_load P O slot auth (container_delete P O slot fs).1 ≡ not_loaded file_not_found)
        × (contents (container_delete P O slot fs).1 (ef_cred + slot) ≡ [])
        × ((t : ℕ)
            → 1 ≤ t
            → t ≤ 4
            → (contents (container_delete P O slot fs).1 (record_fid slot 0 t) ≡ [])
              × (contents (container_delete P O slot fs).1 (record_fid slot 1 t) ≡ []))
  container_delete-manifest_load slot auth fs h =
      let f0 = delete_place P O slot 0 fs in
      let files = container_delete-files slot fs h in
      let gone : (j : ℕ)
          → contents (commit_sync (all_deleted slot fs)).1 j ≡ []
          → contents (container_delete P O slot fs).1 j ≡ [] =
        λ j e. ap (λ f. contents f j) files ∙ e in
      (
        manifest_load-empty slot auth (container_delete P O slot fs).1
            (gone (manifest_fid slot 0)
              (deleted-empty slot (manifest_fid slot 0) fs (inl (delete_place-manifest slot 0 fs))))
            (gone (manifest_fid slot 1) (
              deleted-empty slot (manifest_fid slot 1) fs
                (inr (inl (delete_place-manifest slot 1 f0))))),
        gone (ef_cred + slot) (deleted-empty slot (ef_cred + slot) fs (inr (inr refl))),
        λ t lo hi. (
          gone (record_fid slot 0 t) (
              deleted-empty slot (record_fid slot 0 t) fs
                (inl (delete_place-record slot 0 t fs lo hi))),
          gone (record_fid slot 1 t) (
              deleted-empty slot (record_fid slot 1 t) fs
                (inr (inl (delete_place-record slot 1 t f0 lo hi)))),
        ),
      )
