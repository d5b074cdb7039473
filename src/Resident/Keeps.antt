-- ===== src/Resident/Keeps.antt =====
-- The manifest that was in use, and its records, while the records of an update are written.
use fido_touch.Prelude.{
  ℕ, ◌+◌, ◌-◌, ◌*◌, ◌≡◌, ◌≢◌, ◌⊎◌, inl, inr, refl, sym, subst, ◌∙◌, Bool-cases, true, false, Option,
  List, [], ◌∷◌, length, ◌==◌, if-elim, arith,
}
use fido_touch.Platform.{Platform, Picokeys, success}
use fido_touch.Resident.{Descriptor, Manifest, Objects, manifest_fid, record_fid}
use fido_touch.Resident.Load.{object_type_valid, valid, objects_valid, parsed, parse_slot}
use fido_touch.Resident.Record.{Write}
use fido_touch.Resident.Update.{write_objects, other_place}
use fido_touch.Resident.Update.Frame.{Misses, Misses-all, write_objects_ne}

-- A record is never the file of a manifest.
record-ne-manifest :
    (slot target place t : ℕ)
    → object_type_valid t ≡ true
    → record_fid slot target t ≢ manifest_fid slot place
unfolding object_type_valid
record-ne-manifest slot target place t h =
    if-elim (λ p. (p + t - 1) * 256 + slot ≢ manifest_fid slot place) (target == 0)
      (λ _.
        if-elim (λ q. (0xd3 + t - 1) * 256 + slot ≢ q * 256 + slot) (place == 0)
          (λ _ e. ground (arith, h, e)) (λ _ e. ground (arith, h, e)))
      (λ _.
        if-elim (λ q. (0xd7 + t - 1) * 256 + slot ≢ q * 256 + slot) (place == 0)
          (λ _ e. ground (arith, h, e)) (λ _ e. ground (arith, h, e)))

-- The records of the two places are different files.
other_record_ne :
    (slot place u t : ℕ)
    → object_type_valid u ≡ true
    → object_type_valid t ≡ true
    → record_fid slot (other_place place) u ≢ record_fid slot place t
unfolding object_type_valid
other_record_ne slot place u t h k e = ground (arith, h, k, e)

module _ (P : Platform) (O : Objects) where
  open P use {Fs, contents}
  open O use {Auth, Protector, parse}

  -- None of the records is one that is to be written.
  unfoldable pub Spares : ℕ → ℕ → List Write → List Descriptor → Type 0
  Spares slot target ws [] = Unit
  Spares slot target ws (o ∷ os) = Misses P O slot target ws o.record_id × Spares slot target ws os

  -- The records are the same before and after.
  unfoldable pub Agree : Fs → Fs → List Descriptor → Type 0
  Agree fs fs' [] = Unit
  Agree fs fs' (o ∷ os) = (contents fs' o.record_id ≡ contents fs o.record_id) × Agree fs fs' os

  objects_valid-Agree :
      (slot : ℕ) (fs fs' : Fs) (seen os : List Descriptor)
      → Agree fs fs' os
      → objects_valid P O slot fs' seen os ≡ objects_valid P O slot fs seen os
  unfolding Agree objects_valid
  objects_valid-Agree slot fs fs' seen [] a = refl
  objects_valid-Agree slot fs fs' seen (o ∷ os) a =
      rw (a.0, objects_valid-Agree slot fs fs' (o ∷ seen) os a.1) refl

  parsed-objects :
      (slot : ℕ) (fs : Fs) (r : Picokeys × Manifest) (m : Manifest)
      → parsed P O slot fs r ≡ valid m
      → r.1 ≡ m
  parsed-objects slot fs (success, n) m h = ground (arith, h)
  parsed-objects slot fs (r, n) m h = ground (arith, h)

  parsed-Agree :
      (slot : ℕ) (fs fs' : Fs) (r : Picokeys × Manifest)
      → Agree fs fs' (r.1).objects
      → parsed P O slot fs' r ≡ parsed P O slot fs r
  parsed-Agree slot fs fs' (success, n) a = rw (objects_valid-Agree slot fs fs' [] n.objects a) refl
  parsed-Agree slot fs fs' (r, n) a = refl

  parse_slot-Agree :
      (slot place : ℕ) (auth : Option Auth) (fs fs' : Fs) (m : Manifest)
      → parse_slot P O slot place auth fs ≡ valid m
      → contents fs' (manifest_fid slot place) ≡ contents fs (manifest_fid slot place)
      → Agree fs fs' m.objects
      → parse_slot P O slot place auth fs' ≡ valid m
  unfolding parse_slot
  parse_slot-Agree slot place auth fs fs' m h same a = by_data (Bool-cases (length d == 0))
    where
      d : List ℕ
      d = contents fs (manifest_fid slot place)

      by_data :
          ((length d == 0) ≡ true) ⊎ ((length d == 0) ≡ false)
          → parse_slot P O slot place auth fs' ≡ valid m
      by_data (inl e) = ground (arith, e, h)
      by_data (inr e) =
          let here : parsed P O slot fs (parse d auth) ≡ valid m = ground (arith, e, h) in
          let objects = parsed-objects slot fs (parse d auth) m here in
          let kept : Agree fs fs' ((parse d auth).1).objects =
            subst (λ n. Agree fs fs' n.objects) (sym objects) a in
          rw (same, e) (parsed-Agree slot fs fs' (parse d auth) kept ∙ here)

  Spares-Agree :
      (slot target : ℕ) (prot : Protector) (ws : List Write) (next : Manifest) (fs : Fs)
      (os : List Descriptor)
      → Spares slot target ws os
      → Agree fs (write_objects P O slot target prot [] ws next fs).2 os
  unfolding Spares Agree
  Spares-Agree slot target prot ws next fs [] h = tt
  Spares-Agree slot target prot ws next fs (o ∷ os) h = (
    write_objects_ne P O slot target o.record_id prot [] ws next fs h.0,
    Spares-Agree slot target prot ws next fs os h.1,
  )

  -- All records of the manifest are in one place.
  unfoldable pub InPlace : ℕ → ℕ → List Descriptor → Type 0
  InPlace slot place [] = Unit
  InPlace slot place (o ∷ os) =
      ((t : ℕ) × (object_type_valid t ≡ true) × (o.record_id ≡ record_fid slot place t))
      × InPlace slot place os

  -- An update writes to the other place, and so to none of the records of a manifest that has all of
  -- them in its own.
  pub InPlace-Spares :
      (slot place : ℕ) (ws : List Write) (os : List Descriptor)
      → InPlace slot place os
      → Spares slot (other_place place) ws os
  unfolding InPlace Spares
  InPlace-Spares slot place ws [] h = tt
  InPlace-Spares slot place ws (o ∷ os) ((t, v, e), h) = (
    Misses-all P O slot (other_place place) o.record_id ws
        (λ u w same. other_record_ne slot place u t w v (same ∙ e)),
    InPlace-Spares slot place ws os h,
  )

  -- After any number of the record writes of an update, and where one of them is refused, a manifest that
  -- was valid still is, and the records it refers to are as they were, if it refers to none of the records
  -- that the update writes.
  pub write_objects-parse_slot :
      (slot place target : ℕ) (auth : Option Auth) (prot : Protector) (ws : List Write)
      (next m : Manifest) (fs : Fs)
      → parse_slot P O slot place auth fs ≡ valid m
      → Spares slot target ws m.objects
      → (parse_slot P O slot place auth (write_objects P O slot target prot [] ws next fs).2
          ≡ valid m)
        × Agree fs (write_objects P O slot target prot [] ws next fs).2 m.objects
  write_objects-parse_slot slot place target auth prot ws next m fs h spares =
      let kept = Spares-Agree slot target prot ws next fs m.objects spares in
      let same = write_objects_ne P O slot target (manifest_fid slot place) prot [] ws next fs (
        Misses-all P O slot target (manifest_fid slot place) ws
          (λ t v. record-ne-manifest slot target place t v)) in
      (
        parse_slot-Agree slot place auth fs (write_objects P O slot target prot [] ws next fs).2 m h
            same kept,
        kept,
      )
