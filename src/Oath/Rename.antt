-- ===== src/Oath/Rename.antt =====
-- The OATH credentials by their names: RENAME and GET CREDENTIAL.
use fido_touch.Prelude.{
  ℕ, ◌+◌, ◌-◌, ◌%◌, Bool, true, false, not, ◌&&◌, Option, none, some, List, [], ◌∷◌, ◌++◌, length,
  take, drop, get_or, set, ltb, leb, ◌==◌, eq_bytes, if◌then◌else◌,
}
use fido_touch.Exec.{Exec, ok}
use fido_touch.Platform.{Platform}
use fido_touch.Oath.{
  Sw, ok_sw, security_status_not_satisfied, incorrect_params, wrong_data, wrong_length,
  data_invalid, Apdu, OathOf, return, return_if, value,
}
use fido_touch.Oath.Credentials.{tag_name, find_oath_cred}
use fido_touch.Oath.Calculate.{has_room}

-- The credential with `new` in place of the name of `len` bytes at `at`, and its length in the byte in front
unfoldable pub renamed : List ℕ → List ℕ → ℕ × ℕ → List ℕ
renamed d new (at, len) = set (take at d) (at - 1) (length new % 256) ++ (new ++ drop (at + len) d)

-- `oath_response_append`: a value of more than 255 bytes, or one without room, is not written.
unfoldable pub append_tag : ℕ → List ℕ → ℕ → List ℕ → Option (List ℕ)
append_tag buffer response tag bytes =
    if leb (length bytes) 0xff && has_room buffer response (length bytes + 2)
    then some (response ++ (tag ∷ (length bytes ∷ bytes)))
    else none

module _ (P : Platform) where
  open P use {contents, put, commit, find_tag}

  abbrev rename_file : ℕ → List ℕ → Option (ℕ × ℕ) → Exec (OathOf P) Sw
  rename_file k new none = return wrong_data
  rename_file k new (some place) =
      λ s. (ok ok_sw, record s { fs = commit (put s.fs k (renamed (contents s.fs k) new place)).1 })

  abbrev rename_found : List ℕ → Option ℕ → Exec (OathOf P) Sw
  rename_found new none s = (ok data_invalid, s)
  rename_found new (some k) s = rename_file k new (find_tag (contents s.fs k) tag_name) s

  -- The second name stands behind the first.
  unfoldable pub rename_to : List ℕ → Option (List ℕ) → Exec (OathOf P) Sw
  rename_to name none = return wrong_data
  rename_to name (some new) = λ s.
      return_if (eq_bytes name new) wrong_data (rename_found new (find_oath_cred P name s.fs)) s

  abbrev rename_at : List ℕ → Option (ℕ × ℕ) → Exec (OathOf P) Sw
  rename_at d none = return wrong_data
  rename_at d (some (at, len)) =
      rename_to (take len (drop at d)) (value P (drop (at + len) d) tag_name)

  -- `cmd_rename`. Of an APDU without data the code reads what was in the buffer, and answers the same.
  unfoldable pub cmd_rename : Apdu → Exec (OathOf P) Sw
  cmd_rename apdu s =
      return_if (not s.validated) security_status_not_satisfied
        (return_if (not (get_or apdu.bytes 0 0 == tag_name)) wrong_data
          (rename_at apdu.bytes (find_tag apdu.bytes tag_name)))
        s

  abbrev append_entry : ℕ → ℕ → List ℕ → Option (List ℕ) → Option (List ℕ)
  append_entry buffer tag response none = some response
  append_entry buffer tag response (some bytes) = append_tag buffer response tag bytes

  -- The entries of these tags, in this order, or the answer at the first that has no room
  unfoldable pub append_entries : ℕ → List ℕ → List ℕ → List ℕ → Bool × List ℕ
  append_entries buffer d [] response = (true, response)
  append_entries buffer d (tag ∷ tags) response =
      elim (append_entry buffer tag response (value P d tag)) [
        | none ↦ (false, response)
        | some r ↦ append_entries buffer d tags r
      ]

  abbrev pub shown_tags : List ℕ
  shown_tags = tag_name ∷ (0x83 ∷ (0x84 ∷ (0x85 ∷ (0x78 ∷ []))))

  abbrev answered : Bool × List ℕ → Exec (OathOf P) Sw
  answered (true, r) s = (ok ok_sw, record s { response = r })
  answered (false, r) s = (ok wrong_length, record s { response = r })

  abbrev get_found : ℕ → Option ℕ → Exec (OathOf P) Sw
  get_found buffer none s = (ok data_invalid, s)
  get_found buffer (some k) s =
      answered (append_entries buffer (contents s.fs k) shown_tags s.response) s

  -- `cmd_get_credential`, with USB_BUFFER_SIZE
  unfoldable pub cmd_get_credential : ℕ → Apdu → Exec (OathOf P) Sw
  cmd_get_credential buffer apdu s =
      return_if (not s.validated) security_status_not_satisfied
        (return_if (ltb (length apdu.bytes) 3) incorrect_params (
          return_if (not (get_or apdu.bytes 0 0 == tag_name)) wrong_data
            (elim (value P apdu.bytes tag_name) [
              | none ↦ return wrong_data
              | some name ↦ λ t. get_found buffer (find_oath_cred P name t.fs) t
            ])))
        s
