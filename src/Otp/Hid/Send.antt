-- ===== src/Otp/Hid/Send.antt =====
-- A frame that is sent, and a host that goes on reading reports.
use fido_touch.Prelude.{
  ℕ, zero, suc, ◌+◌, ◌-◌, ◌*◌, ◌%◌, ◌≤◌, ◌<◌, ◌≡◌, ◌≢◌, refl, sym, ap, subst, ◌∙◌, true, false,
  List, [], ◌∷◌, ◌++◌, length, length-append, length-take, length-drop, take, take-append, take_add,
  drop, replicate, append_assoc, arith, ltb, ◌==◌, min, leb, bit_or, take_add-append, drop_add,
  length-replicate, Bool-cases, inl, inr, append-nil,
}
use fido_touch.Exec.{Exec, Result, ok}
use fido_touch.Platform.{Platform}
use fido_touch.Otp.{overlay}
use fido_touch.Otp.Crc.{calculate_crc, complement}
use fido_touch.Otp.Hid.{HidOf, frame_size, send_frame, get_report}

-- A piece of at most seven bytes, filled up with zeros, and what the host reads behind it
piece_data :
    (m : ℕ) (xs d : List ℕ)
    → m ≤ length xs
    → take (m - min 7 m) d ≡ take (m - min 7 m) (drop 7 xs)
    → take m ((take (min 7 m) xs ++ replicate (7 - min 7 m) 0) ++ d) ≡ take m xs
piece_data m xs d room h = elim (Bool-cases (leb m 7)) [
  | inl small ↦
      let k : min 7 m ≡ m = ground arith in
      let len : length (take m xs) ≡ m = omega (arith, length-take m xs) in
      rw k (
        ap (take m) (append_assoc (take m xs) (replicate (7 - m) 0) d)
        ∙ take-append (take m xs) (replicate (7 - m) 0 ++ d) len)
  | inr big ↦
      let k : min 7 m ≡ 7 = ground arith in
      let sum : m ≡ 7 + (m - 7) = ground arith in
      let len : length (take 7 xs) ≡ 7 = ground (arith, length-take 7 xs) in
      let rest : take (m - 7) d ≡ take (m - 7) (drop 7 xs) =
        subst (λ j. take (m - j) d ≡ take (m - j) (drop 7 xs)) k h in
      rw k (
        ap (λ l. take m (l ++ d)) (append-nil (take 7 xs))
        ∙ ap (λ j. take j (take 7 xs ++ d)) sum
        ∙ take_add-append (take 7 xs) d (m - 7) len
        ∙ ap (λ l. take 7 xs ++ l) rest
        ∙ take_add 7 (m - 7) xs
        ∙ ap (λ j. take j xs) (sym sum))
]

module _ (P : Platform) where
  open P use {Fs, Rng}

  abbrev joined : List ℕ → Result (List ℕ) × HidOf P → Result (List ℕ) × HidOf P
  joined d (ok rest, t) = (ok (d ++ rest), t)
  joined d (r, t) = (r, t)

  abbrev read_next :
      Result (List ℕ) × HidOf P → (HidOf P → Result (List ℕ) × HidOf P) → Result (List ℕ) × HidOf P
  read_next (ok r, t) rest = joined (take 7 r) (rest t)
  read_next (r, t) rest = (r, t)

  -- The host reads `n` reports, and joins their first seven bytes.
  unfoldable pub read_reports : List ℕ → ℕ → Exec (HidOf P) (List ℕ)
  read_reports buffer zero h = (ok [], h)
  read_reports buffer (suc n) h = read_next (get_report P buffer h) (read_reports buffer n)

  abbrev piece : HidOf P → List ℕ
  piece h = take (min 7 h.send_size) (drop (7 * h.curr_seq) h.tx)

  abbrev later : HidOf P → HidOf P
  later h = record h { curr_seq = h.curr_seq + 1; send_size = h.send_size - min 7 h.send_size }

  get_report-piece :
      (buffer : List ℕ) (h : HidOf P)
      → 0 < h.send_size
      → 7 * h.curr_seq + min 7 h.send_size ≤ length h.tx
      → h.curr_seq < 255
      → get_report P buffer h ≡ (
        ok (piece h ++ (replicate (7 - min 7 h.send_size) 0 ++ (bit_or 0x40 h.curr_seq ∷ []))),
        later h,
      )
  unfolding get_report
  get_report-piece buffer h some room seq =
      let t1 : ltb 0 h.send_size ≡ true = ground arith in
      let t2 : ltb (length h.tx) (7 * h.curr_seq + min 7 h.send_size) ≡ false = ground arith in
      let t3 : (h.curr_seq + 1) % 256 ≡ h.curr_seq + 1 = omega arith in rw (t1, t2, t3) refl

  length-piece :
      (h : HidOf P)
      → 7 * h.curr_seq + min 7 h.send_size ≤ length h.tx
      → length (piece h) ≡ min 7 h.send_size
  length-piece h room = omega (
    arith,
    length-take (min 7 h.send_size) (drop (7 * h.curr_seq) h.tx),
    length-drop (7 * h.curr_seq) h.tx,
  )

  -- What the host has of a frame, of which `m` bytes are left at `at`, when it has read them
  unfoldable Reads : List ℕ → ℕ → HidOf P → Type 0
  Reads buffer n h =
      (d : List ℕ) × (read_reports buffer n h
        ≡ (ok d, record h { curr_seq = h.curr_seq + n; send_size = 0 }))
      × (take h.send_size d ≡ take h.send_size (drop (7 * h.curr_seq) h.tx))

  Reads-step :
      (buffer : List ℕ) (n : ℕ) (h : HidOf P)
      → h.send_size ≤ length h.tx - 7 * h.curr_seq
      → h.curr_seq < 255
      → 0 < h.send_size
      → Reads buffer n (later h)
      → Reads buffer (suc n) h
  unfolding Reads read_reports
  Reads-step buffer n h room seq more (d, e, t) =
      let space : 7 * h.curr_seq + min 7 h.send_size ≤ length h.tx = omega arith in
      let first = get_report-piece buffer h more space seq in
      let pad = replicate {A = ℕ} (7 - min 7 h.send_size) 0 in
      let tail = bit_or 0x40 h.curr_seq ∷ [] in
      let seven : length (piece h ++ pad) ≡ 7 = omega (
        arith,
        length-append (piece h) pad,
        length-piece h space,
        length-replicate {A = ℕ} (7 - min 7 h.send_size) 0,
      ) in
      let front : take 7 (piece h ++ (pad ++ tail)) ≡ piece h ++ pad =
        ap (take 7) (sym (append_assoc (piece h) pad tail))
        ∙ take-append (piece h ++ pad) tail seven in
      let count : h.curr_seq + 1 + n ≡ h.curr_seq + suc n = omega arith in
      let room_left : h.send_size ≤ length (drop (7 * h.curr_seq) h.tx) =
        omega (arith, length-drop (7 * h.curr_seq) h.tx) in
      let next : drop (7 * (h.curr_seq + 1)) h.tx ≡ drop 7 (drop (7 * h.curr_seq) h.tx) =
        ap (λ k. drop k h.tx) (times h.curr_seq) ∙ drop_add (7 * h.curr_seq) 7 h.tx in
      (
        (piece h ++ pad) ++ d,
        ap (λ r. read_next r (read_reports buffer n)) first
            ∙ ap (joined (take 7 (piece h ++ (pad ++ tail)))) e
            ∙ ap (λ l. (ok (l ++ d), record h { curr_seq = h.curr_seq + 1 + n; send_size = 0 }))
                front
            ∙ ap (λ k. (ok ((piece h ++ pad) ++ d), record h { curr_seq = k; send_size = 0 }))
                count,
        piece_data h.send_size (drop (7 * h.curr_seq) h.tx) d room_left
            (t ∙ ap (take (h.send_size - min 7 h.send_size)) next),
      )
    where
      times : (c : ℕ) → 7 * (c + 1) ≡ 7 * c + 7
      times c = omega arith

  reads :
      (buffer : List ℕ) (n : ℕ) (h : HidOf P)
      → h.send_size ≤ length h.tx - 7 * h.curr_seq
      → h.curr_seq + n ≤ 255
      → h.send_size ≤ 7 * n
      → 7 * n < h.send_size + 7
      → Reads buffer n h
  unfolding Reads read_reports
  reads buffer zero h room seq le lt =
      let none_left : 0 ≡ h.send_size = omega (arith, le) in
      let same : h.curr_seq ≡ h.curr_seq + 0 = omega arith in
      (
        [],
        ap (λ k. (ok [], record h { curr_seq = k })) same
            ∙ ap (λ m. (ok [], record h { curr_seq = h.curr_seq + 0; send_size = m }))
                (sym none_left),
        subst (λ m. take m [] ≡ take m (drop (7 * h.curr_seq) h.tx)) none_left refl,
      )
  reads buffer (suc n) h room seq le lt =
      Reads-step buffer n h room (omega arith) (omega arith)
        (reads buffer n (later h) (omega arith) (omega arith) (omega arith) (omega arith))

  abbrev pub frame : ℕ → HidOf P → List ℕ
  frame len h = take len h.tx ++ complement (calculate_crc (take len h.tx))

  sent-tx :
      (len : ℕ) (h : HidOf P)
      → length h.tx ≡ frame_size
      → len + 2 ≤ frame_size
      → (length (send_frame P len h).tx ≡ frame_size)
        × (take (len + 2) (send_frame P len h).tx ≡ frame len h)
  unfolding send_frame overlay
  sent-tx len h size room =
      let crc = complement (calculate_crc (take len h.tx)) in
      let head : length (take len h.tx) ≡ len = omega (arith, length-take len h.tx, size) in
      let both : length (frame len h) ≡ len + 2 =
        omega (arith, length-append (take len h.tx) crc, head) in
      let split = append_assoc (take len h.tx) crc (drop (len + 2) h.tx) in
      (
        omega (
          arith,
          length-append (take len h.tx) (crc ++ drop (len + 2) h.tx),
          length-append crc (drop (len + 2) h.tx),
          length-drop (len + 2) h.tx,
          head,
          size,
        ),
        ap (take (len + 2)) (sym split) ∙ take-append (frame len h) (drop (len + 2) h.tx) both,
      )

  get_report-end :
      (buffer : List ℕ) (h : HidOf P)
      → h.send_size ≡ 0
      → h.curr_seq ≡ h.exp_seq
      → h.exp_seq ≢ 0
      → get_report P buffer h
        ≡ (ok (replicate 7 0 ++ (0x40 ∷ [])), record h { curr_seq = 0; exp_seq = 0 })
  unfolding get_report
  get_report-end buffer h none_left all some =
      let t1 : ltb 0 h.send_size ≡ false = ground (arith, none_left) in
      let t2 : (h.curr_seq == h.exp_seq) ≡ true = ground (arith, all) in
      let t3 : ltb 0 h.exp_seq ≡ true = ground (arith, some) in rw (t1, t2, t3) refl

  exp_seq_lem :
      (len : ℕ) (h : HidOf P)
      → len + 2 ≤ frame_size
      → (0 < (send_frame P len h).exp_seq)
        × ((send_frame P len h).exp_seq ≤ 255)
        × (len + 2 ≤ 7 * (send_frame P len h).exp_seq)
        × (7 * (send_frame P len h).exp_seq < len + 2 + 7)
  unfolding send_frame
  exp_seq_lem len h room = (ground arith, ground arith, ground arith, ground arith)

  -- A host that reads as many reports as a frame was announced with has the frame, its CRC behind it,
  -- and the report after these says that it is complete; no byte is read behind the buffer.
  pub send_frame-get_report :
      (buffer : List ℕ) (len : ℕ) (h : HidOf P)
      → length h.tx ≡ frame_size
      → len + 2 ≤ frame_size
      → (d : List ℕ) × (u : HidOf P) × (read_reports buffer
            (send_frame P len h).exp_seq
            (send_frame P len h)
          ≡ (ok d, u))
        × (take (len + 2) d ≡ frame len h)
        × (get_report P buffer u
            ≡ (ok (replicate 7 0 ++ (0x40 ∷ [])), record u { curr_seq = 0; exp_seq = 0 }))
  unfolding Reads send_frame
  send_frame-get_report buffer len h size room =
      let t = send_frame P len h in
      let (size', cut) = sent-tx len h size room in
      let (some, seq, le, lt) = exp_seq_lem len h room in
      let (d, run, same) =
        reads buffer t.exp_seq t (omega (arith, size')) (omega (arith, seq)) le lt in
      let u = record t { curr_seq = t.curr_seq + t.exp_seq; send_size = 0 } in
      (
        d,
        u,
        run,
        same ∙ cut,
        get_report-end buffer u refl (omega arith) (λ e. absurd (omega (arith, e, some))),
      )
