-- ===== src/Otp/Hid/Receive.antt =====
-- A frame that comes in ten reports.
use fido_touch.Prelude.{
  ℕ, zero, suc, ◌+◌, ◌-◌, ◌*◌, ◌<◌, ◌≡◌, ◌⊎◌, inl, inr, refl, sym, ap, subst, ◌∙◌, Bool, true,
  false, not, ◌&&◌, List, [], ◌∷◌, ◌++◌, length, length-take, length-drop, take, take-append,
  take_self, drop, replicate, get_or, arith, ltb, ◌==◌, if◌then◌else◌, append_assoc, drop-append,
  drop-replicate, take_add, get_or-append, append-nil, Bool-cases, ==_iff, bit_and, has_bits,
}
use fido_touch.Exec.{Exec, Result, ok}
use fido_touch.Platform.{Platform}
use fido_touch.Otp.{overlay}
use fido_touch.Otp.Crc.{every, every_lem}
use fido_touch.Otp.Hid.{HidOf, frame_size, deliver, receive_piece, set_report}

-- The report with the piece `i` of a frame
abbrev pub report_of : ℕ → List ℕ → List ℕ
report_of i frame = take 7 (drop (7 * i) frame) ++ ((0x80 + i) ∷ [])

-- What stands in the buffer after `k` pieces
abbrev partial : ℕ → List ℕ → List ℕ
partial k frame = take (7 * k) frame ++ replicate (frame_size - 7 * k) 0

overlay-partial :
    (k : ℕ) (frame : List ℕ)
    → length frame ≡ frame_size
    → k < 10
    → overlay (7 * k) (take 7 (drop (7 * k) frame)) (partial k frame) ≡ partial (suc k) frame
unfolding overlay
overlay-partial k frame len lt =
    let before : length (take (7 * k) frame) ≡ 7 * k =
      omega (arith, length-take (7 * k) frame, len) in
    let piece : length (take 7 (drop (7 * k) frame)) ≡ 7 =
      omega (arith, length-take 7 (drop (7 * k) frame), length-drop (7 * k) frame, len) in
    let left : frame_size - 7 * k - 7 ≡ frame_size - 7 * suc k = omega arith in
    let next : 7 * k + 7 ≡ 7 * suc k = omega arith in
    rw
      (
        take-append (take (7 * k) frame) (replicate (frame_size - 7 * k) 0) before,
        piece,
        drop-append (take (7 * k) frame) (replicate (frame_size - 7 * k) 0) 7 before,
        drop-replicate {A = ℕ} (frame_size - 7 * k) 7 0,
        left,
      )
      (sym (
          append_assoc (take (7 * k) frame) (take 7 (drop (7 * k) frame))
            (replicate (frame_size - 7 * suc k) 0))
        ∙ ap (λ l. l ++ replicate (frame_size - 7 * suc k) 0)
            (take_add (7 * k) 7 frame ∙ ap (λ n. take n frame) next))

-- The last byte of a report
abbrev reads : ℕ → Bool
reads i = not (0x80 + i == 0xff) && has_bits (0x80 + i) 0x80 && bit_and (0x80 + i) 0x1f == i

reads_all : every reads 10 ≡ true
unfolding every
reads_all = refl

module _ (P : Platform) where
  abbrev next_piece : Result ℕ × HidOf P → (HidOf P → Result ℕ × HidOf P) → Result ℕ × HidOf P
  next_piece (ok v, t) rest = rest t
  next_piece (r, t) rest = (r, t)

  -- The piece `i` of a frame and the `n` pieces behind it; one that fails ends the frame.
  unfoldable pub receive : Bool → List ℕ → ℕ → ℕ → Exec (HidOf P) ℕ
  receive refused frame zero i h = set_report P refused 3 (report_of i frame) h
  receive refused frame (suc n) i h =
      next_piece (set_report P refused 3 (report_of i frame) h) (receive refused frame n (suc i))

  set_report-piece :
      (refused : Bool) (frame : List ℕ) (i : ℕ) (h : HidOf P)
      → length frame ≡ frame_size
      → i < 10
      → set_report P refused 3 (report_of i frame) h
        ≡ receive_piece P refused i (take 7 (drop (7 * i) frame)) h
  unfolding set_report
  set_report-piece refused frame i h len lt =
      let piece : length (take 7 (drop (7 * i) frame)) ≡ 7 =
        omega (arith, length-take 7 (drop (7 * i) frame), length-drop (7 * i) frame, len) in
      let last : get_or (report_of i frame) 7 0 ≡ 0x80 + i =
        get_or-append (take 7 (drop (7 * i) frame)) (0x80 + i) 0 [] piece in
      let body : take 7 (report_of i frame) ≡ take 7 (drop (7 * i) frame) =
        take-append (take 7 (drop (7 * i) frame)) ((0x80 + i) ∷ []) piece in
      let test = every_lem reads 10 i reads_all lt in
      let seq : bit_and (0x80 + i) 0x1f ≡ i = ground (arith, test) in
      let t1 : (0x80 + i == 0xff) ≡ false = ground (arith, test) in
      let t2 : has_bits (0x80 + i) 0x80 ≡ true = ground (arith, test) in
      rw (last, t1, t2, body, seq) refl

  -- What the pieces before the last leave
  Collected : List ℕ → ℕ → HidOf P → Type 0
  Collected frame i h = (i ≡ 0) ⊎ (h.rx ≡ partial i frame)

  start_zero :
      (frame : List ℕ) (i : ℕ) (h : HidOf P)
      → i ≡ 0
      → (if i == 0 then replicate frame_size 0 else h.rx) ≡ partial i frame
  start_zero frame i h e =
      subst (λ k. (if k == 0 then replicate frame_size 0 else h.rx) ≡ partial k frame) (sym e) refl

  start-Collected :
      (frame : List ℕ) (i : ℕ) (h : HidOf P)
      → Collected frame i h
      → (if i == 0 then replicate frame_size 0 else h.rx) ≡ partial i frame
  unfolding Collected
  start-Collected frame i h (inl e) = start_zero frame i h e
  start-Collected frame i h (inr e) = elim (Bool-cases (i == 0)) [
    | inl t ↦ start_zero frame i h ((==_iff i 0).0 t)
    | inr f ↦ rw f e
  ]

  overlay-Collected :
      (frame : List ℕ) (i : ℕ) (h : HidOf P)
      → length frame ≡ frame_size
      → i < 10
      → Collected frame i h
      → overlay
          (i * 7)
          (take 7 (drop (7 * i) frame))
          (if i == 0 then replicate frame_size 0 else h.rx)
        ≡ partial (suc i) frame
  overlay-Collected frame i h len lt c =
      let flip : i * 7 ≡ 7 * i = omega arith in
      rw (start-Collected frame i h c, flip) (overlay-partial i frame len lt)

  receive_piece-early :
      (refused : Bool) (frame : List ℕ) (i : ℕ) (h : HidOf P)
      → length frame ≡ frame_size
      → i < 9
      → Collected frame i h
      → receive_piece P refused i (take 7 (drop (7 * i) frame)) h
        ≡ (ok 1, record h { rx = partial (suc i) frame })
  unfolding receive_piece
  receive_piece-early refused frame i h len lt c =
      let small : ltb i 10 ≡ true = ground arith in
      let early : (i == 9) ≡ false = ground arith in
      rw (overlay-Collected frame i h len (omega arith) c, small, early) refl

  receive_piece-last :
      (refused : Bool) (frame : List ℕ) (h : HidOf P)
      → length frame ≡ frame_size
      → Collected frame 9 h
      → receive_piece P refused 9 (take 7 (drop (7 * 9) frame)) h
        ≡ deliver P refused frame (record h { rx = frame })
  unfolding receive_piece
  receive_piece-last refused frame h len c =
      let whole : partial 10 frame ≡ frame = append-nil (take 70 frame) ∙ take_self frame len in
      ap (λ rx. deliver P refused rx (record h { rx = rx }))
        (overlay-Collected frame 9 h len (omega arith) c ∙ whole)

  receive_from :
      (refused : Bool) (frame : List ℕ) (n i : ℕ) (h : HidOf P)
      → length frame ≡ frame_size
      → i + n ≡ 9
      → Collected frame i h
      → receive refused frame n i h ≡ deliver P refused frame (record h { rx = frame })
  unfolding receive Collected
  receive_from refused frame zero i h len e c =
      let last : i ≡ 9 = omega (arith, e) in
      set_report-piece refused frame i h len (omega (arith, e))
      ∙ subst
          (λ k.
            Collected frame k h
            → receive_piece P refused k (take 7 (drop (7 * k) frame)) h
              ≡ deliver P refused frame (record h { rx = frame }))
          (sym last) (receive_piece-last refused frame h len) c
  receive_from refused frame (suc n) i h len e c =
      let step =
        set_report-piece refused frame i h len (omega (arith, e))
        ∙ receive_piece-early refused frame i h len (omega (arith, e)) c in
      ap (λ r. next_piece r (receive refused frame n (suc i))) step
      ∙ receive_from refused frame n (suc i) (record h { rx = partial (suc i) frame }) len
          (omega (arith, e)) (inr refl)

  -- The ten reports of a frame of 70 bytes do what the frame does at once, whatever was received
  -- before.
  pub receive-deliver :
      (refused : Bool) (frame : List ℕ) (h : HidOf P)
      → length frame ≡ frame_size
      → receive refused frame 9 0 h ≡ deliver P refused frame (record h { rx = frame })
  unfolding Collected
  receive-deliver refused frame h len = receive_from refused frame 9 0 h len refl (inl refl)
