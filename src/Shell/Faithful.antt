-- ===== src/Shell/Faithful.antt =====
-- The stream that a reader of shell.rs sends is the lines that could be read, up to the point
-- of truncation.
use mathlib.Core.List.{append_assoc, append-nil}
use synth_hires_bridge.Prelude.{
  ℕ, ◌+◌, ◌≤◌, String, Bool, true, false, ◌≡◌, refl, ap, sym, ◌∙◌, ◌⊎◌, inl, inr, List, [], ◌∷◌,
  ◌++◌, arith, length, subst, map,
}
use synth_hires_bridge.Prelude.Chars.{utf8_len, utf8_len-append}
use synth_hires_bridge.Shell.{
  Sender, Reader, LineRead, got_line, lost_line, truncation_marker, max_output_bytes, read_line,
  read_lines, batch, stop_stream, pump, finish, flush,
}
use synth_hires_bridge.Shell.Buffer.{cut, utf8_len-cut, utf8_len-cut-ge, push_capped_cases}
use synth_hires_bridge.Shell.Pump.{
  Open, Shut, batch-Open, stop_stream-Shut, flush-le, after_push-open, after_push-stop,
  read_line-Shut,
}
use synth_hires_bridge.Shell.Stream.{
  texts, unlines, unlines-append, Sent-flush, Sent-stop_stream, Sent-batch,
}

readable : List LineRead → List (List ℕ)
readable [] = []
readable (lost_line ∷ reads) = []
readable (got_line line ∷ reads) = line ∷ readable reads

module _ (channel : String) (tx : Sender) (listening : 514 ≤ tx.left) where
  abbrev n : ℕ
  n = length tx.received

  -- Nothing is dropped: all that was read is kept, and all of it is sent or waits.
  abbrev Whole : List (List ℕ) → Reader → Type 0
  Whole done r =
      Open channel n r
      × (r.buffer ≡ unlines done)
      × (texts r.tx.received ++ r.pending ≡ texts tx.received ++ unlines done)
      × (length r.tx.received + r.tx.left ≡ n + tx.left)

  -- Some lines were sent whole, and the marker is all that follows them.
  abbrev Truncated : List (List ℕ) → Reader → Type 0
  Truncated done r =
      Shut channel n r
      × ((kept : List (List ℕ)) × (rest : List (List ℕ)) × (done ≡ kept ++ rest)
          × (texts r.tx.received ≡ texts tx.received ++ (unlines kept ++ truncation_marker)))

  abbrev Faithful : List (List ℕ) → Reader → Type 0
  Faithful done r = Whole done r ⊎ Truncated done r

  unlines-snoc :
      (done : List (List ℕ)) (line : List ℕ)
      → unlines (done ++ line ∷ []) ≡ unlines done ++ (line ++ 10 ∷ [])
  unlines-snoc done line =
      unlines-append done (line ∷ []) ∙ ap (λ t. unlines done ++ t) (append-nil (line ++ 10 ∷ []))

  -- The round in which the limit is passed.
  stopped-Truncated :
      (done : List (List ℕ)) (line buffer : List ℕ) (r : Reader)
      → Whole done r
      → max_output_bytes ≤ utf8_len buffer
      → utf8_len buffer ≤ 16777260
      → Truncated
          (done ++ line ∷ [])
          (stop_stream channel (record r { buffer = buffer; dropped = true }))
  stopped-Truncated done line buffer r h full bound =
      let sent : length r.tx.received ≤ n + 512 = omega (arith, h.0.2, h.0.3) in
      let stopped : Reader = record r { buffer = buffer; dropped = true } in
      let said =
        Sent-stop_stream channel stopped (omega (arith, h.3)) (flush-le channel n r.tx r.pending) in
      (
        stop_stream-Shut channel n stopped refl full bound sent,
        (
          done,
          line ∷ [],
          refl,
          said.said
              ∙ sym (append_assoc (texts r.tx.received) r.pending truncation_marker)
              ∙ ap (λ t. t ++ truncation_marker) h.2
              ∙ append_assoc (texts tx.received) (unlines done) truncation_marker,
        ),
      )

  -- A round in which the line fits.
  batched-Whole :
      (done : List (List ℕ)) (line : List ℕ) (r : Reader)
      → Whole done r
      → utf8_len r.buffer + utf8_len (line ++ 10 ∷ []) ≤ max_output_bytes
      → let after =
          batch channel
            (record r { buffer = r.buffer ++ (line ++ 10 ∷ []) })
            (r.pending ++ (line ++ 10 ∷ [])) in
        (after.0 ≡ true) × Whole (done ++ line ∷ []) after.1
  batched-Whole done line r h room =
      let text = line ++ 10 ∷ [] in
      let grown : Reader = record r { buffer = r.buffer ++ text } in
      let sent : length r.tx.received ≤ n + 512 = omega (arith, h.0.2, h.0.3) in
      let said = Sent-batch channel grown (r.pending ++ text) (omega (arith, h.3)) in
      (
        said.0,
        (
          batch-Open channel n grown (r.pending ++ text) (
            h.0.0,
            h.0.1,
            omega (arith, utf8_len-append r.buffer text),
            omega (arith, h.0.3, utf8_len-append r.buffer text, utf8_len-append r.pending text),
          ),
          said.3 ∙ ap (λ t. t ++ text) h.1 ∙ sym (unlines-snoc done line),
          said.1
              ∙ sym (append_assoc (texts r.tx.received) r.pending text)
              ∙ ap (λ t. t ++ text) h.2
              ∙ append_assoc (texts tx.received) (unlines done) text
              ∙ ap (λ t. texts tx.received ++ t) (sym (unlines-snoc done line)),
          said.2 ∙ h.3,
        ),
      )

  abbrev Goes : List (List ℕ) → Bool × Reader → Type 0
  Goes done after = (after.0 ≡ true) × Faithful done after.1

  read_line-Whole :
      (done : List (List ℕ)) (line : List ℕ) (r : Reader)
      → Whole done r
      → Goes (done ++ line ∷ []) (read_line channel r line)
  unfolding read_line
  read_line-Whole done line r h =
      let text = line ++ 10 ∷ [] in
      elim (push_capped_cases r.buffer text r.dropped) [
        | inl (room, e) ↦
            let after = batched-Whole done line r h room in
            rw e (
              subst (Goes (done ++ line ∷ []))
                (sym
                  (after_push-open channel n (record r { buffer = r.buffer ++ text }) text h.0.0))
                (after.0, inl after.1))
        | inr (inl (room, over, e)) ↦ rw e (
            subst (Goes (done ++ line ∷ []))
              (sym (
                after_push-stop channel n (record r { buffer = cut r.buffer text; dropped = true })
                  text refl h.0.1))
              (
                refl,
                inr (
                    stopped-Truncated done line (cut r.buffer text) r h
                      (utf8_len-cut-ge r.buffer text over)
                      (omega (arith, utf8_len-cut r.buffer text))),
              ))
        | inr (inr (full, e)) ↦ rw e (
            subst (Goes (done ++ line ∷ []))
              (sym (
                after_push-stop channel n (record r { buffer = r.buffer; dropped = true }) text refl
                  h.0.1))
              (refl, inr (stopped-Truncated done line r.buffer r h full (omega (arith, h.0.2)))))
      ]

  read_line-Faithful :
      (done : List (List ℕ)) (line : List ℕ) (r : Reader)
      → Faithful done r
      → Goes (done ++ line ∷ []) (read_line channel r line)
  read_line-Faithful done line r (inl h) = read_line-Whole done line r h
  read_line-Faithful done line r (inr (shut, (kept, rest, split, said))) =
      subst (Goes (done ++ line ∷ [])) (sym (read_line-Shut channel n r line shut)) (
        refl,
        inr (
          shut,
          (
            kept,
            rest ++ line ∷ [],
            ap (λ d. d ++ line ∷ []) split ∙ append_assoc kept rest (line ∷ []),
            said,
          ),
        ),
      )

  read_lines-Faithful :
      (done : List (List ℕ)) (reads : List LineRead) (r : Reader)
      → Faithful done r
      → Faithful (done ++ readable reads) (read_lines channel r reads)
  unfolding read_lines readable
  read_lines-Faithful done [] r h = subst (λ d. Faithful d r) (sym (append-nil done)) h
  read_lines-Faithful done (lost_line ∷ reads) r h =
      subst (λ d. Faithful d r) (sym (append-nil done)) h
  read_lines-Faithful done (got_line line ∷ reads) r h =
      let next = read_line-Faithful done line r h in
      rw (next.0, read_lines)
        (subst (λ d. Faithful d (read_lines channel (read_line channel r line).1 reads))
          (append_assoc done (line ∷ []) (readable reads))
          (read_lines-Faithful (done ++ line ∷ []) reads (read_line channel r line).1 next.1))

-- The lines in front of the first error, or all of them where there is none.
abbrev pub ReadableAs : List LineRead → List (List ℕ) → Type 0
ReadableAs reads lines =
    (reads ≡ map got_line lines)
    ⊎ ((rest : List LineRead) × (reads ≡ map got_line lines ++ lost_line ∷ rest))

readable-ReadableAs : (reads : List LineRead) → ReadableAs reads (readable reads)
unfolding readable
readable-ReadableAs [] = inl refl
readable-ReadableAs (lost_line ∷ reads) = inr (reads, refl)
readable-ReadableAs (got_line line ∷ reads) = elim (readable-ReadableAs reads) [
  | inl all ↦ inl (ap (λ t. got_line line ∷ t) all)
  | inr (rest, e) ↦ inr (rest, ap (λ t. got_line line ∷ t) e)
]

-- How the stream of a reader stands to the lines that it could read.
abbrev pub PumpOutcome : Sender → List LineRead → Reader → Type 0
PumpOutcome tx reads r =
    (lines : List (List ℕ)) × ReadableAs reads lines
    × (((r.dropped ≡ false)
          × (r.buffer ≡ unlines lines)
          × (texts r.tx.received ≡ texts tx.received ++ unlines lines))
        ⊎ ((r.dropped ≡ true)
            × ((kept : List (List ℕ)) × (rest : List (List ℕ)) × (lines ≡ kept ++ rest)
                × (texts r.tx.received
                    ≡ texts tx.received ++ (unlines kept ++ truncation_marker)))))

pub pump_faithful :
    (channel : String) (tx : Sender) (reads : List LineRead)
    → 514 ≤ tx.left
    → PumpOutcome tx reads (pump channel tx reads)
unfolding pump finish utf8_len flush
pump_faithful channel tx reads listening =
    let start : Reader = record {
      buffer = [];
      dropped = false;
      pending = [];
      stream_stopped = false;
      tx = tx;
    } in
    let end = read_lines channel start reads in
    (
      readable reads,
      readable-ReadableAs reads,
      elim (read_lines-Faithful channel tx listening [] reads start
          (inl ((refl, refl, omega arith, omega arith), refl, refl, refl))) [
            | inl h ↦ inl (
              h.0.0,
              h.1,
              (Sent-flush channel end.tx end.pending (omega (arith, h.0.2, h.0.3, h.3))).said ∙ h.2,
            )
            | inr (shut, (kept, rest, split, said)) ↦ inr (
              shut.0,
              (
                kept,
                rest,
                split,
                ap (λ pending. texts (flush channel end.tx pending).received) shut.2 ∙ said,
              ),
            )
          ],
    )
