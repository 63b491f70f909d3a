-- ===== src/Shell/Pump.antt =====
-- What the two readers of shell.rs keep of a stream and send of it.
use synth_hires_bridge.Prelude.{
  ℕ, ◌+◌, ◌*◌, ◌≤◌, String, Bool, true, false, ◌≡◌, refl, ap, sym, ◌∙◌, ◌⊎◌, inl, inr, List, [],
  ◌∷◌, ◌++◌, arith, length, length-append, Bool-cases, if◌then◌else◌, ◌==◌, subst,
}
use synth_hires_bridge.Prelude.Chars.{utf8_len, utf8_len-append}
use synth_hires_bridge.Shell.Buffer.{
  cut, utf8_len-cut, utf8_len-cut-ge, push_capped-full, push_capped_cases,
}
use synth_hires_bridge.Shell.{
  ShellOutputChunk, Sender, Reader, max_output_bytes, push_capped, LineRead, got_line, lost_line,
  read_line, read_lines, after_push, batch, stop_stream, pump, finish, send, flush,
  stream_flush_bytes,
}

-- A send takes the channel one chunk further, or fails.
send-le :
    (tx : Sender) (chunk : ShellOutputChunk)
    → length (send tx chunk).1.received ≤ length tx.received + 1
unfolding send
send-le tx chunk = elim (Bool-cases (tx.left == 0)) [
  | inl gone ↦ rw gone (omega arith)
  | inr there ↦ rw there (omega (arith, length-append tx.received (chunk ∷ [])))
]

module _ (channel : String) (n : ℕ) where
  -- While nothing is dropped, each chunk sent stands for 8192 bytes of the buffer.
  abbrev pub Open : Reader → Type 0
  Open r =
      (r.dropped ≡ false)
      × (r.stream_stopped ≡ false)
      × (utf8_len r.buffer ≤ max_output_bytes)
      × (stream_flush_bytes * length r.tx.received + utf8_len r.pending
          ≤ stream_flush_bytes * n + utf8_len r.buffer)

  abbrev pub Shut : Reader → Type 0
  Shut r =
      (r.dropped ≡ true)
      × (r.stream_stopped ≡ true)
      × (r.pending ≡ [])
      × (max_output_bytes ≤ utf8_len r.buffer)
      × (utf8_len r.buffer ≤ 16777260)
      × (length r.tx.received ≤ n + 514)

  abbrev pub Counted : Reader → Type 0
  Counted r = Open r ⊎ Shut r

  pub flush-le :
      (tx : Sender) (pending : List ℕ)
      → length (flush channel tx pending).received ≤ length tx.received + 1
  unfolding flush
  flush-le tx [] = omega arith
  flush-le tx (c ∷ text) = send-le tx _

  stop_stream-le :
      (r : Reader) → length (stop_stream channel r).tx.received ≤ length r.tx.received + 2
  unfolding stop_stream
  stop_stream-le r =
      omega (arith, flush-le r.tx r.pending, send-le (flush channel r.tx r.pending) _)

  pub batch-Open :
      (r : Reader) (pending : List ℕ)
      → Open (record r { pending = pending })
      → Open (batch channel r pending).1
  unfolding batch utf8_len
  batch-Open r pending h =
      ground (arith, send-le r.tx (record { channel = channel; text = pending }))

  pub stop_stream-Shut :
      (r : Reader)
      → r.dropped ≡ true
      → max_output_bytes ≤ utf8_len r.buffer
      → utf8_len r.buffer ≤ 16777260
      → length r.tx.received ≤ n + 512
      → Shut (stop_stream channel r)
  unfolding stop_stream
  stop_stream-Shut r d f b k = (
    d,
    refl,
    refl,
    f,
    b,
    omega (arith, flush-le r.tx r.pending, send-le (flush channel r.tx r.pending) _),
  )

  pub after_push-open :
      (r : Reader) (text : List ℕ)
      → r.dropped ≡ false
      → after_push channel r text ≡ batch channel r (r.pending ++ text)
  unfolding after_push
  after_push-open r text h =
      ap
        (λ b.
          if b
          then (true, if r.stream_stopped then r else stop_stream channel r)
          else batch channel r (r.pending ++ text))
        h

  pub after_push-stop :
      (r : Reader) (text : List ℕ)
      → r.dropped ≡ true
      → r.stream_stopped ≡ false
      → after_push channel r text ≡ (true, stop_stream channel r)
  unfolding after_push
  after_push-stop r text d s =
      ap
        (λ b.
          if b
          then (true, if r.stream_stopped then r else stop_stream channel r)
          else batch channel r (r.pending ++ text))
        d
      ∙ ap (λ (b : Bool). (true, if b then r else stop_stream channel r)) s

  after_push-drain :
      (r : Reader) (text : List ℕ)
      → r.dropped ≡ true
      → r.stream_stopped ≡ true
      → after_push channel r text ≡ (true, r)
  unfolding after_push
  after_push-drain r text d s =
      ap
        (λ b.
          if b
          then (true, if r.stream_stopped then r else stop_stream channel r)
          else batch channel r (r.pending ++ text))
        d
      ∙ ap (λ (b : Bool). (true, if b then r else stop_stream channel r)) s

  batched-Counted :
      (r : Reader) (text : List ℕ)
      → Open (record r { pending = r.pending ++ text })
      → Counted (after_push channel r text).1
  batched-Counted r text h =
      subst (λ after. Counted after.1) (sym (after_push-open r text h.0))
        (inl (batch-Open r (r.pending ++ text) h))

  stopped-Counted :
      (r : Reader) (text : List ℕ)
      → r.dropped ≡ true
      → r.stream_stopped ≡ false
      → max_output_bytes ≤ utf8_len r.buffer
      → utf8_len r.buffer ≤ 16777260
      → length r.tx.received ≤ n + 512
      → Counted (after_push channel r text).1
  stopped-Counted r text d s f b k =
      subst (λ after. Counted after.1) (sym (after_push-stop r text d s))
        (inr (stop_stream-Shut r d f b k))

  read_line-Open : (r : Reader) (line : List ℕ) → Open r → Counted (read_line channel r line).1
  unfolding read_line
  read_line-Open r line h =
      let text = line ++ 10 ∷ [] in
      let sent : length r.tx.received ≤ n + 512 = omega (arith, h.2, h.3) in
      elim (push_capped_cases r.buffer text r.dropped) [
        | inl (room, e) ↦ rw e (
            batched-Counted (record r { buffer = r.buffer ++ text }) text
              (
                h.0,
                h.1,
                omega (arith, utf8_len-append r.buffer text),
                omega (arith, h.3, utf8_len-append r.buffer text, utf8_len-append r.pending text),
              ))
        | inr (inl (room, over, e)) ↦ rw e (
            stopped-Counted (record r { buffer = cut r.buffer text; dropped = true }) text refl h.1
              (utf8_len-cut-ge r.buffer text over) (omega (arith, utf8_len-cut r.buffer text)) sent)
        | inr (inr (full, e)) ↦ rw e (
            stopped-Counted (record r { buffer = r.buffer; dropped = true }) text refl h.1 full
              (omega (arith, h.2)) sent)
      ]

  -- Past the limit a line changes nothing.
  pub read_line-Shut : (r : Reader) (line : List ℕ) → Shut r → read_line channel r line ≡ (true, r)
  unfolding read_line
  read_line-Shut r line h =
      let same : push_capped (r.buffer, r.dropped) (line ++ 10 ∷ []) ≡ (r.buffer, r.dropped) =
        push_capped-full r.buffer (line ++ 10 ∷ []) r.dropped h.3
        ∙ ap (λ d. (r.buffer, d)) (sym h.0) in
      ap
        (λ pushed.
          after_push channel (record r { buffer = pushed.0; dropped = pushed.1 }) (line ++ 10 ∷ []))
        same
      ∙ after_push-drain r (line ++ 10 ∷ []) h.0 h.1

  pub read_line-Counted :
      (r : Reader) (line : List ℕ) → Counted r → Counted (read_line channel r line).1
  read_line-Counted r line (inl h) = read_line-Open r line h
  read_line-Counted r line (inr h) =
      subst (λ after. Counted after.1) (sym (read_line-Shut r line h)) (inr h)

  read_lines-Counted :
      (r : Reader) (reads : List LineRead) → Counted r → Counted (read_lines channel r reads)
  unfolding read_lines
  read_lines-Counted r [] h = h
  read_lines-Counted r (lost_line ∷ reads) h = h
  read_lines-Counted r (got_line text ∷ reads) h =
      let next = read_line-Counted r text h in
      elim (Bool-cases (read_line channel r text).0) [
        | inl on ↦ rw (on, read_lines) (read_lines-Counted (read_line channel r text).1 reads next)
        | inr off ↦ rw (off, read_lines) next
      ]

-- Whatever a command writes, each of its streams becomes 514 chunks at most, and 16,777,260 bytes of it
-- are kept at most.
pub pump_bounds :
    (channel : String) (tx : Sender) (reads : List LineRead)
    → (length (pump channel tx reads).tx.received ≤ length tx.received + 514)
      × (utf8_len (pump channel tx reads).buffer ≤ 16777260)
unfolding pump finish flush utf8_len
pump_bounds channel tx reads =
    let start : Reader = record {
      buffer = [];
      dropped = false;
      pending = [];
      stream_stopped = false;
      tx = tx;
    } in
    let end = read_lines channel start reads in
    elim (read_lines-Counted channel (length tx.received) start reads
      (inl (refl, refl, omega arith, omega arith))) [
        | inl h ↦ (
          omega (arith, h.2, h.3, flush-le channel (length tx.received) end.tx end.pending),
          omega (arith, h.2),
        )
        | inr h ↦ (
          subst
              (λ pending. length (flush channel end.tx pending).received ≤ length tx.received + 514)
              (sym h.2) h.5,
          h.4,
        )
      ]
