-- ===== src/Shell/Stream.antt =====
-- The chunks that a reader of shell.rs sends, against the lines that it read.
use mathlib.Core.List.{append_assoc, append-nil}
use synth_hires_bridge.Prelude.{
  ℕ, ◌+◌, ◌≤◌, String, true, ◌≡◌, refl, ap, sym, ◌∙◌, inl, inr, List, [], ◌∷◌, ◌++◌, arith, length,
  length-append, Bool-cases, leb, ◌==◌,
}
use synth_hires_bridge.Prelude.Chars.{utf8_len}
use synth_hires_bridge.Shell.{
  ShellOutputChunk, Sender, Reader, truncation_marker, batch, stop_stream, send, flush,
  stream_flush_bytes,
}

-- What the receiver reads, chunk after chunk.
abbrev pub texts : List ShellOutputChunk → List ℕ
texts [] = []
texts (c ∷ chunks) = c.text ++ texts chunks

-- The lines with their line feeds.
abbrev pub unlines : List (List ℕ) → List ℕ
unlines [] = []
unlines (line ∷ lines) = (line ++ 10 ∷ []) ++ unlines lines

pub texts-append : (xs ys : List ShellOutputChunk) → texts (xs ++ ys) ≡ texts xs ++ texts ys
texts-append [] ys = refl
texts-append (c ∷ xs) ys =
    ap (λ t. c.text ++ t) (texts-append xs ys) ∙ sym (append_assoc c.text (texts xs) (texts ys))

pub unlines-append : (xs ys : List (List ℕ)) → unlines (xs ++ ys) ≡ unlines xs ++ unlines ys
unlines-append [] ys = refl
unlines-append (c ∷ xs) ys =
    ap (λ t. (c ++ 10 ∷ []) ++ t) (unlines-append xs ys)
    ∙ sym (append_assoc (c ++ 10 ∷ []) (unlines xs) (unlines ys))

-- The text is behind what the receiver had, and the chunks that it takes are counted.
pub record Sent (tx after : Sender) (text : List ℕ) : Type 0 where
  pub said : texts after.received ≡ texts tx.received ++ text
  pub counted : length after.received + after.left ≡ length tx.received + tx.left

pub Sent-send :
    (tx : Sender) (chunk : ShellOutputChunk)
    → 1 ≤ tx.left
    → ((send tx chunk).0 ≡ true) × Sent tx (send tx chunk).1 chunk.text
unfolding send
Sent-send tx chunk room = elim (Bool-cases (tx.left == 0)) [
  | inl gone ↦ absurd (ground arith)
  | inr there ↦ rw there (
    refl,
    record {
      said =
          texts-append tx.received (chunk ∷ [])
          ∙ ap (λ t. texts tx.received ++ t) (append-nil chunk.text);
      counted = omega (arith, length-append tx.received (chunk ∷ []));
    },
  )
]

Sent-trans : (a b c : Sender) (s t : List ℕ) → Sent a b s → Sent b c t → Sent a c (s ++ t)
Sent-trans a b c s t h k = record {
  said = k.said ∙ ap (λ x. x ++ t) h.said ∙ append_assoc (texts a.received) s t;
  counted = k.counted ∙ h.counted;
}

module _ (channel : String) where
  pub Sent-flush :
      (tx : Sender) (pending : List ℕ) → 1 ≤ tx.left → Sent tx (flush channel tx pending) pending
  unfolding flush
  Sent-flush tx [] room = record { said = sym (append-nil (texts tx.received)); counted = refl }
  Sent-flush tx (c ∷ text) room = (Sent-send tx _ room).1

  pub Sent-stop_stream :
      (r : Reader)
      → 2 ≤ r.tx.left
      → length (flush channel r.tx r.pending).received ≤ length r.tx.received + 1
      → Sent r.tx (stop_stream channel r).tx (r.pending ++ truncation_marker)
  unfolding stop_stream
  Sent-stop_stream r room few =
      let flushed = Sent-flush r.tx r.pending (omega arith) in
      Sent-trans r.tx (flush channel r.tx r.pending) _ r.pending truncation_marker flushed
        (Sent-send (flush channel r.tx r.pending) _ (omega (arith, flushed.counted))).1

  -- A batch is sent whole or waits whole.
  pub Sent-batch :
      (r : Reader) (pending : List ℕ)
      → 1 ≤ r.tx.left
      → ((batch channel r pending).0 ≡ true)
        × (texts (batch channel r pending).1.tx.received ++ (batch channel r pending).1.pending
            ≡ texts r.tx.received ++ pending)
        × (length (batch channel r pending).1.tx.received + (batch channel r pending).1.tx.left
            ≡ length r.tx.received + r.tx.left)
        × ((batch channel r pending).1.buffer ≡ r.buffer)
  unfolding batch
  Sent-batch r pending room = elim (Bool-cases (leb stream_flush_bytes (utf8_len pending))) [
    | inl full ↦
        let sent = Sent-send r.tx (record { channel = channel; text = pending }) room in
        rw full (sent.0, append-nil _ ∙ sent.1.said, sent.1.counted, refl)
    | inr few ↦ rw few (refl, refl, refl, refl)
  ]
