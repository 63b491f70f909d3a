-- ===== src/Pty/Ring.antt =====
-- The output buffer of pty_ops.rs stays bounded, and its count of bytes never falls below zero.
use synth_hires_bridge.Prelude.{
  ℕ, zero, suc, ◌+◌, ◌-◌, ◌≤◌, ◌<◌, true, ◌≡◌, refl, ap, Option, none, some, List, [], ◌∷◌, ◌++◌,
  arith, length, length-drop, drop, take, Bool-cases, inl, inr, ltb, ◌==◌, ltb-false, ltb→lt, leb,
  leb→le, subst,
}
use synth_hires_bridge.Prelude.Chars.{utf8_len, len_utf8}
use synth_hires_bridge.Pty.{
  BufferState, ring_lines, strip_cr, counted, trim_ring, push_char, push_chars, drain_bytes,
  max_partial, cap_partial, push, scrub_ansi, drain, pending, join_lines,
}
use mathlib.Core.Option

pub some_injective {ℓ} : {A : Type ℓ} {a b : A} → some a ≡ some b → a ≡ b
some_injective e = cc

strip_cr-le : (s : List ℕ) → utf8_len (strip_cr s) ≤ utf8_len s
unfolding strip_cr utf8_len
strip_cr-le [] = omega arith
strip_cr-le (c ∷ []) = ground arith
strip_cr-le (c ∷ d ∷ s) = omega (arith, strip_cr-le (d ∷ s))

counted-append : (xs ys : List (List ℕ)) → counted (xs ++ ys) ≡ counted xs + counted ys
unfolding counted
counted-append [] ys = omega arith
counted-append (x ∷ xs) ys = omega (arith, counted-append xs ys)

counted-split :
    (n : ℕ) (xs : List (List ℕ)) → counted (take n xs) + counted (drop n xs) ≡ counted xs
unfolding counted
counted-split zero xs = omega arith
counted-split (suc n) [] = omega arith
counted-split (suc n) (x ∷ xs) = omega (arith, counted-split n xs)

-- Between two characters: no more lines than the ring holds, and all of them counted.
pub record Inv (buf : BufferState) : Type 0 where
  pub few : length buf.lines ≤ ring_lines
  pub paid : counted buf.lines ≤ buf.bytes

trim_ring-Inv :
    (buf : BufferState)
    → counted buf.lines ≤ buf.bytes
    → Inv (trim_ring buf) × (counted (take (length buf.lines - ring_lines) buf.lines) ≤ buf.bytes)
unfolding trim_ring
trim_ring-Inv buf paid =
    let over = length buf.lines - ring_lines in
    let split = counted-split over buf.lines in
    elim (Bool-cases (ltb ring_lines (length buf.lines))) [
      | inl full ↦ rw full (
        record { few = omega (arith, length-drop over buf.lines); paid = omega arith },
        omega arith,
      )
      | inr room ↦ rw room (record { few = ltb-false _ _ room; paid = paid }, omega arith)
    ]

push_char-Inv : (buf : BufferState) (ch : ℕ) → Inv buf → Inv (push_char buf ch)
unfolding push_char counted utf8_len
push_char-Inv buf ch h = elim (Bool-cases (ch == 10)) [
  | inl line ↦ rw line (
      (trim_ring-Inv
        (record {
          lines = buf.lines ++ strip_cr buf.partial ∷ [];
          partial = [];
          bytes = buf.bytes + (utf8_len buf.partial + 1);
        })
        (snoc-paid buf h)).0)
  | inr text ↦ rw text (record { few = h.few; paid = h.paid })
]
  where
    snoc-paid :
        (buf : BufferState)
        → Inv buf
        → counted (buf.lines ++ strip_cr buf.partial ∷ []) ≤ buf.bytes + (utf8_len buf.partial + 1)
    snoc-paid buf h = omega (
      arith,
      h.paid,
      counted-append buf.lines (strip_cr buf.partial ∷ []),
      strip_cr-le buf.partial,
    )

push_chars-Inv : (buf : BufferState) (chars : List ℕ) → Inv buf → Inv (push_chars buf chars)
unfolding push_chars
push_chars-Inv buf [] h = h
push_chars-Inv buf (ch ∷ chars) h = push_chars-Inv (push_char buf ch) chars (push_char-Inv buf ch h)

pub drain_bytes-len :
    (n : ℕ) (text : List ℕ) {kept : List ℕ}
    → drain_bytes n text ≡ some kept
    → utf8_len kept + n ≡ utf8_len text
unfolding drain_bytes utf8_len
drain_bytes-len zero text e = omega (arith, ap utf8_len (some_injective e))
drain_bytes-len (suc n) [] e = absurd (cc)
drain_bytes-len (suc n) (c ∷ text) e = elim (Bool-cases (leb (len_utf8 c) (suc n))) [
  | inl fits ↦ omega (
    arith,
    drain_bytes-len (suc n - len_utf8 c) text (rw fits at e),
    leb→le (len_utf8 c) (suc n) fits,
  )
  | inr inside ↦ let no = rw inside at e in absurd (cc)
]

-- The case in which the open line is cut.
cut-Inv :
    (b : BufferState) (cut : Option (List ℕ)) {after : BufferState}
    → Inv b
    → max_partial < utf8_len b.partial
    → drain_bytes (utf8_len b.partial - max_partial) b.partial ≡ cut
    → Option.map (λ (kept : List ℕ). record b { partial = kept }) cut ≡ some after
    → Inv after × (utf8_len after.partial ≤ max_partial) × (after.lines ≡ b.lines)
cut-Inv b none h long d e = absurd (cc)
cut-Inv b (some kept) h long d e =
    subst (λ (a : BufferState). Inv a × (utf8_len a.partial ≤ max_partial) × (a.lines ≡ b.lines))
      (some_injective e)
      (
        record { few = h.few; paid = h.paid },
        omega (arith, drain_bytes-len (utf8_len b.partial - max_partial) b.partial d),
        refl,
      )

capped-Inv :
    (b : BufferState) {after : BufferState}
    → Inv b
    → cap_partial b ≡ some after
    → Inv after × (utf8_len after.partial ≤ max_partial) × (after.lines ≡ b.lines)
unfolding cap_partial
capped-Inv b {after} h e = elim (Bool-cases (ltb max_partial (utf8_len b.partial))) [
  | inl long ↦
      cut-Inv b (drain_bytes (utf8_len b.partial - max_partial) b.partial) h (ltb→lt _ _ long) refl
        (rw long at e)
  | inr short ↦
      let same : b ≡ after = some_injective (rw short at e) in
      subst (λ (a : BufferState). Inv a × (utf8_len a.partial ≤ max_partial) × (a.lines ≡ b.lines))
        same (h, ltb-false max_partial (utf8_len b.partial) short, refl)
]

-- Whatever the shell writes, a chunk that does not panic leaves at most 1000 lines and 16 KiB of an open
-- line, and a count of bytes that covers the lines.
pub push-Inv :
    (buf : BufferState) (chunk : List ℕ) {after : BufferState}
    → Inv buf
    → push buf chunk ≡ some after
    → Inv after × (utf8_len after.partial ≤ max_partial)
unfolding push
push-Inv buf chunk {after} h e =
    let capped =
      capped-Inv (push_chars buf (scrub_ansi chunk)) (push_chars-Inv buf (scrub_ansi chunk) h) e in
    (capped.0, capped.1)

-- A drain gives out the open line and keeps it: with nothing new, the next one gives it again.
pub drain-again :
    (buf : BufferState) (c : ℕ) (text : List ℕ)
    → buf.partial ≡ c ∷ text
    → ((drain (drain buf).1).0 ≡ 10 ∷ c ∷ text) × (pending (drain buf).1 ≡ true)
unfolding drain pending join_lines
drain-again buf c text e = rw e (refl, refl)
