-- ===== src/Pty/Settle.antt =====
-- The wait of `PtyEngine::run` in pty_ops.rs for the output to settle, and its answer.
--
-- A slice of the wait is what the reader threads push while the loop sleeps, and whether the deadline
-- is past when it wakes. A buffer is `none` once a reader thread has panicked with its lock held:
-- `lock` then fails, and the code goes on as if nothing were there.
use synth_hires_bridge.Prelude.{
  ℕ, ◌+◌, ◌≤◌, min, max, Bool, true, false, not, ◌&&◌, ◌≡◌, ◌≢◌, refl, ap, ◌∙◌, inl, inr, Option,
  none, some, List, [], ◌∷◌, ◌++◌, arith, if◌then◌else◌, leb, ltb, ◌==◌, unwrap_or, Bool-cases,
  Option-cases, subst,
}
use mathlib.Core.Option
use synth_hires_bridge.Prelude.{◌-◌, ◌<◌, ◌↔◌, length, length-append, length-drop, ltb→lt}
use synth_hires_bridge.Prelude.Chars.{utf8_len, utf8_len_bounds}
use synth_hires_bridge.Pty.Ring.{some_injective, drain_bytes-len}
use synth_hires_bridge.Pty.{
  BufferState, strip_cr, push, push_chars, push_char, trim_ring, cap_partial, scrub_ansi, drain,
  pending, join_lines, max_partial, ring_lines, drain_bytes,
}

abbrev pub Slice : Type 0
Slice = List (List ℕ) × Bool

unfoldable pub push_all : Option BufferState → List (List ℕ) → Option BufferState
push_all none chunks = none
push_all (some buf) [] = some buf
push_all (some buf) (chunk ∷ chunks) = push_all (push buf chunk) chunks

push_all-none : (chunks : List (List ℕ)) → push_all none chunks ≡ none
unfolding push_all
push_all-none chunks = refl

unfoldable pub shared_pending : Option BufferState → Bool
shared_pending none = false
shared_pending (some buf) = pending buf

unfoldable pub shared_drain : Option BufferState → List ℕ × Option BufferState
shared_drain none = ([], none)
shared_drain (some buf) = let drained = drain buf in (drained.0, some drained.1)

unfoldable pub quiet_after : Bool → Bool → ℕ → ℕ
quiet_after now last quiet =
    if now && last then 0 else if not now && not last then quiet + 1 else quiet

-- The loop, from the state of its variables: how many slices it lasts and the buffer behind them, or
-- `none` while it still waits.
unfoldable pub settle : Bool → ℕ → Option BufferState → List Slice → Option (ℕ × Option BufferState)
settle last quiet buf [] = none
settle last quiet buf ((chunks, late) ∷ slices) =
    let after = push_all buf chunks in
    let now = shared_pending after in
    let quiet' = quiet_after now last quiet in
    let rest = settle now quiet' after slices in
    if not now && not last && leb 2 quiet'
    then some (1, after)
    else if late
    then some (1, after)
    else elim rest [ none ↦ none | some (n, end) ↦ some (n + 1, end) ]

-- `timeout_ms.unwrap_or(10_000).clamp(200, 120_000)`
unfoldable pub run_timeout : Option ℕ → ℕ
run_timeout timeout_ms = min (max (unwrap_or timeout_ms 10000) 200) 120000

unfoldable pub answer : Option (ℕ × Option BufferState) → Option (ℕ × List ℕ × Option BufferState)
answer none = none
answer (some (n, end)) = let drained = shared_drain end in some (n, drained.0, drained.1)

-- From the write of the command to the answer's output, with the number of slices.
unfoldable pub wait_output :
    Option BufferState → List Slice → Option (ℕ × List ℕ × Option BufferState)
wait_output buf slices = answer (settle (shared_pending buf) 0 buf slices)

-- The slices up to the deadline.
abbrev pub until_late : List Slice → Option ℕ
until_late [] = none
until_late ((chunks, late) ∷ slices) =
    let rest = until_late slices in
    if late then some 1 else elim rest [ none ↦ none | some n ↦ some (n + 1) ]

-- The reader threads live through the slices.
abbrev pub Lives : Option BufferState → List Slice → Type 0
Lives buf [] = Unit
Lives buf ((chunks, late) ∷ slices) =
    (push_all buf chunks ≢ none) × Lives (push_all buf chunks) slices

-- Something waits to be given out.
abbrev Waits : BufferState → Type 0
Waits buf = 1 ≤ length buf.lines + length buf.partial

pending_iff : (buf : BufferState) → (pending buf ≡ true) ↔ Waits buf
unfolding pending
pending_iff buf = by_parts buf.lines buf.partial
  where
    by_parts :
        (lines : List (List ℕ)) (partial : List ℕ)
        → ((elim lines [ [] ↦ elim partial [ [] ↦ false | c ∷ text ↦ true ] | line ∷ more ↦ true ])
            ≡ true)
          ↔ (1 ≤ length lines + length partial)
    by_parts [] [] = ((λ h. absurd (cc)), (λ h. absurd (omega arith)))
    by_parts [] (c ∷ text) = ((λ h. omega arith), (λ h. refl))
    by_parts (line ∷ more) partial = ((λ h. omega arith), (λ h. refl))

push_char-Waits : (buf : BufferState) (ch : ℕ) → Waits buf → Waits (push_char buf ch)
unfolding push_char trim_ring
push_char-Waits buf ch h =
    let grown = length-append buf.lines (strip_cr buf.partial ∷ []) in
    let all = buf.lines ++ strip_cr buf.partial ∷ [] in
    elim (Bool-cases (ch == 10)) [
      | inl line ↦ elim (Bool-cases (ltb ring_lines (length all))) [
        | inl full ↦ rw (line, full) (omega (arith, length-drop (length all - ring_lines) all))
        | inr room ↦ rw (line, room) (omega (arith, grown))
      ]
      | inr text ↦ rw text (omega (arith, length-append buf.partial (ch ∷ [])))
    ]

push_chars-Waits : (buf : BufferState) (chars : List ℕ) → Waits buf → Waits (push_chars buf chars)
unfolding push_chars
push_chars-Waits buf [] h = h
push_chars-Waits buf (ch ∷ chars) h =
    push_chars-Waits (push_char buf ch) chars (push_char-Waits buf ch h)

cap_partial-Waits :
    (buf : BufferState) {after : BufferState}
    → Waits buf
    → cap_partial buf ≡ some after
    → Waits after
unfolding cap_partial
cap_partial-Waits buf {after} h e = elim (Bool-cases (ltb max_partial (utf8_len buf.partial))) [
  | inl long ↦
      by_cut (drain_bytes (utf8_len buf.partial - max_partial) buf.partial) refl (ltb→lt _ _ long)
        (rw long at e)
  | inr short ↦ subst Waits (some_injective (rw short at e)) h
]
  where
    by_cut :
        (cut : Option (List ℕ))
        → drain_bytes (utf8_len buf.partial - max_partial) buf.partial ≡ cut
        → max_partial < utf8_len buf.partial
        → Option.map (λ (kept : List ℕ). record buf { partial = kept }) cut ≡ some after
        → Waits after
    by_cut none d long k = absurd (cc)
    by_cut (some kept) d long k = subst Waits (some_injective k) (
        omega (
          arith,
          drain_bytes-len (utf8_len buf.partial - max_partial) buf.partial d,
          utf8_len_bounds kept,
        ))

push_all-pending :
    (buf : Option BufferState) (chunks : List (List ℕ))
    → shared_pending buf ≡ true
    → push_all buf chunks ≢ none
    → shared_pending (push_all buf chunks) ≡ true
unfolding push_all shared_pending push
push_all-pending none chunks h k = absurd (k refl)
push_all-pending (some buf) [] h k = h
push_all-pending (some buf) (chunk ∷ chunks) h k = elim (Option-cases (push buf chunk)) [
  | inl gone ↦ absurd (k (ap (λ b. push_all b chunks) gone ∙ push_all-none chunks))
  | inr (after, e) ↦
      push_all-pending (push buf chunk) chunks
        (ap shared_pending e
          ∙ (pending_iff after).1 (
              cap_partial-Waits (push_chars buf (scrub_ansi chunk))
                (push_chars-Waits buf (scrub_ansi chunk) ((pending_iff buf).0 h)) e))
        k
]

settle-busy :
    (quiet : ℕ) (buf : Option BufferState) (slices : List Slice)
    → shared_pending buf ≡ true
    → Lives buf slices
    → Option.map (λ (r : ℕ × Option BufferState). r.0) (settle true quiet buf slices)
      ≡ until_late slices
unfolding settle
settle-busy quiet buf [] h k = refl
settle-busy quiet buf ((chunks, late) ∷ slices) h k =
    let after = push_all buf chunks in
    let now = push_all-pending buf chunks h k.0 in
    let rest = settle-busy (quiet_after true true quiet) after slices now k.1 in
    rw now (ground (arith, rest))

-- Once anything waits in the buffer, be it only the shell's prompt on an open line, the wait of `run`
-- lasts to its deadline, however long nothing new comes, as long as no reader thread panics.
pub wait_output-lasts :
    (buf : Option BufferState) (slices : List Slice)
    → shared_pending buf ≡ true
    → Lives buf slices
    → Option.map (λ (r : ℕ × List ℕ × Option BufferState). r.0) (wait_output buf slices)
      ≡ until_late slices
unfolding wait_output answer
wait_output-lasts buf slices h k =
    slices_of (settle (shared_pending buf) 0 buf slices)
    ∙ ap (λ last. Option.map (λ (r : ℕ × Option BufferState). r.0) (settle last 0 buf slices)) h
    ∙ settle-busy 0 buf slices h k
  where
    slices_of :
        (r : Option (ℕ × Option BufferState))
        → Option.map (λ (a : ℕ × List ℕ × Option BufferState). a.0) (answer r)
          ≡ Option.map (λ (a : ℕ × Option BufferState). a.0) r
    slices_of none = refl
    slices_of (some (n, end)) = refl

drain-nothing : (buf : BufferState) → pending buf ≡ false → (drain buf).0 ≡ []
unfolding pending drain join_lines
drain-nothing buf h = by_parts buf.lines buf.partial h
  where
    by_parts :
        (lines : List (List ℕ)) (partial : List ℕ)
        → (elim lines [ [] ↦ elim partial [ [] ↦ false | c ∷ text ↦ true ] | line ∷ more ↦ true ])
          ≡ false
        → (elim partial [ [] ↦ join_lines lines | c ∷ text ↦ join_lines lines ++ (10 ∷ c ∷ text) ])
          ≡ []
    by_parts [] [] h = refl
    by_parts [] (c ∷ text) h = absurd (cc)
    by_parts (line ∷ more) partial h = absurd (cc)

-- With an empty buffer, two slices without output end the wait with an empty answer, whatever the command
-- writes behind them.
pub wait_output-early :
    (buf : BufferState) (slices : List Slice)
    → pending buf ≡ false
    → wait_output (some buf) (([], false) ∷ ([], false) ∷ slices) ≡ some (2, [], some (drain buf).1)
unfolding wait_output answer settle push_all shared_pending shared_drain quiet_after
wait_output-early buf slices h = rw (h, drain-nothing buf h) refl
