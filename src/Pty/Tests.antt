-- ===== src/Pty/Tests.antt =====
-- A shell with a prompt.
use synth_hires_bridge.Prelude.{ℕ, ◌≤◌, true, false, ◌≡◌, refl, Option, some, List, [], ◌∷◌, arith}
use synth_hires_bridge.Prelude.Text.{codes}
use synth_hires_bridge.Prelude.Chars.{utf8_len, len_utf8}
use synth_hires_bridge.Pty.{
  BufferState, default, push, push_chars, push_char, trim_ring, strip_cr, cap_partial, scrub_ansi,
  scrub, next, keeps, counted, drain, pending, max_partial,
}
use synth_hires_bridge.Pty.Ring.{Inv, push-Inv, drain-again}
use synth_hires_bridge.Pty.Settle.{Slice, push_all, shared_pending, wait_output, wait_output-lasts}
use mathlib.Core.Option

-- "ls" in green, a line end of Windows, and the prompt.
abbrev chunk : List ℕ
chunk = 27 ∷ b'[' ∷ b'3' ∷ b'2' ∷ b'm' ∷ b'l' ∷ b's' ∷ 13 ∷ 10 ∷ b'$' ∷ []

abbrev prompt : BufferState
prompt = record { lines = codes "ls" ∷ []; partial = b'$' ∷ []; bytes = 4 }

pushed : push default chunk ≡ some prompt
unfolding push push_chars push_char trim_ring strip_cr cap_partial scrub_ansi scrub next keeps
    utf8_len len_utf8
pushed = refl

-- A sequence that two chunks share is not recognised in the second one.
split_sequence : scrub_ansi (b'3' ∷ b'2' ∷ b'm' ∷ []) ≡ codes "32m"
unfolding scrub_ansi scrub next keeps
split_sequence = refl

push-Inv_example : Inv prompt × (utf8_len prompt.partial ≤ max_partial)
unfolding counted
push-Inv_example = push-Inv default chunk (record { few = omega arith; paid = omega arith }) pushed

-- The prompt is told twice.
told_twice : ((drain (drain prompt).1).0 ≡ 10 ∷ b'$' ∷ []) × (pending (drain prompt).1 ≡ true)
told_twice = drain-again prompt b'$' [] refl

-- Two quiet slices, the second one behind the deadline.
abbrev slices : List Slice
slices = ([], false) ∷ ([], false) ∷ ([], false) ∷ ([], true) ∷ []

wait_output-lasts_example :
    Option.map (λ (r : ℕ × List ℕ × Option BufferState). r.0) (wait_output (some prompt) slices)
    ≡ some 4
unfolding push_all shared_pending pending
wait_output-lasts_example =
    wait_output-lasts (some prompt) slices refl
      ((λ e. cc), ((λ e. cc), ((λ e. cc), ((λ e. cc), tt))))
