-- ===== src/Frames/Loop.antt =====
-- The loop that reads frame after frame: it hands on what was sent, and it ends.
use synth_hires_bridge.Prelude.{
  ℕ, zero, suc, ◌≤◌, ◌<◌, ◌≡◌, ◌∙◌, refl, ap, Option, none, some, String, List, [], ◌∷◌, ◌++◌, All,
  length, length-append, arith,
}
use synth_hires_bridge.Frames.{
  Stream, FrameRead, message, finished, io_error, reader_loop, hand_on, read_frame, frame_message,
  frame_of, read_header,
}
use synth_hires_bridge.Frames.Body.{Sendable, stream, read_frame-message}
use synth_hires_bridge.Frames.Reading.{FrameOutcome, read_frame-FrameOutcome}

-- What a peer writes that sends these messages.
pub frames : List (List ℕ) → List ℕ
frames [] = []
frames (body ∷ bodies) = frame_message body ++ frames bodies

-- The messages handed on one after the other.
pub routed : {S : Type 0} → (S → List ℕ → S) → S → List (List ℕ) → S
routed route s [] = s
routed route s (body ∷ bodies) = routed route (route s body) bodies

module _ {S : Type 0} (route : S → List ℕ → S) (label : String) where
  reader_loop-ended :
      (fuel : ℕ) (failure : Option String) (s : S)
      → reader_loop route fuel label (stream [] failure) s ≡ s
  unfolding reader_loop hand_on read_frame frame_of read_header
  reader_loop-ended zero failure s = refl
  reader_loop-ended (suc fuel) none s = refl
  reader_loop-ended (suc fuel) (some e) s = refl

  -- What one side frames, the other reads: where the stream holds the frames of some messages, each
  -- of them text of at least one byte and at most 10 MiB, the loop hands on these messages, each once
  -- and in order, and then ends, however the stream ends, with one round for each message or more.
  pub reader_loop-frames :
      (fuel : ℕ) (bodies : List (List ℕ)) (failure : Option String) (s : S)
      → All Sendable bodies
      → length bodies ≤ fuel
      → reader_loop route fuel label (stream (frames bodies) failure) s ≡ routed route s bodies
  unfolding reader_loop hand_on frames routed
  reader_loop-frames fuel [] failure s h k = reader_loop-ended fuel failure s
  reader_loop-frames zero (body ∷ bodies) failure s h k = absurd (omega arith)
  reader_loop-frames (suc fuel) (body ∷ bodies) failure s h k =
      ap (hand_on route (reader_loop route fuel label) s)
        (read_frame-message label body (frames bodies) failure h.0)
      ∙ reader_loop-frames fuel bodies failure (route s body) h.1 (omega arith)

  -- Two ways to go on that agree on every shorter stream agree on what was read.
  hand_on-shorter :
      (go other : Stream → S → S) (reader : Stream) (s : S) (r : FrameRead)
      → FrameOutcome reader r
      → ((rest : Stream) (t : S)
          → length rest.bytes < length reader.bytes
          → go rest t ≡ other rest t)
      → hand_on route go s r ≡ hand_on route other s r
  unfolding hand_on FrameOutcome
  hand_on-shorter go other reader s finished k same = refl
  hand_on-shorter go other reader s (io_error e) k same = refl
  hand_on-shorter go other reader s (message body rest) k same = same rest (route s body) (
      rw k.parts (
        omega (
          arith,
          length-append k.header (body ++ rest.bytes),
          length-append body rest.bytes,
          k.sendable.filled,
        )))

  -- More rounds than bytes change nothing: the loop has ended by then.
  pub reader_loop_enough :
      (fuel wide : ℕ) (reader : Stream) (s : S)
      → length reader.bytes < fuel
      → fuel ≤ wide
      → reader_loop route wide label reader s ≡ reader_loop route fuel label reader s
  unfolding reader_loop
  reader_loop_enough zero wide reader s h k = absurd (omega arith)
  reader_loop_enough (suc fuel) zero reader s h k = absurd (omega arith)
  reader_loop_enough (suc fuel) (suc wide) reader s h k =
      hand_on-shorter (reader_loop route wide label) (reader_loop route fuel label) reader s
        (read_frame label reader) (read_frame-FrameOutcome label reader)
        (λ rest t shorter. reader_loop_enough fuel wide rest t (omega arith) (omega arith))
