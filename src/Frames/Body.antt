-- ===== src/Frames/Body.antt =====
-- The body of a frame: so many bytes of the stream, if they are text.
use synth_hires_bridge.Prelude.{
  ℕ, ◌≤◌, ◌≡◌, ◌∙◌, refl, ap, Option, none, some, false, ◌||◌, String, List, [], ◌∷◌, ◌++◌, ltb,
  ◌==◌, length, length-append, take, drop, All, All-append, arith,
}
use synth_hires_bridge.Frames.{
  Stream, message, read_body, body_of, read_after, read_sized, read_frame, frame_message, frame_of,
  content_length, max_frame_bytes, crlf, split_crlf,
}
use mathlib.Core.List.{append_assoc}
use synth_hires_bridge.Frames.Utf8.{from_utf8, from_utf8-Ascii, Ascii}
use synth_hires_bridge.Frames.Header.{read_header-frame, length_line, length_line-stated, line-All}

abbrev pub stream : List ℕ → Option String → Stream
stream bytes failure = record { bytes = bytes; failure = failure }

take-all : (s t : List ℕ) → take (length s) (s ++ t) ≡ s
take-all [] t = refl
take-all (c ∷ s) t = ap (λ r. c ∷ r) (take-all s t)

drop-all : (s t : List ℕ) → drop (length s) (s ++ t) ≡ t
drop-all [] t = refl
drop-all (c ∷ s) t = drop-all s t

-- A body that the bridges can send: text of at least one byte and at most 10 MiB.
pub record Sendable (body : List ℕ) : Type 0 where
  pub utf8 : (text : List ℕ) × (from_utf8 body ≡ some text)
  pub filled : 1 ≤ length body
  pub bounded : length body ≤ max_frame_bytes

read_body-append :
    (body rest : List ℕ) (failure : Option String)
    → Sendable body
    → read_body (length body) (stream (body ++ rest) failure) ≡ message body (stream rest failure)
unfolding read_body body_of
read_body-append body rest failure h =
    rw (enough, take-all body rest, h.utf8.1, take-all body rest, drop-all body rest) refl
  where
    enough : ltb (length (body ++ rest)) (length body) ≡ false
    enough = ground (arith, length-append body rest)

header-Ascii :
    (n : ℕ) → from_utf8 (length_line n ++ (crlf ++ crlf)) ≡ some (length_line n ++ (crlf ++ crlf))
header-Ascii n = from_utf8-Ascii (length_line n ++ (crlf ++ crlf)) ascii
  where
    ascii : All Ascii (length_line n ++ (crlf ++ crlf))
    ascii =
        (All-append Ascii (length_line n) (crlf ++ crlf)).1
          (line-All Ascii n (omega arith) (λ b d. omega arith), omega arith)

-- A frame is its line, the empty line and its body.
framed :
    (body rest : List ℕ)
    → frame_message body ++ rest ≡ length_line (length body) ++ (crlf ++ crlf ++ (body ++ rest))
unfolding frame_message
framed body rest = append_assoc (length_line (length body)) (crlf ++ crlf ++ body) rest

-- A header that states a length within the bounds is followed by so many bytes.
after_header :
    (label : String) (header : List ℕ) (n : ℕ) (s : Stream)
    → from_utf8 header ≡ some header
    → content_length none (split_crlf false header) ≡ some n
    → 1 ≤ n
    → n ≤ max_frame_bytes
    → read_after label s (from_utf8 header) ≡ read_body n s
unfolding read_after read_sized
after_header label header n s text stated low high =
    ap (read_after label s) text ∙ ap (read_sized label s) stated ∙ rw fits refl
  where
    fits : ((n == 0) || ltb max_frame_bytes n) ≡ false
    fits = ground (arith, low, high)

module _ (label : String) (body rest : List ℕ) (failure : Option String) (h : Sendable body) where
  after_line :
      read_frame label
        (stream (length_line (length body) ++ (crlf ++ crlf ++ (body ++ rest))) failure)
      ≡ message body (stream rest failure)
  unfolding read_frame frame_of
  after_line =
      ap (frame_of label failure)
        (read_header-frame failure label (length body) (body ++ rest) (omega (arith, h.bounded)))
      ∙ after_header label (length_line (length body) ++ (crlf ++ crlf)) (length body)
          (stream (body ++ rest) failure) (header-Ascii (length body))
          (length_line-stated (length body) (omega (arith, h.bounded))) h.filled h.bounded
      ∙ read_body-append body rest failure h

  -- What one side frames, the other reads, and the stream goes on behind it.
  pub read_frame-message :
      read_frame label (stream (frame_message body ++ rest) failure)
      ≡ message body (stream rest failure)
  read_frame-message =
      ap (λ bytes. read_frame label (stream bytes failure)) (framed body rest) ∙ after_line
