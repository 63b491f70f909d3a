-- ===== src/Frames/Reading.antt =====
-- What `read_frame` takes from a stream when it gives a message.
use synth_hires_bridge.Prelude.Text.{has_prefix}
use synth_hires_bridge.Prelude.{
  ℕ, ◌≤◌, ◌≡◌, ◌∙◌, refl, sym, ap, Option, none, some, false, ◌||◌, String, List, [], ◌∷◌, ◌++◌,
  ltb, ◌==◌, length, take, reverse, take-append-drop, arith, inl, inr, Bool-cases, length-take,
  ltb-false,
}
use mathlib.Core.List.{append_assoc, reverse-cons}
use synth_hires_bridge.Frames.Utf8.{from_utf8}
use synth_hires_bridge.Frames.{
  Stream, FrameRead, HeaderRead, message, finished, io_error, header_end, no_more, broken,
  read_body, body_of, read_after, read_sized, read_frame, frame_of, read_header, content_length,
  split_crlf, max_frame_bytes,
}
use synth_hires_bridge.Frames.Header.{length-reverse}
use synth_hires_bridge.Frames.Body.{Sendable, stream}

-- A header that was read is a part of the stream, of a bounded length.
record HeaderOf (acc bytes header rest : List ℕ) : Type 0 where
  pub parts : reverse acc ++ bytes ≡ header ++ rest
  pub bounded : length header ≤ 8193

-- What is known after the loop over the header.
abbrev Scanned : Option String → List ℕ → List ℕ → HeaderRead → Type 0
Scanned failure acc bytes no_more = failure ≡ none
Scanned failure acc bytes (broken e) = Unit
Scanned failure acc bytes (header_end header rest) = HeaderOf acc bytes header rest

-- A message, taken from the front of the stream behind a header.
pub record MessageOf (s : Stream) (body : List ℕ) (rest : Stream) : Type 0 where
  pub header : List ℕ
  pub parts : s.bytes ≡ header ++ (body ++ rest.bytes)
  pub header_bounded : length header ≤ 8193
  pub sendable : Sendable body
  pub same_failure : rest.failure ≡ s.failure

-- What a read tells of its stream.
unfoldable pub FrameOutcome : Stream → FrameRead → Type 0
FrameOutcome s (message body rest) = MessageOf s body rest
FrameOutcome s finished = s.failure ≡ none
FrameOutcome s (io_error e) = Unit

module _ (failure : Option String) (label : String) where
  read_header-Scanned :
      (acc bytes : List ℕ)
      → length acc ≤ 8192
      → Scanned failure acc bytes (read_header failure label acc bytes)
  unfolding read_header
  read_header-Scanned acc [] h = ended failure refl
    where
      ended :
          (f : Option String)
          → failure ≡ f
          → Scanned failure acc [] (elim f [ none ↦ no_more | some e ↦ broken e ])
      ended none e = e
      ended (some x) e = tt
  read_header-Scanned acc (b ∷ bytes) h =
      elim (Bool-cases (has_prefix (10 ∷ 13 ∷ 10 ∷ 13 ∷ []) (b ∷ acc))) [
        | inl last ↦
            rw last (record { parts = pushed; bounded = omega (arith, length-reverse (b ∷ acc)) })
        | inr more ↦ elim (Bool-cases (ltb 8192 (length (b ∷ acc)))) [
          | inl long ↦ rw (more, long) tt
          | inr short ↦
              rw (more, short)
                (moved (read_header failure label (b ∷ acc) bytes)
                  (read_header-Scanned (b ∷ acc) bytes (omega (arith, ltb-false _ _ short))))
        ]
      ]
    where
      pushed : reverse acc ++ (b ∷ bytes) ≡ reverse (b ∷ acc) ++ bytes
      pushed = rw (reverse-cons b acc) (sym (append_assoc (reverse acc) (b ∷ []) bytes))

      moved :
          (r : HeaderRead) → Scanned failure (b ∷ acc) bytes r → Scanned failure acc (b ∷ bytes) r
      moved no_more k = k
      moved (broken e) k = k
      moved (header_end header rest) k = record { parts = pushed ∙ k.parts; bounded = k.bounded }

module _ (s : Stream) (header bytes : List ℕ) (e : s.bytes ≡ header ++ bytes)
    (h : length header ≤ 8193) where
  body_of-FrameOutcome :
      (n : ℕ) (text : Option (List ℕ))
      → 1 ≤ n
      → n ≤ max_frame_bytes
      → n ≤ length bytes
      → from_utf8 (take n bytes) ≡ text
      → FrameOutcome s (body_of n (stream bytes s.failure) text)
  unfolding body_of FrameOutcome
  body_of-FrameOutcome n none low high enough k = tt
  body_of-FrameOutcome n (some text) low high enough k = record {
    header = header;
    parts = e ∙ ap (λ b. header ++ b) (sym (take-append-drop n bytes));
    header_bounded = h;
    sendable = record {
      utf8 = (text, k);
      filled = omega (arith, length-take n bytes);
      bounded = omega (arith, length-take n bytes);
    };
    same_failure = refl;
  }

  read_body-FrameOutcome :
      (n : ℕ) → 1 ≤ n → n ≤ max_frame_bytes → FrameOutcome s (read_body n (stream bytes s.failure))
  unfolding read_body FrameOutcome
  read_body-FrameOutcome n low high = elim (Bool-cases (ltb (length bytes) n)) [
    | inl few ↦ rw few tt
    | inr enough ↦ rw enough (
        body_of-FrameOutcome n (from_utf8 (take n bytes)) low high
          (omega (arith, ltb-false _ _ enough)) refl)
  ]

  read_sized-FrameOutcome :
      (label : String) (len : Option ℕ)
      → FrameOutcome s (read_sized label (stream bytes s.failure) len)
  unfolding read_sized FrameOutcome
  read_sized-FrameOutcome label none = tt
  read_sized-FrameOutcome label (some n) = elim (Bool-cases ((n == 0) || ltb max_frame_bytes n)) [
    | inl wrong ↦ rw wrong tt
    | inr right ↦
        rw right (read_body-FrameOutcome n (ground (arith, right)) (ground (arith, right)))
  ]

  read_after-FrameOutcome :
      (label : String) (text : Option (List ℕ))
      → FrameOutcome s (read_after label (stream bytes s.failure) text)
  unfolding read_after FrameOutcome
  read_after-FrameOutcome label none = tt
  read_after-FrameOutcome label (some text) =
      read_sized-FrameOutcome label (content_length none (split_crlf false text))

-- A read gives a message, which is cut from the front of its stream within the bounds, or an error;
-- a clean end is told only when the stream has ended without one.
pub read_frame-FrameOutcome : (label : String) (s : Stream) → FrameOutcome s (read_frame label s)
unfolding read_frame frame_of FrameOutcome
read_frame-FrameOutcome label s =
    told (read_header s.failure label [] s.bytes)
      (read_header-Scanned s.failure label [] s.bytes (omega arith))
  where
    told :
        (r : HeaderRead)
        → Scanned s.failure [] s.bytes r
        → FrameOutcome s (frame_of label s.failure r)
    told no_more e = e
    told (broken x) k = tt
    told (header_end header rest) k =
        read_after-FrameOutcome s header rest k.parts k.bounded label (from_utf8 header)
