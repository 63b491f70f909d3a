-- ===== src/Frames/Tests.antt =====
-- Short frames, and broken ones.
use synth_hires_bridge.Prelude.{ℕ, ◌≡◌, refl, none, some, List, [], ◌∷◌, arith}
use synth_hires_bridge.Prelude.Text.{
  codes, has_prefix, onto_first, bytes_eq, to_lower, trim, trim_start, is_whitespace, between,
}
use synth_hires_bridge.Prelude.Decimal.{parse_usize, parse_from, add_digit}
use synth_hires_bridge.Fs.Text.{width, followers, tails}
use synth_hires_bridge.Pairing.{split_once, before_all}
use synth_hires_bridge.Frames.{
  reader_loop, read_frame, finished, frame_of, read_header, parse_content_length, first_length,
  is_content_length, split_crlf,
}
use synth_hires_bridge.Frames.Utf8.{from_utf8, chars_from, put_before, scalar}
use synth_hires_bridge.Frames.Body.{Sendable, stream}
use synth_hires_bridge.Frames.Loop.{frames, routed, reader_loop-frames}

abbrev kept : List (List ℕ) → List ℕ → List (List ℕ)
kept seen body = body ∷ seen

abbrev two_bodies : List (List ℕ)
two_bodies = codes "{}" ∷ codes "[1]" ∷ []

Sendable-braces : Sendable (codes "{}")
unfolding from_utf8 chars_from put_before scalar width followers tails
Sendable-braces = record { utf8 = (codes "{}", refl); filled = omega arith; bounded = omega arith }

Sendable-list : Sendable (codes "[1]")
unfolding from_utf8 chars_from put_before scalar width followers tails
Sendable-list = record { utf8 = (codes "[1]", refl); filled = omega arith; bounded = omega arith }

reader_loop-frames_example :
    reader_loop kept 2 "dap" (stream (frames two_bodies) none) [] ≡ routed kept [] two_bodies
reader_loop-frames_example =
    reader_loop-frames kept "dap" 2 two_bodies none [] (Sendable-braces, (Sendable-list, tt))
      (omega arith)

-- A stream that ends inside a header ends cleanly.
torn_header : read_frame "lsp" (stream (codes "Content-Le") none) ≡ finished
unfolding read_frame frame_of read_header has_prefix
torn_header = refl

-- The name of the field is read without regard to case.
lower_case : parse_content_length (codes "content-length: 42") ≡ some 42
unfolding parse_content_length first_length is_content_length split_crlf split_once before_all
    has_prefix onto_first bytes_eq to_lower trim trim_start is_whitespace between parse_usize
    parse_from add_digit
lower_case = refl
