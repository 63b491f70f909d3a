-- ===== src/Frames.antt =====
-- The message frames that the bridges to language servers and debuggers share: `frame_message` and
-- `read_frame` of apps/desktop-daemon/crates/daemon-core/src/lsp_ops.rs, and `dap_frame` and
-- `parse_content_length` of dap_ops.rs.
--
-- A `str` is its UTF-8 bytes; the header is decoded, because the code trims its characters.
mod Utf8
mod Header
mod Body
mod Reading
mod Loop
mod Tests
use synth_hires_bridge.Prelude.Text.{
  codes, has_prefix, onto_first, bytes_eq, to_ascii_lowercase, trim,
}
use synth_hires_bridge.Prelude.Decimal.{decimal, parse_usize}
use synth_hires_bridge.Prelude.{
  ℕ, zero, suc, ◌*◌, Bool, true, false, ◌||◌, String, Option, none, some, List, [], ◌∷◌, ◌++◌,
  reverse, if◌then◌else◌, ltb, leb, ◌==◌, length, take, drop,
}
use Prim.Native.String.{◌++◌ as str_append}
use synth_hires_bridge.Pairing.{split_once}
use synth_hires_bridge.Frames.Utf8.{from_utf8}

abbrev pub max_frame_bytes : ℕ
max_frame_bytes = 10 * 1024 * 1024

-- Carriage return and line feed.
abbrev pub crlf : List ℕ
crlf = 13 ∷ 10 ∷ []

unfoldable pub frame_message : List ℕ → List ℕ
frame_message body = codes "Content-Length: " ++ decimal (length body) ++ (crlf ++ crlf ++ body)

unfoldable pub dap_frame : List ℕ → List ℕ
dap_frame body = codes "Content-Length: " ++ decimal (length body) ++ (crlf ++ crlf ++ body)

-- What a reader gives: its bytes, and then the end of the stream or an error.
pub record Stream : Type 0 where
  pub bytes : List ℕ
  pub failure : Option String

-- The results of `read_frame`; `finished` is `Ok(None)`.
pub data FrameRead : Type 0 where
  message : List ℕ → Stream → FrameRead
  finished : FrameRead
  io_error : String → FrameRead

-- The results of the loop over the header's bytes.
pub data HeaderRead : Type 0 where
  header_end : List ℕ → List ℕ → HeaderRead
  no_more : HeaderRead
  broken : String → HeaderRead

-- The bytes read so far stand last first, so that `ends_with` looks at the front.
unfoldable pub read_header : Option String → String → List ℕ → List ℕ → HeaderRead
read_header failure label header [] = elim failure [ none ↦ no_more | some e ↦ broken e ]
read_header failure label header (b ∷ bytes) =
    let later = read_header failure label (b ∷ header) bytes in
    if has_prefix (10 ∷ 13 ∷ 10 ∷ 13 ∷ []) (b ∷ header)
    then header_end (reverse (b ∷ header)) bytes
    else if ltb 8192 (length (b ∷ header))
    then broken (str_append label ": header section too long")
    else later

-- `split("\r\n")`; the flag says that the next byte ends a separator.
unfoldable pub split_crlf : Bool → List ℕ → List (List ℕ)
split_crlf skip [] = [] ∷ []
split_crlf true (c ∷ text) = split_crlf false text
split_crlf false (c ∷ text) =
    let found = has_prefix crlf (c ∷ text) in
    let rest = split_crlf found text in if found then [] ∷ rest else onto_first c rest

unfoldable pub is_content_length : List ℕ → Bool
is_content_length name = bytes_eq (to_ascii_lowercase (trim name)) (codes "content-length")

-- The last such line counts, even where its number cannot be read.
unfoldable pub content_length : Option ℕ → List (List ℕ) → Option ℕ
content_length found [] = found
content_length found (line ∷ lines) = elim (split_once (codes ":") line) [
  | none ↦ content_length found lines
  | some (name, value) ↦
      content_length (if is_content_length name then parse_usize (trim value) else found) lines
]

-- `String::from_utf8` of so many bytes.
unfoldable pub body_of : ℕ → Stream → Option (List ℕ) → FrameRead
body_of len reader none = io_error "body: invalid utf-8"
body_of len reader (some text) =
    message (take len reader.bytes)
      (record { bytes = drop len reader.bytes; failure = reader.failure })

-- `read_exact` on a stream that ends too early.
unfoldable pub too_few : Option String → String
too_few none = "early eof"
too_few (some e) = e

unfoldable pub read_body : ℕ → Stream → FrameRead
read_body len reader =
    if ltb (length reader.bytes) len
    then io_error (too_few reader.failure)
    else body_of len reader (from_utf8 (take len reader.bytes))

unfoldable pub read_sized : String → Stream → Option ℕ → FrameRead
read_sized label reader none = io_error (str_append label ": missing Content-Length")
read_sized label reader (some len) =
    if (len == 0) || ltb max_frame_bytes len
    then io_error (str_append label ": frame size out of bounds")
    else read_body len reader

unfoldable pub read_after : String → Stream → Option (List ℕ) → FrameRead
read_after label reader none = io_error "headers: invalid utf-8"
read_after label reader (some text) =
    read_sized label reader (content_length none (split_crlf false text))

unfoldable pub frame_of : String → Option String → HeaderRead → FrameRead
frame_of label failure no_more = finished
frame_of label failure (broken e) = io_error e
frame_of label failure (header_end header bytes) =
    read_after label (record { bytes = bytes; failure = failure }) (from_utf8 header)

unfoldable pub read_frame : String → Stream → FrameRead
read_frame label reader =
    frame_of label reader.failure (read_header reader.failure label [] reader.bytes)

-- The first such line counts, even where its number cannot be read.
unfoldable pub first_length : List (List ℕ) → Option ℕ
first_length [] = none
first_length (line ∷ lines) = elim (split_once (codes ":") line) [
  | none ↦ first_length lines
  | some (name, value) ↦
      if is_content_length name then parse_usize (trim value) else first_length lines
]

unfoldable pub parse_content_length : List ℕ → Option ℕ
parse_content_length headers = first_length (split_crlf false headers)

-- The loop of both readers, with what becomes of a message as a parameter: they go on until the
-- stream ends or a frame cannot be read.
module _ {S : Type 0} (route : S → List ℕ → S) where
  -- A message is handed on before the loop goes on; everything else leaves it.
  unfoldable pub hand_on : (Stream → S → S) → S → FrameRead → S
  hand_on go s (message body rest) = go rest (route s body)
  hand_on go s finished = s
  hand_on go s (io_error e) = s

  -- As many rounds as bytes, and one more, are enough.
  unfoldable pub reader_loop : ℕ → String → Stream → S → S
  reader_loop zero label reader s = s
  reader_loop (suc fuel) label reader s =
      hand_on (reader_loop fuel label) s (read_frame label reader)
