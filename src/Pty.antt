-- ===== src/Pty.antt =====
-- Persistent shells: apps/desktop-daemon/crates/daemon-core/src/pty_ops.rs, its output buffer and the
-- wait of `run`.
--
-- A text is its characters. `none` stands for the panic of `String::drain` inside a character.
pub mod Scrub
pub mod Ring
pub mod Settle
pub mod Sessions
pub mod Rooms
mod Tests
use mathlib.Core.Option
use synth_hires_bridge.Prelude.{
  ℕ, zero, suc, ◌+◌, ◌-◌, Bool, true, false, not, ◌&&◌, ◌||◌, Option, none, some, List, [], ◌∷◌,
  ◌++◌, if◌then◌else◌, leb, ltb, ◌==◌, length, drop, take, any,
}
use synth_hires_bridge.Prelude.Text.{contains}
use synth_hires_bridge.Prelude.Chars.{len_utf8, utf8_len}

abbrev pub ring_lines : ℕ
ring_lines = 1000

-- Where the scanner stands: in plain text, behind an escape, or in a control sequence.
pub data Mode : Type 0 where
  plain escape csi : Mode

abbrev pub esc : ℕ
esc = 27

-- Bell, backspace, vertical tab and form feed.
unfoldable pub is_noise : ℕ → Bool
is_noise c = c == 7 || c == 8 || c == 11 || c == 12

unfoldable pub next : Mode → ℕ → Mode
next plain c = if c == esc then escape else plain
next escape c = if c == b'[' then csi else plain
next csi c = if leb 0x40 c && leb c 0x7e then plain else csi

unfoldable pub keeps : Mode → ℕ → Bool
unfolding is_noise
keeps plain c = not (c == esc || is_noise c)
keeps _ c = false

unfoldable pub scrub : Mode → List ℕ → List ℕ
scrub mode [] = []
scrub mode (c ∷ s) = let rest = scrub (next mode c) s in if keeps mode c then c ∷ rest else rest

unfoldable pub scrub_ansi : List ℕ → List ℕ
scrub_ansi s = scrub plain s

pub record BufferState : Type 0 where
  pub lines : List (List ℕ)
  pub partial : List ℕ
  pub bytes : ℕ

abbrev pub default : BufferState
default = record { lines = []; partial = []; bytes = 0 }

-- `if line.ends_with('\r') { line.pop(); }`
unfoldable pub strip_cr : List ℕ → List ℕ
strip_cr [] = []
strip_cr (c ∷ []) = if c == 13 then [] else c ∷ []
strip_cr (c ∷ d ∷ s) = c ∷ strip_cr (d ∷ s)

-- `map(|l| l.len() + 1).sum()`
unfoldable pub counted : List (List ℕ) → ℕ
counted [] = 0
counted (line ∷ lines) = utf8_len line + 1 + counted lines

unfoldable pub trim_ring : BufferState → BufferState
trim_ring buf =
    let over = length buf.lines - ring_lines in
    if ltb ring_lines (length buf.lines)
    then record buf {
      lines = drop over buf.lines;
      bytes = buf.bytes - counted (take over buf.lines);
    }
    else buf

unfoldable pub push_char : BufferState → ℕ → BufferState
push_char buf ch =
    if ch == 10
    then trim_ring (record {
      lines = buf.lines ++ strip_cr buf.partial ∷ [];
      partial = [];
      bytes = buf.bytes + (utf8_len buf.partial + 1);
    })
    else record buf { partial = buf.partial ++ ch ∷ [] }

unfoldable pub push_chars : BufferState → List ℕ → BufferState
push_chars buf [] = buf
push_chars buf (ch ∷ chars) = push_chars (push_char buf ch) chars

-- `partial.drain(..cut)`, with the number of bytes
unfoldable pub drain_bytes : ℕ → List ℕ → Option (List ℕ)
drain_bytes zero text = some text
drain_bytes (suc n) [] = none
drain_bytes (suc n) (c ∷ text) =
    let rest = drain_bytes (suc n - len_utf8 c) text in
    if leb (len_utf8 c) (suc n) then rest else none

abbrev pub max_partial : ℕ
max_partial = 16384

unfoldable pub cap_partial : BufferState → Option BufferState
cap_partial buf =
    if ltb max_partial (utf8_len buf.partial)
    then Option.map (λ (kept : List ℕ). record buf { partial = kept })
        (drain_bytes (utf8_len buf.partial - max_partial) buf.partial)
    else some buf

unfoldable pub push : BufferState → List ℕ → Option BufferState
push buf chunk = cap_partial (push_chars buf (scrub_ansi chunk))

unfoldable pub contains_marker : BufferState → List ℕ → Bool
contains_marker buf needle =
    any (λ line. contains needle line) buf.lines || contains needle buf.partial

-- `lines.join("\n")`
unfoldable pub join_lines : List (List ℕ) → List ℕ
join_lines [] = []
join_lines (line ∷ []) = line
join_lines (line ∷ next ∷ lines) = line ++ (10 ∷ join_lines (next ∷ lines))

-- The text that is given out, and what stays behind.
unfoldable pub drain : BufferState → List ℕ × BufferState
drain buf =
    let out = join_lines buf.lines in
    (
      elim buf.partial [ [] ↦ out | c ∷ text ↦ out ++ (10 ∷ c ∷ text) ],
      record buf { lines = []; bytes = 0 },
    )

unfoldable pub pending : BufferState → Bool
pending buf = elim buf.lines [
  | [] ↦ elim buf.partial [ [] ↦ false | c ∷ text ↦ true ]
  | line ∷ lines ↦ true
]
