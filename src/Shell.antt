-- ===== src/Shell.antt =====
-- Shell execution: apps/desktop-daemon/crates/daemon-core/src/shell.rs.
--
-- A text is its characters. A child process is what the operating system makes of a command: the
-- lines of its two pipes, its end under a given timeout, and the time it took. The channel that the
-- two pumps share takes a number of chunks before its receiver is dropped; each pump is modelled
-- with the channel as it finds it.
pub mod Buffer
pub mod Pump
pub mod Stream
pub mod Faithful
pub mod Run
pub mod Outcomes
mod Tests
use synth_hires_bridge.Prelude.{
  ℕ, ◌+◌, ◌-◌, min, max, String, Bool, true, false, not, ◌||◌, Option, none, some, List, [], ◌∷◌,
  ◌++◌, if◌then◌else◌, leb, ltb, ◌==◌, take, unwrap_or, ◌⊎◌, inl, inr,
}
use synth_hires_bridge.Prelude.Text.{codes}
use synth_hires_bridge.Prelude.Chars.{utf8_len}
use synth_hires_bridge.Prelude.Int.{ℤ}
use synth_hires_bridge.Errors.{
  DaemonError, io, cancelled, timeout, capability_denied, Result, ok, err,
}
use synth_hires_bridge.Capability.{CapabilityGate, allows}
use synth_hires_bridge.Capability.Paths.{FilePath, Platform, unix, windows}

abbrev pub max_timeout_ms : ℕ
max_timeout_ms = 600000

abbrev pub max_output_bytes : ℕ
max_output_bytes = 4194304

abbrev pub stream_flush_bytes : ℕ
stream_flush_bytes = 8192

unfoldable pub truncation_marker : List ℕ
truncation_marker = 10 ∷ codes "…[synthhires: output truncated at 4 MiB]" ++ 10 ∷ []

unfoldable pub clamp_timeout : Option ℕ → ℕ
clamp_timeout requested = max (min (unwrap_or requested 30000) max_timeout_ms) 1000

-- A stream's accumulated text, and whether something of it was dropped.
unfoldable pub push_capped : List ℕ × Bool → List ℕ → List ℕ × Bool
push_capped (buf, dropped) text =
    if leb max_output_bytes (utf8_len buf)
    then (buf, true)
    else if ltb max_output_bytes (utf8_len buf + utf8_len text)
    then (buf ++ (take (max_output_bytes - utf8_len buf) text ++ truncation_marker), true)
    else (buf ++ text, dropped)

pub record ShellRequest : Type 0 where
  pub command : String
  pub cwd : Option FilePath
  pub timeout_ms : Option ℕ

pub record ShellOutputChunk : Type 0 where
  pub channel : String
  pub text : List ℕ

pub record ShellResult : Type 0 where
  pub exit_code : Option ℤ
  pub stdout : List ℕ
  pub stderr : List ℕ
  pub duration_ms : ℕ
  pub output_truncated : Bool

-- The sending side: what was received, and how many chunks more the receiver takes.
pub record Sender : Type 0 where
  pub received : List ShellOutputChunk
  pub left : ℕ

unfoldable pub send : Sender → ShellOutputChunk → Bool × Sender
send tx chunk =
    if tx.left == 0
    then (false, tx)
    else (true, record { received = tx.received ++ chunk ∷ []; left = tx.left - 1 })

-- What `next_line` gives, up to the end of the pipe: a line of text, without its line feed and a carriage
-- return before that, or an error, as for bytes that are not UTF-8.
pub data LineRead : Type 0 where
  got_line : List ℕ → LineRead
  lost_line : LineRead

-- The variables of one of the two tasks that read a pipe.
pub record Reader : Type 0 where
  pub buffer : List ℕ
  pub dropped : Bool
  pub pending : List ℕ
  pub stream_stopped : Bool
  pub tx : Sender

module _ (channel : String) where
  -- `if !pending.is_empty() { let _ = tx.send(...) }`
  unfoldable pub flush : Sender → List ℕ → Sender
  flush tx [] = tx
  flush tx (c ∷ text) = (send tx (record { channel = channel; text = c ∷ text })).1

  unfoldable pub stop_stream : Reader → Reader
  stop_stream r = record r {
    pending = [];
    stream_stopped = true;
    tx = (send (flush r.tx r.pending) (record { channel = channel; text = truncation_marker })).1;
  }

  unfoldable pub batch : Reader → List ℕ → Bool × Reader
  batch r pending =
      if leb stream_flush_bytes (utf8_len pending)
      then (let sent = send r.tx (record { channel = channel; text = pending }) in
          (sent.0, record r { pending = []; tx = sent.1 }))
      else (true, record r { pending = pending })

  unfoldable pub after_push : Reader → List ℕ → Bool × Reader
  after_push r text =
      if r.dropped
      then (true, if r.stream_stopped then r else stop_stream r)
      else batch r (r.pending ++ text)

  -- One round of the loop over the lines, and whether the loop goes on.
  unfoldable pub read_line : Reader → List ℕ → Bool × Reader
  read_line r line =
      let text = line ++ 10 ∷ [] in
      let pushed = push_capped (r.buffer, r.dropped) text in
      after_push (record r { buffer = pushed.0; dropped = pushed.1 }) text

  -- `while let Ok(Some(line))`: an error leaves the loop as the end does.
  unfoldable pub read_lines : Reader → List LineRead → Reader
  read_lines r [] = r
  read_lines r (lost_line ∷ reads) = r
  read_lines r (got_line text ∷ reads) =
      let after = read_line r text in
      elim after.0 [ true ↦ read_lines after.1 reads | false ↦ after.1 ]

  unfoldable pub finish : Reader → Reader
  finish r = record r { pending = []; tx = flush r.tx r.pending }

  unfoldable pub pump : Sender → List LineRead → Reader
  pump tx reads = finish (
      read_lines
        (record { buffer = []; dropped = false; pending = []; stream_stopped = false; tx = tx })
        reads)
