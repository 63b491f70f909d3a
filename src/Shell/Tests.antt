-- ===== src/Shell/Tests.antt =====
-- Short commands and their streams.
use synth_hires_bridge.Prelude.{
  ℕ, ◌+◌, ◌≤◌, String, true, false, ◌≡◌, refl, none, some, List, [], ◌∷◌, ◌⊎◌, inr, ◌||◌, Option,
  arith, length,
}
use synth_hires_bridge.Prelude.Text.{codes}
use synth_hires_bridge.Prelude.Chars.{utf8_len, len_utf8}
use synth_hires_bridge.Prelude.Int.{pos}
use synth_hires_bridge.Errors.{ok}
use synth_hires_bridge.Capability.{CapabilityGate, allows}
use synth_hires_bridge.Capability.Paths.{FilePath, unix}
use synth_hires_bridge.Shell.{
  LineRead, got_line, lost_line, Sender, ShellRequest, ShellResult, pump, read_lines, read_line,
  after_push, batch, finish, flush, send, push_capped, clamp_timeout,
}
use synth_hires_bridge.Shell.Pump.{pump_bounds}
use synth_hires_bridge.Shell.Stream.{texts, unlines}
use synth_hires_bridge.Shell.Run.{Child, exited, argv, execute, run_spawned, await_result, outcome}
use synth_hires_bridge.Shell.Outcomes.{Told, execute-ok}

abbrev listener : Sender
listener = record { received = []; left = 1000 }

abbrev two_lines : List LineRead
two_lines = got_line (codes "Cargo.toml") ∷ got_line (codes "src") ∷ []

-- A line that is not UTF-8 ends the output, and nothing notes it.
abbrev torn : List LineRead
torn = got_line (codes "a") ∷ lost_line ∷ got_line (codes "b") ∷ []

torn_silently :
    ((pump "stdout" listener torn).buffer ≡ unlines (codes "a" ∷ []))
    × ((pump "stdout" listener torn).dropped ≡ false)
unfolding pump read_lines read_line after_push batch finish flush send push_capped utf8_len len_utf8
torn_silently = (refl, refl)

-- A short output is one chunk.
one_chunk :
    texts (pump "stdout" listener two_lines).tx.received
    ≡ unlines (codes "Cargo.toml" ∷ codes "src" ∷ [])
unfolding pump read_lines read_line after_push batch finish flush send push_capped utf8_len len_utf8
one_chunk = refl

pump_bounds_example :
    (length (pump "stdout" listener two_lines).tx.received ≤ 0 + 514)
    × (utf8_len (pump "stdout" listener two_lines).buffer ≤ 16777260)
pump_bounds_example = pump_bounds "stdout" listener two_lines

abbrev gate : CapabilityGate
gate = record {
  snapshot = record {
    capabilities = "desktop.shell.execute" ∷ [];
    always_allow_paths = [];
    one_shot_paths = [];
  };
}

abbrev child : Child
child = record {
  has_id = true;
  outlives_term = true;
  out_lines = two_lines;
  err_lines = [];
  ends = λ timeout_ms. exited (some (pos 0));
  elapsed = 12;
}

abbrev spawn : List String → Option FilePath → String ⊎ Child
spawn args cwd = inr child

abbrev request : ShellRequest
request = record { command = "ls"; cwd = none; timeout_ms = some 5 }

abbrev display : ℕ → String
display n = "1000"

abbrev result : ShellResult
result = record {
  exit_code = some (pos 0);
  stdout = (pump "stdout" listener two_lines).buffer;
  stderr = (pump "stderr" listener []).buffer;
  duration_ms = 12;
  output_truncated =
      (pump "stdout" listener two_lines).dropped || (pump "stderr" listener []).dropped;
}

finished : (execute display unix gate spawn (listener, listener) request).1 ≡ ok result
unfolding execute run_spawned await_result outcome allows
finished = refl

execute-ok_example :
    (allows gate "desktop.shell.execute" ≡ true)
    × ((c : Child) × (spawn (argv unix "ls") none ≡ inr c) × Told display c result)
execute-ok_example =
    execute-ok display unix gate spawn listener listener request (omega arith) (omega arith)
      finished

-- A timeout under a second is a second.
short_timeout : clamp_timeout (some 5) ≡ 1000
unfolding clamp_timeout
short_timeout = refl
