-- ===== src/Pty/Sessions.antt =====
-- `PtyEngine` of pty_ops.rs: the sessions and the operations on them.
--
-- `boot` is what spawning a shell and its handshake give. `first` is the key that `HashMap::keys`
-- gives first. The output that a command adds is given by the slices of its wait.
use Prim.Native.String.{◌++◌ as ◌+++◌}
use synth_hires_bridge.Prelude.{
  ℕ, String, Bool, true, false, not, ◌⊎◌, inl, inr, Option, none, some, List, [], ◌∷◌,
  if◌then◌else◌, leb, length, map,
}
use synth_hires_bridge.Prelude.Text.{codes, trim}
use synth_hires_bridge.Prelude.Map.{Map, lookup, insert, without}
use synth_hires_bridge.Capability.{CapabilityGate, allows}
use synth_hires_bridge.Pty.{BufferState}
use synth_hires_bridge.Pty.Settle.{Slice, wait_output, shared_drain}

abbrev pub max_sessions : ℕ
max_sessions = 8

pub record PtySession : Type 0 where
  pub alive : Bool
  pub output : Option BufferState

pub data PtyOp : Type 0 where
  run : String → String → PtyOp
  read status exit : String → PtyOp
  list : PtyOp

pub data PtyResult : Type 0 where
  ran : String → List ℕ → Bool → PtyResult
  was_read : String → List ℕ → PtyResult
  is_alive : String → Bool → PtyResult
  sessions : List String → PtyResult
  exited : String → Bool → PtyResult
  failed : String → PtyResult

-- What a shell makes of one command: whether the command could be written, the slices of the wait,
-- and whether the shell is there afterwards.
pub record Run : Type 0 where
  pub written : Bool
  pub slices : List Slice
  pub alive_after : Bool

module _ (first : Map PtySession → Option String) where
  unfoldable pub make_room : Map PtySession → Map PtySession
  make_room m =
      if leb max_sessions (length m)
      then elim (first m) [ none ↦ m | some oldest ↦ without oldest m ]
      else m

  unfoldable pub create :
      String → String ⊎ PtySession → Map PtySession → (String ⊎ PtySession) × Map PtySession
  create session (inl e) m = (inl e, m)
  create session (inr booted) m = (inr booted, insert session booted (make_room m))

  unfoldable pub found_or_created :
      String
      → String ⊎ PtySession
      → Option PtySession
      → Map PtySession
      → (String ⊎ PtySession) × Map PtySession
  found_or_created session boot (some existing) m = (inr existing, m)
  found_or_created session boot none m = create session boot m

  unfoldable pub get_or_create :
      String → String ⊎ PtySession → Map PtySession → (String ⊎ PtySession) × Map PtySession
  get_or_create session boot m = found_or_created session boot (lookup session m) m

  -- The answer behind the wait. A wait that does not end is cut by the last slice given.
  unfoldable pub tell_run :
      String
      → Bool
      → Map PtySession
      → Option (ℕ × List ℕ × Option BufferState)
      → PtyResult × Map PtySession
  tell_run session alive m none = (failed "waiting", m)
  tell_run session alive m (some (n, text, left)) =
      (ran session text (not alive), insert session (record { alive = alive; output = left }) m)

  -- `run` behind its gate and its test for an empty command.
  unfoldable pub run_in :
      String → Run → (String ⊎ PtySession) × Map PtySession → PtyResult × Map PtySession
  run_in session r (inl e, m) = (failed e, m)
  run_in session r (inr shell, m) =
      if not shell.alive
      then (failed ("run: session '" +++ (session +++ "' already exited; use a new session id")), m)
      else if not r.written
      then (failed "write", m)
      else tell_run session r.alive_after m (wait_output shell.output r.slices)

  unfoldable pub read_from :
      String → Option PtySession → Map PtySession → PtyResult × Map PtySession
  read_from session none m = (failed ("read: unknown session '" +++ session +++ "'"), m)
  read_from session (some shell) m =
      let drained = shared_drain shell.output in
      (was_read session drained.0, insert session (record shell { output = drained.1 }) m)

  unfoldable pub exit_from :
      String → Option PtySession → Map PtySession → PtyResult × Map PtySession
  exit_from session none m = (exited session false, m)
  exit_from session (some shell) m = (exited session true, without session m)

  -- `run` with the trimmed command.
  unfoldable pub run_text :
      List ℕ → String → String ⊎ PtySession → Run → Map PtySession → PtyResult × Map PtySession
  run_text [] session boot r m = (failed "run: command is empty", m)
  run_text (c ∷ text) session boot r m = run_in session r (get_or_create session boot m)

  unfoldable pub allowed_op :
      String ⊎ PtySession → Run → PtyOp → Map PtySession → PtyResult × Map PtySession
  allowed_op boot r (run session command) m = run_text (trim (codes command)) session boot r m
  allowed_op boot r (read session) m = read_from session (lookup session m) m
  allowed_op boot r (status session) m = (
    elim (lookup session m) [
      | none ↦ is_alive session false
      | some shell ↦ is_alive session shell.alive
    ],
    m,
  )
  allowed_op boot r list m = (sessions (map (λ (entry : String × PtySession). entry.0) m), m)
  allowed_op boot r (exit session) m = exit_from session (lookup session m) m

  unfoldable pub execute :
      CapabilityGate
      → String ⊎ PtySession
      → Run
      → PtyOp
      → Map PtySession
      → PtyResult × Map PtySession
  execute gate boot r op m =
      if allows gate "desktop.shell.execute"
      then allowed_op boot r op m
      else (failed "desktop.pty: capability not granted (desktop.shell.execute)", m)
