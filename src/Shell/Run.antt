-- ===== src/Shell/Run.antt =====
-- `ShellRunner::run`, `ShellResultFuture::await_result` and `terminate_child` of shell.rs.
--
-- `display` is the decimal rendering of the timeout in its error.
use synth_hires_bridge.Prelude.{
  ℕ, String, Bool, not, ◌||◌, Option, List, [], ◌∷◌, ◌++◌, ◌⊎◌, inl, inr, if◌then◌else◌,
}
use synth_hires_bridge.Prelude.Int.{ℤ}
use synth_hires_bridge.Errors.{io, cancelled, timeout, capability_denied, Result, ok, err}
use synth_hires_bridge.Capability.{CapabilityGate, allows}
use synth_hires_bridge.Capability.Paths.{FilePath, Platform, unix, windows}
use synth_hires_bridge.Shell.{
  LineRead, ShellRequest, ShellResult, Sender, Reader, pump, clamp_timeout,
}

-- How the wait under the timeout ends.
pub data Ending : Type 0 where
  exited : Option ℤ → Ending
  was_cancelled : Ending
  wait_failed : String → Ending
  timed_out : Ending

-- What the daemon does to the process, in order.
pub data Effect : Type 0 where
  signal_group_term signal_term signal_group_kill start_kill reap : Effect
  drain_pipes : Effect

-- A spawned child: its id while it is known, whether it is still there after the grace of two
-- seconds, what reading its pipes line by line gives, and its end under a timeout in milliseconds.
pub record Child : Type 0 where
  pub has_id : Bool
  pub outlives_term : Bool
  pub out_lines : List LineRead
  pub err_lines : List LineRead
  pub ends : ℕ → Ending
  pub elapsed : ℕ

unfoldable pub terminate_child : Child → List Effect
terminate_child child =
    (if child.has_id then signal_group_term ∷ signal_term ∷ [] else [])
    ++ (if child.outlives_term
        then (if child.has_id then signal_group_kill ∷ [] else []) ++ start_kill ∷ reap ∷ []
        else reap ∷ [])

-- `cmd` of `run`: the program and its arguments.
unfoldable pub argv : Platform → String → List String
argv windows command = "cmd.exe" ∷ "/C" ∷ command ∷ []
argv unix command = "bash" ∷ "-lc" ∷ command ∷ []

-- What `select!` and the test behind the timeout do to the child before the pipes are drained.
unfoldable pub stop_effects : Child → Ending → List Effect
stop_effects child (exited code) = []
stop_effects child was_cancelled = terminate_child child ++ terminate_child child
stop_effects child (wait_failed e) = terminate_child child
stop_effects child timed_out = terminate_child child

module _ (display : ℕ → String) where
  unfoldable pub outcome : ℕ → Child → Reader → Reader → Ending → Result ShellResult
  outcome timeout_ms child out errs (exited code) = ok (record {
    exit_code = code;
    stdout = out.buffer;
    stderr = errs.buffer;
    duration_ms = child.elapsed;
    output_truncated = out.dropped || errs.dropped;
  })
  outcome timeout_ms child out errs was_cancelled = err cancelled
  outcome timeout_ms child out errs (wait_failed e) = err (io e)
  outcome timeout_ms child out errs timed_out = err (timeout (display timeout_ms))

  unfoldable pub await_result : ℕ → Child → Reader → Reader → List Effect × Result ShellResult
  await_result timeout_ms child out errs =
      let end = child.ends timeout_ms in
      (stop_effects child end ++ drain_pipes ∷ [], outcome timeout_ms child out errs end)

  unfoldable pub run_spawned :
      Sender × Sender → ShellRequest → String ⊎ Child → List Effect × Result ShellResult
  run_spawned (txo, txe) req (inl e) = ([], err (io e))
  run_spawned (txo, txe) req (inr child) =
      await_result (clamp_timeout req.timeout_ms) child (pump "stdout" txo child.out_lines)
        (pump "stderr" txe child.err_lines)

  -- `run`, its two readers and `await_result`, over the channels as the readers find them.
  unfoldable pub execute :
      Platform
      → CapabilityGate
      → (List String → Option FilePath → String ⊎ Child)
      → Sender × Sender
      → ShellRequest
      → List Effect × Result ShellResult
  execute platform gate spawn tx req =
      if not (allows gate "desktop.shell.execute")
      then ([], err (capability_denied "desktop.shell.execute"))
      else run_spawned tx req (spawn (argv platform req.command) req.cwd)
