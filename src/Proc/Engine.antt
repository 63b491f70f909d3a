-- ===== src/Proc/Engine.antt =====
-- `ProcEngine` of apps/desktop-daemon/crates/daemon-core/src/proc_ops.rs: the managed processes, and the
-- task that watches each of them.
--
-- An event is one hold of the engine's lock, or the end of a watching task. `start` is two of them, for
-- the watching task runs from before the process is put into the map. Ids are those of the task
-- registry. What a command does is given by the events; `probe` only opens a connection.
use Prim.Native.String.{◌++◌ as ◌+++◌}
use synth_hires_bridge.Prelude.{
  ℕ, min, max, String, Bool, true, false, not, Option, none, some, List, [], ◌∷◌, ◌⊎◌, inl, inr,
  if◌then◌else◌, leb, unwrap_or, map,
}
use synth_hires_bridge.Prelude.Int.{ℤ}
use synth_hires_bridge.Prelude.Text.{codes, trim}
use synth_hires_bridge.Capability.{CapabilityGate, allows}
use synth_hires_bridge.Tasks.{
  TaskStatus, Shared, find_id, remove_id, update_global_task, register_global_cancellation,
  record_global_task, TaskState, running, completed, killed, failed,
}
use synth_hires_bridge.Proc.{LogRing, default, push, read}

pub data ProcState : Type 0 where
  is_running : ProcState
  exited : ℤ → ProcState
  was_killed : ProcState
  has_failed : String → ProcState

unfoldable pub label : ProcState → String
label is_running = "running"
label (exited code) = "exited"
label was_killed = "killed"
label (has_failed reason) = "failed"

unfoldable pub code_of : ProcState → Option ℤ
code_of (exited code) = some code
code_of _ = none

pub record ProcHandle : Type 0 where
  pub command : String
  pub args : List String
  pub state : ProcState
  pub logs : LogRing
  pub cancel : ℕ

pub record ProcEngine : Type 0 where
  pub procs : List (ℕ × ProcHandle)
  pub shared : Shared

pub record ProcEntry : Type 0 where
  pub id : ℕ
  pub command : String
  pub args : List String
  pub status : String
  pub exit_code : Option ℤ

unfoldable pub updated :
    ℕ
    → (ProcHandle → ProcHandle)
    → List (ℕ × ProcHandle)
    → Option ProcHandle
    → List (ℕ × ProcHandle)
updated id f procs none = procs
updated id f procs (some handle) = (id, f handle) ∷ remove_id id procs

-- `map.get_mut(&id)` and the write through it.
unfoldable pub update_id :
    ℕ → (ProcHandle → ProcHandle) → List (ℕ × ProcHandle) → List (ℕ × ProcHandle)
update_id id f procs = updated id f procs (find_id id procs)

-- The tests of `start`, and the spawn behind them.
unfoldable pub start_check : CapabilityGate → String → String ⊎ Unit {0} → String ⊎ Unit {0}
start_check gate command spawned =
    if not (allows gate "desktop.shell.execute")
    then inl "desktop.proc.op: capability not granted (desktop.shell.execute)"
    else elim (trim (codes command)) [ [] ↦ inl "start: command is empty" | c ∷ text ↦ spawned ]

-- The seed in the task registry, once the process is spawned.
unfoldable pub start_task : ProcEngine → TaskState → ℕ → ProcEngine
start_task engine task token = record engine {
  shared = register_global_cancellation (record_global_task engine.shared task) task.id token;
}

-- The `map.insert` at the end of `start`.
unfoldable pub start_insert : ProcEngine → ℕ → String → List String → ℕ → ProcEngine
start_insert engine id command args token = record engine {
  procs =
      (
        id,
        record {
          command = command;
          args = args;
          state = is_running;
          logs = default;
          cancel = token;
        },
      )
      ∷ remove_id id engine.procs;
}

unfoldable pub signal_state : ProcEngine → ℕ → ProcState → (String ⊎ Bool) × ProcEngine
signal_state engine token is_running = (
  inr true,
  record engine { shared = record engine.shared { cancelled = token ∷ engine.shared.cancelled } },
)
signal_state engine token (exited code) = (inr false, engine)
signal_state engine token was_killed = (inr false, engine)
signal_state engine token (has_failed reason) = (inr false, engine)

unfoldable pub signal_handle : ProcEngine → Option ProcHandle → (String ⊎ Bool) × ProcEngine
signal_handle engine none = (inl "signal: unknown proc", engine)
signal_handle engine (some handle) = signal_state engine handle.cancel handle.state

unfoldable pub signal : ProcEngine → ℕ → (String ⊎ Bool) × ProcEngine
signal engine id = signal_handle engine (find_id id engine.procs)

-- The lines from a start, the total, and whether the process runs.
unfoldable pub logs : ProcEngine → ℕ → Option ℕ → Option ℕ → String ⊎ (List String × ℕ × Bool)
logs engine id start max_lines = elim (find_id id engine.procs) [
  | none ↦ inl "logs: unknown proc"
  | some handle ↦
      let told = read handle.logs start max_lines in
      inr (told.0, told.1, elim handle.state [ is_running ↦ true | _ ↦ false ])
]

-- `timeout_ms.unwrap_or(10_000).clamp(100, 60_000)`
unfoldable pub wait_limit : Option ℕ → ℕ
wait_limit timeout_ms = min (max (unwrap_or timeout_ms 10000) 100) 60000

-- The answer of `wait` at one state, once the deadline is past or not: `none` is another sleep.
unfoldable pub wait_answer : Bool → ProcState → Option (String ⊎ (Bool × Option ℤ))
wait_answer late is_running = if late then some (inr (true, none)) else none
wait_answer late (exited code) = some (inr (false, some code))
wait_answer late was_killed = some (inr (false, none))
wait_answer late (has_failed reason) = some (inl ("wait: proc failed: " +++ reason))

-- The loop of `wait`, over the engines that it finds and whether the deadline is past.
unfoldable pub wait : ℕ → List (ProcEngine × Bool) → Option (String ⊎ (Bool × Option ℤ))
wait id [] = none
wait id ((engine, late) ∷ polls) =
    let rest = wait id polls in
    elim (find_id id engine.procs) [
      | none ↦ some (inl "wait: unknown proc")
      | some handle ↦ elim (wait_answer late handle.state) [
        | none ↦ rest
        | some answer ↦ some answer
      ]
    ]

unfoldable pub entry_of : ℕ × ProcHandle → ProcEntry
entry_of (id, handle) = record {
  id = id;
  command = handle.command;
  args = handle.args;
  status = label handle.state;
  exit_code = code_of handle.state;
}

unfoldable pub by_id : ProcEntry → List ProcEntry → List ProcEntry
by_id e [] = e ∷ []
by_id e (x ∷ xs) = if leb e.id x.id then e ∷ x ∷ xs else x ∷ by_id e xs

-- `procs.sort_by(|a, b| a.id.cmp(&b.id))`
unfoldable pub sort_by_id : List ProcEntry → List ProcEntry
sort_by_id [] = []
sort_by_id (e ∷ es) = by_id e (sort_by_id es)

unfoldable pub list : ProcEngine → List ProcEntry
list engine = sort_by_id (map entry_of engine.procs)

pub data Event : Type 0 where
  started : ℕ → String → List String → ℕ → Event
  signalled : ℕ → Event
  wrote : ℕ → String → Event
  ended : ℕ → ProcState → Bool → ℕ → Event

module _ (display : ℤ → String) where
  -- The status for the registry.
  unfoldable pub status_of : ProcState → TaskStatus
  status_of is_running = running
  status_of (exited code) = completed (some (display code))
  status_of was_killed = killed
  status_of (has_failed reason) = failed reason

  -- The end of `monitor`: `try_lock` gives up where the lock is held.
  unfoldable pub monitor_end : ProcEngine → ℕ → ProcState → Bool → ℕ → ProcEngine
  monitor_end engine id status held now = record {
    procs =
        if held then engine.procs else update_id id (λ h. record h { state = status }) engine.procs;
    shared = update_global_task engine.shared now id (status_of status);
  }

  unfoldable pub step : ProcEngine → Event → ProcEngine
  step engine (started id command args token) = start_insert engine id command args token
  step engine (signalled id) = (signal engine id).1
  step engine (wrote id line) = record engine {
    procs = update_id id (λ h. record h { logs = push h.logs line }) engine.procs;
  }
  step engine (ended id status held now) = monitor_end engine id status held now

  unfoldable pub steps : ProcEngine → List Event → ProcEngine
  steps engine [] = engine
  steps engine (e ∷ events) = steps (step engine e) events
