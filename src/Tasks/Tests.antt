-- ===== src/Tasks/Tests.antt =====
-- The registry on concrete tasks.
use synth_hires_bridge.Prelude.{none, [], ◌∷◌, arith}
use synth_hires_bridge.Tasks.{
  TaskState, running, shell_exec, file_read, Shared, TaskRegistry, record_global_task,
}
use synth_hires_bridge.Tasks.Bounds.{Inv, record_global_task-Inv}

abbrev build : TaskState
build = record {
  id = 7;
  kind = shell_exec;
  description = "cargo build";
  status = running;
  started_at = 1000;
  finished_at = none;
}

abbrev scan : TaskState
scan = record {
  id = 8;
  kind = file_read;
  description = "scan";
  status = running;
  started_at = 1100;
  finished_at = none;
}

abbrev shared : Shared
shared = record { tasks = build ∷ []; cancellations = (7, 42) ∷ []; cancelled = [] }

shared-Inv : Inv shared
shared-Inv = record { bounded = omega arith; distinct = (tt, tt) }

record_global_task-Inv_example : Inv (record_global_task shared scan)
record_global_task-Inv_example = record_global_task-Inv shared scan shared-Inv

abbrev registry : TaskRegistry
registry = record { max_capacity = 50; states = []; handles = []; shared = shared }
