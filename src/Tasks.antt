-- ===== src/Tasks.antt =====
-- The task registry: apps/desktop-daemon/crates/daemon-core/src/task_registry.rs.
--
-- A task's `Uuid` is a number, and an `Instant` the milliseconds at which it was read; the caller
-- reads the clock and passes `now`. A `CancellationToken` of tokio is a number too, and cancelling
-- it adds it to `cancelled`. The two statics stand together in `Shared`.
pub mod Bounds
pub mod Lifecycle
pub mod Cleanup
mod Tests
use synth_hires_bridge.Prelude.{
  ℕ, ◌+◌, ◌-◌, String, Bool, true, false, not, List, [], ◌∷◌, ◌++◌, Option, none, some, ltb, leb,
  ◌==◌, if◌then◌else◌, length, drop, retain,
}

pub data TaskKind : Type 0 where
  shell_exec file_read file_write db_proxy : TaskKind
  other : String → TaskKind

-- The exit code is the text of an `i32`.
pub data TaskStatus : Type 0 where
  running cancelling : TaskStatus
  completed : Option String → TaskStatus
  failed : String → TaskStatus
  killed : TaskStatus

pub record TaskState : Type 0 where
  pub id : ℕ
  pub kind : TaskKind
  pub description : String
  pub status : TaskStatus
  pub started_at : ℕ
  pub finished_at : Option ℕ

pub record Shared : Type 0 where
  pub tasks : List TaskState
  pub cancellations : List (ℕ × ℕ)
  pub cancelled : List ℕ

abbrev pub no_tasks : Shared
no_tasks = record { tasks = []; cancellations = []; cancelled = [] }

abbrev pub max_tasks : ℕ
max_tasks = 200

module _ {ℓ} {V : Type ℓ} where
  unfoldable pub find_id : ℕ → List (ℕ × V) → Option V
  find_id id [] = none
  find_id id ((i, v) ∷ m) = if i == id then some v else find_id id m

  unfoldable pub remove_id : ℕ → List (ℕ × V) → List (ℕ × V)
  remove_id id [] = []
  remove_id id ((i, v) ∷ m) = let rest = remove_id id m in if i == id then rest else (i, v) ∷ rest

unfoldable pub register_global_cancellation : Shared → ℕ → ℕ → Shared
register_global_cancellation s id token = record s {
  cancellations = (id, token) ∷ remove_id id s.cancellations;
}

unfoldable pub cancel_global_task : Shared → ℕ → Bool × Shared
cancel_global_task s id = elim (find_id id s.cancellations) [
  | none ↦ (false, s)
  | some token ↦ (true, record s { cancelled = token ∷ s.cancelled })
]

unfoldable pub unregister_global_cancellation : Shared → ℕ → Shared
unregister_global_cancellation s id = record s { cancellations = remove_id id s.cancellations }

unfoldable pub find_task : ℕ → List TaskState → Option TaskState
find_task id [] = none
find_task id (t ∷ ts) = if t.id == id then some t else find_task id ts

-- `iter_mut().find(|task| task.id == id)`, and the write through the reference: the first match.
unfoldable pub update_first : ℕ → (TaskState → TaskState) → List TaskState → List TaskState
update_first id f [] = []
update_first id f (t ∷ ts) =
    let rest = update_first id f ts in if t.id == id then f t ∷ ts else t ∷ rest

unfoldable pub has_task : ℕ → List TaskState → Bool
has_task id [] = false
has_task id (t ∷ ts) = if t.id == id then true else has_task id ts

-- `if tasks.len() > 200 { tasks.drain(..tasks.len() - 200) }`
unfoldable pub drain_oldest : List TaskState → List TaskState
drain_oldest ts = if ltb max_tasks (length ts) then drop (length ts - max_tasks) ts else ts

unfoldable pub record_task : TaskState → List TaskState → List TaskState
record_task state ts =
    if has_task state.id ts then update_first state.id (λ _. state) ts else ts ++ state ∷ []

unfoldable pub record_global_task : Shared → TaskState → Shared
record_global_task s state = record s { tasks = drain_oldest (record_task state s.tasks) }

unfoldable pub is_terminal : TaskStatus → Bool
is_terminal running = false
is_terminal cancelling = false
is_terminal (completed code) = true
is_terminal (failed reason) = true
is_terminal killed = true

-- `is_terminal(&status).then(Instant::now)`
unfoldable pub finish_time : ℕ → TaskStatus → Option ℕ
finish_time now status = if is_terminal status then some now else none

unfoldable pub with_status : ℕ → TaskStatus → TaskState → TaskState
with_status now status t = record t { status = status; finished_at = finish_time now status }

unfoldable pub update_global_task : Shared → ℕ → ℕ → TaskStatus → Shared
update_global_task s now id status =
    let updated = record s { tasks = update_first id (with_status now status) s.tasks } in
    if is_terminal status then unregister_global_cancellation updated id else updated

unfoldable pub finish_global_task : Shared → ℕ → ℕ → TaskStatus → Shared
unfolding update_global_task
finish_global_task s now id status = update_global_task s now id status

-- What a registry can kill: a child process, or a future by its token.
pub data TaskHandle : Type 0 where
  child_process : TaskHandle
  cancellable_future : ℕ → TaskHandle

pub record TaskRegistry : Type 0 where
  pub max_capacity : ℕ
  pub states : List TaskState
  pub handles : List (ℕ × TaskHandle)
  pub shared : Shared

unfoldable pub pop_front : List TaskState → List TaskState
pop_front [] = []
pop_front (t ∷ ts) = ts

unfoldable pub spawn_task : TaskRegistry → TaskState → TaskHandle → TaskRegistry
spawn_task r state handle =
    let kept = if leb r.max_capacity (length r.states) then pop_front r.states else r.states in
    record r {
      states = kept ++ state ∷ [];
      handles = (state.id, handle) ∷ remove_id state.id r.handles;
      shared = record_global_task r.shared state;
    }

-- `states()`: the local queue becomes a copy of the shared one.
unfoldable pub refresh : TaskRegistry → TaskRegistry
refresh r = record r { states = r.shared.tasks }

unfoldable pub mark_status : TaskRegistry → ℕ → ℕ → TaskStatus → TaskRegistry
mark_status r now id status = record r {
  states = update_first id (with_status now status) r.states;
  shared = update_global_task r.shared now id status;
  handles = if is_terminal status then remove_id id r.handles else r.handles;
}

-- `kill_task` with a handle of the registry's own, which has been removed.
unfoldable pub kill_handle : TaskRegistry → ℕ → ℕ → TaskHandle → TaskRegistry
kill_handle r now id child_process = mark_status r now id killed
kill_handle r now id (cancellable_future token) =
    mark_status (record r { shared = record r.shared { cancelled = token ∷ r.shared.cancelled } })
      now id cancelling

unfoldable pub kill_task : TaskRegistry → ℕ → ℕ → Bool × TaskRegistry
kill_task r now id = elim (find_id id r.handles) [
  | some handle ↦ (true, kill_handle (record r { handles = remove_id id r.handles }) now id handle)
  | none ↦
      let (found, shared) = cancel_global_task r.shared id in
      if found
      then (true, mark_status (record r { shared = shared }) now id cancelling)
      else (false, r)
]

-- The test of both `retain`s in `cleanup_stale_tasks`; `duration_since` stops at zero.
unfoldable pub is_fresh : ℕ → ℕ → TaskState → Bool
is_fresh now ttl t = elim t.finished_at [ none ↦ true | some at ↦ ltb (now - at) ttl ]

unfoldable pub cleanup_stale_tasks : TaskRegistry → ℕ → ℕ → TaskRegistry
cleanup_stale_tasks r now ttl = record r {
  states = retain (is_fresh now ttl) r.states;
  shared = record r.shared { tasks = retain (is_fresh now ttl) r.shared.tasks };
}
