-- ===== src/Tasks/Lifecycle.antt =====
-- How a task ends, and what a kill request does before it ends: task_registry.rs.
use synth_hires_bridge.Prelude.{
  ℕ, true, ◌≡◌, refl, List, [], ◌∷◌, Option, none, some, arith, ◌==◌, if◌then◌else◌,
}
use synth_hires_bridge.Tasks.{
  TaskState, TaskStatus, cancelling, Shared, find_task, find_id, remove_id, update_first,
  is_terminal, finish_time, with_status, update_global_task, unregister_global_cancellation,
  cancel_global_task, TaskRegistry, kill_task, mark_status,
}

abbrev pub map_state : (TaskState → TaskState) → Option TaskState → Option TaskState
map_state f none = none
map_state f (some t) = some (f t)

find-update_first :
    (id j : ℕ) (f : TaskState → TaskState) (ts : List TaskState)
    → ((t : TaskState) → (f t).id ≡ t.id)
    → find_task j (update_first id f ts)
      ≡ (if id == j then map_state f (find_task j ts) else find_task j ts)
unfolding find_task update_first
find-update_first id j f [] keep = ground arith
find-update_first id j f (t ∷ ts) keep = ground (arith, keep t, find-update_first id j f ts keep)

find-remove_id {ℓ} :
    {V : Type ℓ} (id j : ℕ) (m : List (ℕ × V))
    → find_id j (remove_id id m) ≡ (if id == j then none else find_id j m)
unfolding find_id remove_id
find-remove_id id j [] = ground arith
find-remove_id id j ((i, v) ∷ m) = ground (arith, find-remove_id id j m)

-- A status update reaches the task with that id and no other; a terminal status dates its end and
-- a status that is not leaves no end date.
pub find-update_global_task :
    (s : Shared) (now id j : ℕ) (status : TaskStatus)
    → find_task j (update_global_task s now id status).tasks ≡ (
        if id == j
        then map_state (with_status now status) (find_task j s.tasks)
        else find_task j s.tasks)
unfolding update_global_task unregister_global_cancellation
find-update_global_task s now id j status = ground (
  arith,
  find-update_first id j (with_status now status) s.tasks (λ t. unfold with_status in refl),
)

-- A task that has ended can be cancelled no more: a terminal status drops its cancellation token,
-- and any other status, and every other task's token, is left alone.
pub cancellation-update_global_task :
    (s : Shared) (now id j : ℕ) (status : TaskStatus)
    → find_id j (update_global_task s now id status).cancellations ≡ (
        if is_terminal status
        then (if id == j then none else find_id j s.cancellations)
        else find_id j s.cancellations)
unfolding update_global_task unregister_global_cancellation
cancellation-update_global_task s now id j status =
    ground (arith, find-remove_id id j s.cancellations)

cancelled-update_global_task :
    (s : Shared) (now id : ℕ) (status : TaskStatus)
    → (update_global_task s now id status).cancelled ≡ s.cancelled
unfolding update_global_task unregister_global_cancellation
cancelled-update_global_task s now id status = ground arith

-- Killing an action that is listed, has a cancellation token, and is not the registry's own only
-- signals it: the token is cancelled and stays registered, and the shared entry waits in
-- `cancelling`, with no end date.
pub kill_task-cancelling :
    (r : TaskRegistry) (now id token : ℕ) (t : TaskState)
    → find_id id r.handles ≡ none
    → find_id id r.shared.cancellations ≡ some token
    → find_task id r.shared.tasks ≡ some t
    → let killed = kill_task r now id in
      (killed.0 ≡ true)
      × (killed.1.shared.cancelled ≡ token ∷ r.shared.cancelled)
      × (find_task id killed.1.shared.tasks
          ≡ some (record t { status = cancelling; finished_at = none }))
      × (find_id id killed.1.shared.cancellations ≡ some token)
unfolding kill_task cancel_global_task mark_status
kill_task-cancelling r now id token t h k e =
    let signalled = record r.shared { cancelled = token ∷ r.shared.cancelled } in
    let found = find-update_global_task signalled now id id cancelling in
    let armed = cancellation-update_global_task signalled now id id cancelling in
    let kept = cancelled-update_global_task signalled now id cancelling in
    (
      ground arith,
      ground arith,
      unfold with_status finish_time is_terminal in ground arith,
      unfold is_terminal in ground arith,
    )
