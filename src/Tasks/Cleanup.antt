-- ===== src/Tasks/Cleanup.antt =====
-- What `cleanup_stale_tasks` removes: task_registry.rs.
use synth_hires_bridge.Prelude.{
  ℕ, ◌-◌, ◌<◌, true, ◌≡◌, ◌↔◌, ◌⊎◌, inl, inr, some, none, arith, Has, Has-retain, Option-cases,
}
use synth_hires_bridge.Tasks.{TaskState, TaskRegistry, is_fresh, cleanup_stale_tasks}

-- The task is unfinished, or ended less than `ttl` ago.
abbrev pub IsFresh : ℕ → ℕ → TaskState → Type 0
IsFresh now ttl t =
    (t.finished_at ≡ none) ⊎ ((at : ℕ) × (t.finished_at ≡ some at) × (now - at < ttl))

is_fresh_iff : (now ttl : ℕ) (t : TaskState) → (is_fresh now ttl t ≡ true) ↔ IsFresh now ttl t
unfolding is_fresh
is_fresh_iff now ttl t = (
  (λ h. elim (Option-cases t.finished_at) [
    | inl e ↦ inl e
    | inr (at, e) ↦ inr (at, e, ground arith)
  ]),
  (λ h. ground arith),
)

-- The clean-up keeps, in the local queue and in the shared list, exactly the tasks that have not
-- ended or that ended less than `ttl` ago.
pub cleanup_stale_tasks_iff :
    (r : TaskRegistry) (now ttl : ℕ) (t : TaskState)
    → (Has t (cleanup_stale_tasks r now ttl).states ↔ (Has t r.states × IsFresh now ttl t))
      × (Has t (cleanup_stale_tasks r now ttl).shared.tasks
          ↔ (Has t r.shared.tasks × IsFresh now ttl t))
unfolding cleanup_stale_tasks
cleanup_stale_tasks_iff r now ttl t =
    let fresh = is_fresh_iff now ttl t in
    let mine = Has-retain (is_fresh now ttl) t r.states in
    let ours = Has-retain (is_fresh now ttl) t r.shared.tasks in
    (((λ h. ground arith), (λ h. ground arith)), ((λ h. ground arith), (λ h. ground arith)))
