-- ===== src/Tasks/Bounds.antt =====
-- The shared task list stays within its bound, with one entry for each task: task_registry.rs.
use synth_hires_bridge.Prelude.{
  ℕ, ◌≤◌, ◌-◌, true, false, ◌≡◌, refl, ◌≢◌, List, [], ◌∷◌, ◌++◌, some, arith, length, drop,
  length-append, length-drop, All, All-append, Bool-cases, inl, inr, ==_iff, ◌==◌, subst, sym, ap,
  ◌∙◌, zero, suc, ltb,
}
use synth_hires_bridge.Tasks.{
  TaskState, TaskStatus, Shared, max_tasks, find_task, has_task, update_first, drain_oldest,
  record_task, record_global_task, with_status, update_global_task, unregister_global_cancellation,
}

-- No two entries have one id.
abbrev pub DistinctIds : List TaskState → Type 0
DistinctIds [] = Unit
DistinctIds (t ∷ ts) = All (λ u. u.id ≢ t.id) ts × DistinctIds ts

pub record Inv (s : Shared) : Type 0 where
  pub bounded : length s.tasks ≤ max_tasks
  pub distinct : DistinctIds s.tasks

length-update_first :
    (id : ℕ) (f : TaskState → TaskState) (ts : List TaskState)
    → length (update_first id f ts) ≡ length ts
unfolding update_first
length-update_first id f [] = refl
length-update_first id f (t ∷ ts) = ground (arith, length-update_first id f ts)

-- An update that keeps ids keeps what is said of ids.
All-update_first :
    (P : ℕ → Type 0) (id : ℕ) (f : TaskState → TaskState) (ts : List TaskState)
    → ((t : TaskState) → t.id ≡ id → (f t).id ≡ id)
    → All (λ t. P t.id) ts
    → All (λ t. P t.id) (update_first id f ts)
unfolding update_first
All-update_first P id f [] keep h = h
All-update_first P id f (t ∷ ts) keep h = elim (Bool-cases (t.id == id)) [
  | inl hit ↦
      let e : t.id ≡ id = (==_iff t.id id).0 hit in rw hit (subst P (e ∙ sym (keep t e)) h.0, h.1)
  | inr miss ↦ rw miss (h.0, All-update_first P id f ts keep h.1)
]

DistinctIds-drop : (n : ℕ) (ts : List TaskState) → DistinctIds ts → DistinctIds (drop n ts)
DistinctIds-drop zero ts h = h
DistinctIds-drop (suc n) [] h = h
DistinctIds-drop (suc n) (t ∷ ts) h = DistinctIds-drop n ts h.1

length-drain_oldest : (ts : List TaskState) → length (drain_oldest ts) ≤ max_tasks
unfolding drain_oldest
length-drain_oldest ts = ground (arith, length-drop (length ts - max_tasks) ts)

DistinctIds-update_first :
    (id : ℕ) (f : TaskState → TaskState) (ts : List TaskState)
    → ((t : TaskState) → t.id ≡ id → (f t).id ≡ id)
    → DistinctIds ts
    → DistinctIds (update_first id f ts)
unfolding update_first
DistinctIds-update_first id f [] keep h = h
DistinctIds-update_first id f (t ∷ ts) keep h = elim (Bool-cases (t.id == id)) [
  | inl hit ↦
      let e : t.id ≡ id = (==_iff t.id id).0 hit in
      rw hit (subst (λ i. All (λ u. u.id ≢ i) ts) (e ∙ sym (keep t e)) h.0, h.1)
  | inr miss ↦
      rw miss (
        All-update_first (λ i. i ≢ t.id) id f ts keep h.0,
        DistinctIds-update_first id f ts keep h.1,
      )
]

has_task-false : (id : ℕ) (ts : List TaskState) → has_task id ts ≡ false → All (λ t. t.id ≢ id) ts
unfolding has_task
has_task-false id [] h = tt
has_task-false id (t ∷ ts) h = ground (arith, has_task-false id ts)

DistinctIds-append :
    (ts : List TaskState) (t : TaskState)
    → DistinctIds ts
    → All (λ u. u.id ≢ t.id) ts
    → DistinctIds (ts ++ t ∷ [])
DistinctIds-append [] t h k = (tt, tt)
DistinctIds-append (u ∷ ts) t h k = (
  (All-append (λ x. x.id ≢ u.id) ts (t ∷ [])).1 (h.0, ((λ e. k.0 (sym e)), tt)),
  DistinctIds-append ts t h.1 k.1,
)

DistinctIds-drain_oldest : (ts : List TaskState) → DistinctIds ts → DistinctIds (drain_oldest ts)
unfolding drain_oldest
DistinctIds-drain_oldest ts h = elim (Bool-cases (ltb max_tasks (length ts))) [
  | inl over ↦ rw over (DistinctIds-drop (length ts - max_tasks) ts h)
  | inr within ↦ rw within h
]

DistinctIds-record_task :
    (state : TaskState) (ts : List TaskState) → DistinctIds ts → DistinctIds (record_task state ts)
unfolding record_task
DistinctIds-record_task state ts h = elim (Bool-cases (has_task state.id ts)) [
  | inl old ↦ rw old (DistinctIds-update_first state.id (λ _. state) ts (λ t e. refl) h)
  | inr new ↦ rw new (DistinctIds-append ts state h (has_task-false state.id ts new))
]

-- Where the shared list has at most 200 entries, one for each action, it still has after an action
-- is registered.
pub record_global_task-Inv :
    (s : Shared) (state : TaskState) → Inv s → Inv (record_global_task s state)
unfolding record_global_task
record_global_task-Inv s state v = record {
  bounded = length-drain_oldest (record_task state s.tasks);
  distinct =
      DistinctIds-drain_oldest (record_task state s.tasks)
        (DistinctIds-record_task state s.tasks v.distinct);
}

tasks-update_global_task :
    (s : Shared) (now id : ℕ) (status : TaskStatus)
    → (update_global_task s now id status).tasks ≡ update_first id (with_status now status) s.tasks
unfolding update_global_task unregister_global_cancellation
tasks-update_global_task s now id status = ground arith

-- Where the shared list has at most 200 entries, one for each action, it still has after a change
-- of status.
pub update_global_task-Inv :
    (s : Shared) (now id : ℕ) (status : TaskStatus)
    → Inv s
    → Inv (update_global_task s now id status)
update_global_task-Inv s now id status v = record {
  bounded = omega (
    arith,
    ap length (tasks-update_global_task s now id status),
    length-update_first id (with_status now status) s.tasks,
    v.bounded,
  );
  distinct =
      rw (tasks-update_global_task s now id status)
        (DistinctIds-update_first id (with_status now status) s.tasks keeps v.distinct);
}
  where
    keeps : (t : TaskState) → t.id ≡ id → (with_status now status t).id ≡ id
    keeps t e = unfold with_status in e

find-append :
    (ts : List TaskState) (t : TaskState)
    → All (λ u. u.id ≢ t.id) ts
    → find_task t.id (ts ++ t ∷ []) ≡ some t
unfolding find_task
find-append [] t h = ground arith
find-append (u ∷ ts) t h = ground (arith, find-append ts t h.1)

find-update_first :
    (state : TaskState) (ts : List TaskState)
    → has_task state.id ts ≡ true
    → find_task state.id (update_first state.id (λ _. state) ts) ≡ some state
unfolding find_task update_first has_task
find-update_first state [] h = cc
find-update_first state (t ∷ ts) h = ground (arith, find-update_first state ts)

drop-append_one :
    (n : ℕ) (ts : List TaskState) (t : TaskState)
    → n ≤ length ts
    → drop n (ts ++ t ∷ []) ≡ drop n ts ++ t ∷ []
drop-append_one zero ts t h = refl
drop-append_one (suc n) [] t h = absurd (omega arith)
drop-append_one (suc n) (u ∷ ts) t h = drop-append_one n ts t (omega arith)

All-drop : (P : TaskState → Type 0) (n : ℕ) (ts : List TaskState) → All P ts → All P (drop n ts)
All-drop P zero ts h = h
All-drop P (suc n) [] h = h
All-drop P (suc n) (t ∷ ts) h = All-drop P n ts h.1

drain_oldest-within : (ts : List TaskState) → length ts ≤ max_tasks → drain_oldest ts ≡ ts
unfolding drain_oldest
drain_oldest-within ts h = ground arith

find-drain-append :
    (ts : List TaskState) (t : TaskState)
    → length ts ≤ max_tasks
    → All (λ u. u.id ≢ t.id) ts
    → find_task t.id (drain_oldest (ts ++ t ∷ [])) ≡ some t
unfolding drain_oldest
find-drain-append ts t h k =
    let full = length (ts ++ t ∷ []) in
    elim (Bool-cases (ltb max_tasks full)) [
      | inl over ↦ rw over (
          rw (drop-append_one (full - max_tasks) ts t (omega (arith, length-append ts (t ∷ [])))) (
            find-append (drop (full - max_tasks) ts) t
              (All-drop (λ u. u.id ≢ t.id) (full - max_tasks) ts k)))
      | inr within ↦ rw within (find-append ts t k)
    ]

-- Where the shared list is within its bound, with one entry for each task, the action just
-- registered is found in it, in the state given, even when the oldest entry makes room.
pub find-record_global_task :
    (s : Shared) (state : TaskState)
    → Inv s
    → find_task state.id (record_global_task s state).tasks ≡ some state
unfolding record_global_task record_task
find-record_global_task s state v = elim (Bool-cases (has_task state.id s.tasks)) [
  | inl old ↦
      let updated = update_first state.id (λ _. state) s.tasks in
      let fits : length updated ≤ max_tasks =
        omega (arith, v.bounded, length-update_first state.id (λ _. state) s.tasks) in
      rw old (rw (drain_oldest-within updated fits) (find-update_first state s.tasks old))
  | inr new ↦
      rw new (find-drain-append s.tasks state v.bounded (has_task-false state.id s.tasks new))
]
