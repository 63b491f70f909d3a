-- ===== src/Proc/Watching.antt =====
-- Which states of a managed process proc_ops.rs shows: a process changes its state by its own end only,
-- and an end that finds the lock held or the process not yet in the map is never shown.
use mathlib.Core.Option
use synth_hires_bridge.Prelude.{
  ℕ, String, Bool, true, false, ◌≡◌, ◌≢◌, refl, sym, ap, ◌∙◌, ◌⊎◌, inl, inr, Option, none, some,
  List, [], ◌∷◌, if◌then◌else◌, arith, All, Bool-cases, ◌==◌, ==_iff,
}
use synth_hires_bridge.Prelude.Int.{ℤ}
use synth_hires_bridge.Tasks.{find_id, remove_id}
use synth_hires_bridge.Proc.{push}
use synth_hires_bridge.Proc.Engine.{
  ProcState, is_running, ProcHandle, ProcEngine, updated, update_id, start_insert, signal,
  signal_state, signal_handle, monitor_end, Event, started, signalled, wrote, ended, step, steps,
}

find_id-remove_id :
    {V : Type 0} (j id : ℕ) (m : List (ℕ × V))
    → find_id j (remove_id id m) ≡ (if id == j then none else find_id j m)
unfolding find_id remove_id
find_id-remove_id j id [] = ground arith
find_id-remove_id j id ((i, v) ∷ m) = ground (arith, find_id-remove_id j id m)

-- The state under an id, if there is a process.
abbrev pub state_of : ℕ → ProcEngine → Option ProcState
state_of id engine = Option.map (λ (h : ProcHandle). h.state) (find_id id engine.procs)

updated-same :
    (j id : ℕ) (f : ProcHandle → ProcHandle) (procs : List (ℕ × ProcHandle))
    (found : Option ProcHandle)
    → find_id id procs ≡ found
    → find_id j (updated id f procs found)
      ≡ (if id == j then Option.map f (find_id j procs) else find_id j procs)
unfolding updated find_id
updated-same j id f procs none e = elim (Bool-cases (id == j)) [
  | inl same ↦
      let here : find_id j procs ≡ none =
        ap (λ k. find_id k procs) (sym ((==_iff id j).0 same)) ∙ e in
      rw same (here ∙ ap (Option.map f) (sym here))
  | inr far ↦ rw far refl
]
updated-same j id f procs (some handle) e = elim (Bool-cases (id == j)) [
  | inl same ↦
      let here : find_id j procs ≡ some handle =
        ap (λ k. find_id k procs) (sym ((==_iff id j).0 same)) ∙ e in
      rw same (ap (Option.map f) (sym here))
  | inr far ↦
      rw far
        (find_id-remove_id j id procs ∙ ap (λ (b : Bool). if b then none else find_id j procs) far)
]

update_id-same :
    (j id : ℕ) (f : ProcHandle → ProcHandle) (procs : List (ℕ × ProcHandle))
    → find_id j (update_id id f procs)
      ≡ (if id == j then Option.map f (find_id j procs) else find_id j procs)
unfolding update_id
update_id-same j id f procs = updated-same j id f procs (find_id id procs) refl

-- A write that leaves the state alone, and any write to another process.
update_id-state :
    (j id : ℕ) (f : ProcHandle → ProcHandle) (procs : List (ℕ × ProcHandle))
    → ((h : ProcHandle) → (f h).state ≡ h.state) ⊎ (id ≢ j)
    → Option.map (λ (h : ProcHandle). h.state) (find_id j (update_id id f procs))
      ≡ Option.map (λ (h : ProcHandle). h.state) (find_id j procs)
update_id-state j id f procs keep =
    ap (Option.map (λ (h : ProcHandle). h.state)) (update_id-same j id f procs)
    ∙ by_case keep (find_id j procs)
  where
    by_case :
        ((h : ProcHandle) → (f h).state ≡ h.state) ⊎ (id ≢ j)
        → (found : Option ProcHandle)
        → Option.map (λ (h : ProcHandle). h.state) (if id == j then Option.map f found else found)
          ≡ Option.map (λ (h : ProcHandle). h.state) found
    by_case (inl same) none = ground arith
    by_case (inl same) (some h) = ground (arith, same h)
    by_case (inr far) found = ground (arith, ==_iff id j)

module _ (display : ℤ → String) (id : ℕ) where
  -- An event that neither starts nor ends this process.
  abbrev pub Other : Event → Type 0
  Other (started j command args token) = j ≢ id
  Other (signalled j) = Unit {0}
  Other (wrote j line) = Unit {0}
  Other (ended j status held now) = j ≢ id

  signal_state-procs :
      (engine : ProcEngine) (token : ℕ) (state : ProcState)
      → (signal_state engine token state).1.procs ≡ engine.procs
  unfolding signal_state
  signal_state-procs engine token is_running = refl
  signal_state-procs engine token _ = refl

  signal_handle-procs :
      (engine : ProcEngine) (found : Option ProcHandle)
      → (signal_handle engine found).1.procs ≡ engine.procs
  unfolding signal_handle
  signal_handle-procs engine none = refl
  signal_handle-procs engine (some handle) = signal_state-procs engine handle.cancel handle.state

  step-state :
      (engine : ProcEngine) (e : Event)
      → Other e
      → state_of id (step display engine e) ≡ state_of id engine
  unfolding step start_insert signal monitor_end find_id
  step-state engine (started j command args token) h =
      ground (arith, find_id-remove_id id j engine.procs)
  step-state engine (signalled j) h =
      ap (λ procs. Option.map (λ (p : ProcHandle). p.state) (find_id id procs))
        (signal_handle-procs engine (find_id j engine.procs))
  step-state engine (wrote j line) h =
      update_id-state id j (λ p. record p { logs = push p.logs line }) engine.procs
        (inl (λ p. refl))
  step-state engine (ended j status held now) h = elim (Bool-cases held) [
    | inl busy ↦ rw busy refl
    | inr free ↦
        rw free (update_id-state id j (λ p. record p { state = status }) engine.procs (inr h))
  ]

  steps-state :
      (engine : ProcEngine) (events : List Event)
      → All Other events
      → state_of id (steps display engine events) ≡ state_of id engine
  unfolding steps
  steps-state engine [] h = refl
  steps-state engine (e ∷ events) h =
      steps-state (step display engine e) events h.1 ∙ step-state engine e h.0

  started-state :
      (engine : ProcEngine) (command : String) (args : List String) (token : ℕ)
      → state_of id (step display engine (started id command args token)) ≡ some is_running
  unfolding step start_insert find_id
  started-state engine command args token = ground arith

  ended-state :
      (engine : ProcEngine) (status : ProcState) (now : ℕ)
      → state_of id engine ≢ none
      → state_of id (step display engine (ended id status false now)) ≡ some status
  unfolding step monitor_end
  ended-state engine status now there =
      ap (Option.map (λ (p : ProcHandle). p.state))
        (update_id-same id id (λ p. record p { state = status }) engine.procs)
      ∙ by_found (find_id id engine.procs) there
    where
      by_found :
          (found : Option ProcHandle)
          → Option.map (λ (p : ProcHandle). p.state) found ≢ none
          → Option.map
              (λ (p : ProcHandle). p.state)
              (if id == id
                then Option.map (λ (p : ProcHandle). record p { state = status }) found
                else found)
            ≡ some status
      by_found none there = absurd (there refl)
      by_found (some handle) there = ground arith

  missed-state :
      (engine : ProcEngine) (status : ProcState) (now : ℕ)
      → state_of id (step display engine (ended id status true now)) ≡ state_of id engine
  unfolding step monitor_end
  missed-state engine status now = refl

  -- A process whose end finds the engine's lock held is shown as running ever after, and so is one whose
  -- end comes before `start` has put it into the map, whatever else happens to the other processes.
  pub steps-missed :
      (engine : ProcEngine) (status : ProcState) (now : ℕ) (command : String) (args : List String)
      (token : ℕ) (held : Bool) (between after : List Event)
      → All Other between
      → All Other after
      → let start = started id command args token in
        (state_of id (
            steps display
              (step display
                (steps display (step display engine start) between)
                (ended id status true now))
              after)
          ≡ some is_running)
        × (state_of id (
              steps display
                (step display
                  (steps display (step display engine (ended id status held now)) between)
                  start)
                after)
            ≡ some is_running)
  unfolding monitor_end
  steps-missed engine status now command args token held between after h k =
      let start = started id command args token in
      let waited = steps display (step display engine start) between in
      let early = steps display (step display engine (ended id status held now)) between in
      (
        steps-state (step display waited (ended id status true now)) after k
            ∙ missed-state waited status now
            ∙ steps-state (step display engine start) between h
            ∙ started-state engine command args token,
        steps-state (step display early start) after k ∙ started-state early command args token,
      )

  -- Once an end is shown, the state of a process never changes again.
  pub steps-kept :
      (engine : ProcEngine) (status : ProcState) (now : ℕ) (after : List Event)
      → state_of id engine ≢ none
      → All Other after
      → state_of id (steps display (step display engine (ended id status false now)) after)
        ≡ some status
  steps-kept engine status now after there h =
      steps-state (step display engine (ended id status false now)) after h
      ∙ ended-state engine status now there
