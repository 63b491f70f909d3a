-- ===== src/Proc/Tests.antt =====
-- A server that is started and ends.
use synth_hires_bridge.Prelude.{String, true, false, ◌≡◌, some, List, [], ◌∷◌, arith}
use synth_hires_bridge.Prelude.Int.{ℤ, pos}
use synth_hires_bridge.Tasks.{no_tasks}
use synth_hires_bridge.Proc.Engine.{
  ProcEngine, is_running, exited, Event, started, signalled, wrote, ended, step, steps,
}
use synth_hires_bridge.Proc.Watching.{state_of, steps-missed}

abbrev empty : ProcEngine
empty = record { procs = []; shared = no_tasks }

abbrev display : ℤ → String
display code = "0"

abbrev start : Event
start = started 1 "npm" ("run" ∷ "dev" ∷ []) 7

abbrev others : List Event
others = wrote 1 "ready" ∷ signalled 1 ∷ started 2 "ls" [] 8 ∷ ended 2 (exited (pos 0)) false 4 ∷ []

steps-missed_example :
    (state_of 1 (
        steps display
          (step display
            (steps display (step display empty start) [])
            (ended 1 (exited (pos 0)) true 5))
          others)
      ≡ some is_running)
    × (state_of 1 (
          steps display
            (step display
              (steps display (step display empty (ended 1 (exited (pos 0)) false 5)) [])
              start)
            others)
        ≡ some is_running)
steps-missed_example =
    steps-missed display 1 empty (exited (pos 0)) 5 "npm" ("run" ∷ "dev" ∷ []) 7 false [] others tt
      (tt, (tt, ((λ e. absurd (omega arith)), ((λ e. absurd (omega arith)), tt))))
