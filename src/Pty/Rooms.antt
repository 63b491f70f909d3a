-- ===== src/Pty/Rooms.antt =====
-- How many sessions of pty_ops.rs there are at most.
use synth_hires_bridge.Prelude.{
  ℕ, suc, ◌≤◌, String, Bool, false, ◌≡◌, ◌≢◌, refl, ap, ◌∙◌, ◌⊎◌, inl, inr, Option, none, some,
  List, [], ◌∷◌, arith, if◌then◌else◌, leb, length, Bool-cases, eq_refl,
}
use synth_hires_bridge.Prelude.Text.{codes, trim}
use synth_hires_bridge.Prelude.Map.{Map, lookup, lookup-insert}
use synth_hires_bridge.Capability.{CapabilityGate, allows}
use synth_hires_bridge.Pty.{BufferState}
use synth_hires_bridge.Pty.Settle.{wait_output, shared_drain}
use synth_hires_bridge.Prelude.Map.{
  length-without-le, length-without-present, length-insert-present, length-insert-le,
}
use synth_hires_bridge.Pty.Sessions.{
  make_room, create, found_or_created, get_or_create, tell_run, run_in, run_text, read_from,
  exit_from, allowed_op, execute, max_sessions, PtySession, PtyOp, Run, run, read, status, exit,
  list,
}

module _ (first : Map PtySession → Option String)
    (some_key : (m : Map PtySession)
      → 1 ≤ length m
      → (k : String) × (first m ≡ some k) × (lookup k m ≢ none)) where
  make_room-few :
      (m : Map PtySession)
      → length m ≤ max_sessions
      → suc (length (make_room first m)) ≤ max_sessions
  unfolding make_room
  make_room-few m h = elim (Bool-cases (leb max_sessions (length m))) [
    | inl full ↦
        let (k, e, there) = some_key m (ground arith) in
        rw (full, e) (omega (arith, length-without-present k m there))
    | inr room ↦ rw room (ground arith)
  ]

  -- A session that was found or made has its place in the map, which is within its bound.
  abbrev Housed : String → (String ⊎ PtySession) × Map PtySession → Type 0
  Housed session (inl e, m) = length m ≤ max_sessions
  Housed session (inr shell, m) = (length m ≤ max_sessions) × (lookup session m ≢ none)

  found_or_created-Housed :
      (session : String) (boot : String ⊎ PtySession) (found : Option PtySession)
      (m : Map PtySession)
      → lookup session m ≡ found
      → length m ≤ max_sessions
      → Housed session (found_or_created first session boot found m)
  unfolding found_or_created create
  found_or_created-Housed session boot (some shell) m e h = (h, λ gone. cc)
  found_or_created-Housed session (inl x) none m e h = h
  found_or_created-Housed session (inr booted) none m e h = (
    omega (arith, length-insert-le session booted (make_room first m), make_room-few m h),
    λ gone.
        let there =
          lookup-insert session session booted (make_room first m)
          ∙ ap (λ (b : Bool). if b then some booted else lookup session (make_room first m))
              (eq_refl session) in
        cc,
  )

  tell_run-few :
      (session : String) (alive : Bool) (m : Map PtySession)
      (o : Option (ℕ × List ℕ × Option BufferState))
      → length m ≤ max_sessions
      → lookup session m ≢ none
      → length (tell_run first session alive m o).1 ≤ max_sessions
  unfolding tell_run
  tell_run-few session alive m none h there = h
  tell_run-few session alive m (some (n, text, left)) h there =
      omega (arith, length-insert-present session (record { alive = alive; output = left }) m there)

  run_in-few :
      (session : String) (r : Run) (got : (String ⊎ PtySession) × Map PtySession)
      → Housed session got
      → length (run_in first session r got).1 ≤ max_sessions
  unfolding run_in
  run_in-few session r (inl e, m) h = h
  run_in-few session r (inr shell, m) h =
      let told = tell_run-few session r.alive_after m (wait_output shell.output r.slices) h.0 h.1 in
      elim (Bool-cases shell.alive) [
        | inl alive ↦ elim (Bool-cases r.written) [
          | inl written ↦ rw (alive, written) told
          | inr unwritten ↦ rw (alive, unwritten) h.0
        ]
        | inr dead ↦ rw dead h.0
      ]

  read_from-few :
      (session : String) (found : Option PtySession) (m : Map PtySession)
      → lookup session m ≡ found
      → length m ≤ max_sessions
      → length (read_from first session found m).1 ≤ max_sessions
  unfolding read_from
  read_from-few session none m e h = h
  read_from-few session (some shell) m e h = omega (
    arith,
    length-insert-present session (record shell { output = (shared_drain shell.output).1 }) m
        (λ gone. cc),
  )

  exit_from-few :
      (session : String) (found : Option PtySession) (m : Map PtySession)
      → length m ≤ max_sessions
      → length (exit_from first session found m).1 ≤ max_sessions
  unfolding exit_from
  exit_from-few session none m h = h
  exit_from-few session (some shell) m h = omega (arith, length-without-le session m)

  run_text-few :
      (text : List ℕ) (session : String) (boot : String ⊎ PtySession) (r : Run) (m : Map PtySession)
      → length m ≤ max_sessions
      → length (run_text first text session boot r m).1 ≤ max_sessions
  unfolding run_text get_or_create
  run_text-few [] session boot r m h = h
  run_text-few (c ∷ text) session boot r m h =
      run_in-few session r (found_or_created first session boot (lookup session m) m)
        (found_or_created-Housed session boot (lookup session m) m refl h)

  allowed_op-few :
      (boot : String ⊎ PtySession) (r : Run) (op : PtyOp) (m : Map PtySession)
      → length m ≤ max_sessions
      → length (allowed_op first boot r op m).1 ≤ max_sessions
  unfolding allowed_op
  allowed_op-few boot r (run session command) m h =
      run_text-few (trim (codes command)) session boot r m h
  allowed_op-few boot r (read session) m h = read_from-few session (lookup session m) m refl h
  allowed_op-few boot r (status session) m h = h
  allowed_op-few boot r list m h = h
  allowed_op-few boot r (exit session) m h = exit_from-few session (lookup session m) m h

  -- No operation makes the sessions more than eight, where `HashMap::keys` gives a key of a map that has
  -- one; and without the capability no operation changes them.
  pub execute-few :
      (gate : CapabilityGate) (boot : String ⊎ PtySession) (r : Run) (op : PtyOp)
      (m : Map PtySession)
      → length m ≤ max_sessions
      → (length (execute first gate boot r op m).1 ≤ max_sessions)
        × (allows gate "desktop.shell.execute" ≡ false → (execute first gate boot r op m).1 ≡ m)
  unfolding execute
  execute-few gate boot r op m h = elim (Bool-cases (allows gate "desktop.shell.execute")) [
    | inl granted ↦ rw granted (allowed_op-few boot r op m h, λ no. absurd (cc))
    | inr refused ↦ rw refused (h, λ no. refl)
  ]
