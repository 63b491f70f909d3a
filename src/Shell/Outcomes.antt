-- ===== src/Shell/Outcomes.antt =====
-- What a finished command of shell.rs tells of its output, and when its pipes are drained.
use mathlib.Core.List.{append_assoc}
use synth_hires_bridge.Prelude.{
  ℕ, ◌≤◌, String, Bool, true, false, ◌||◌, ◌≡◌, refl, Option, List, [], ◌∷◌, ◌++◌, ◌⊎◌, inl, inr,
  if◌then◌else◌, arith, Bool-cases, sym, ap, subst, ◌∙◌,
}
use synth_hires_bridge.Prelude.Chars.{utf8_len}
use synth_hires_bridge.Errors.{Result, ok}
use synth_hires_bridge.Capability.{CapabilityGate, allows}
use synth_hires_bridge.Capability.Paths.{FilePath, Platform}
use synth_hires_bridge.Shell.{
  LineRead, ShellRequest, ShellResult, Sender, Reader, pump, clamp_timeout,
}
use synth_hires_bridge.Shell.Pump.{pump_bounds}
use synth_hires_bridge.Shell.Stream.{unlines}
use synth_hires_bridge.Shell.Faithful.{ReadableAs, pump_faithful}
use synth_hires_bridge.Shell.Run.{
  Ending, exited, was_cancelled, wait_failed, timed_out, Effect, signal_group_term, signal_term,
  signal_group_kill, start_kill, reap, drain_pipes, Child, terminate_child, argv, stop_effects,
  outcome, await_result, run_spawned, execute,
}

-- The child is gone when the pipes are drained: it ended by itself, or it was stopped and reaped.
abbrev pub Drained : List Effect × Result ShellResult → Type 0
Drained done =
    ((done.0 ≡ drain_pipes ∷ []) × ((r : ShellResult) × (done.1 ≡ ok r)))
    ⊎ ((before : List Effect) × (done.0 ≡ before ++ (reap ∷ drain_pipes ∷ [])))

terminate_child-reaps :
    (child : Child) → (before : List Effect) × (terminate_child child ≡ before ++ reap ∷ [])
unfolding terminate_child
terminate_child-reaps child =
    let term = if child.has_id then signal_group_term ∷ signal_term ∷ [] else [] in
    let kill = (if child.has_id then signal_group_kill ∷ [] else []) ++ start_kill ∷ [] in
    elim (Bool-cases child.outlives_term) [
      | inl there ↦ (
        term ++ kill,
        ap
              (λ (b : Bool).
                term
                ++ (if b
                    then (if child.has_id then signal_group_kill ∷ [] else [])
                      ++ start_kill ∷ reap ∷ []
                    else reap ∷ []))
              there
            ∙ ap (λ t. term ++ t)
                (sym (
                  append_assoc (if child.has_id then signal_group_kill ∷ [] else [])
                    (start_kill ∷ []) (reap ∷ [])))
            ∙ sym (append_assoc term kill (reap ∷ [])),
      )
      | inr gone ↦ (
        term,
        ap
            (λ (b : Bool).
              term
              ++ (if b
                  then (if child.has_id then signal_group_kill ∷ [] else [])
                    ++ start_kill ∷ reap ∷ []
                  else reap ∷ []))
            gone,
      )
    ]

stopped-Drained :
    (child : Child) (first : List Effect)
    → (before : List Effect) × ((first ++ terminate_child child) ++ drain_pipes ∷ []
        ≡ before ++ (reap ∷ drain_pipes ∷ []))
stopped-Drained child first =
    let (before, e) = terminate_child-reaps child in
    (
      first ++ before,
      ap (λ t. (first ++ t) ++ drain_pipes ∷ []) e
          ∙ ap (λ t. t ++ drain_pipes ∷ []) (sym (append_assoc first before (reap ∷ [])))
          ∙ append_assoc (first ++ before) (reap ∷ []) (drain_pipes ∷ []),
    )

ok_injective : {a b : ShellResult} → ◌≡◌ {A = Result ShellResult} (ok a) (ok b) → a ≡ b
ok_injective e = cc

||-eq-false : (a b : Bool) → (a || b) ≡ false → (a ≡ false) × (b ≡ false)
||-eq-false a b h = ground arith

module _ (display : ℕ → String) where
  -- Whichever way the wait ends, the pipes are drained once and last, and behind a reaped child.
  pub await_result-Drained :
      (timeout_ms : ℕ) (child : Child) (out errs : Reader)
      → Drained (await_result display timeout_ms child out errs)
  unfolding await_result stop_effects outcome
  await_result-Drained timeout_ms child out errs = by_end (child.ends timeout_ms)
    where
      by_end :
          (end : Ending)
          → Drained (
            stop_effects child end ++ drain_pipes ∷ [],
            outcome display timeout_ms child out errs end,
          )
      by_end (exited code) = inl (refl, (_, refl))
      by_end was_cancelled = inr (stopped-Drained child (terminate_child child))
      by_end (wait_failed e) = inr (stopped-Drained child [])
      by_end timed_out = inr (stopped-Drained child [])

  -- What is said of a result's two streams against the lines of the process.
  abbrev pub Told : Child → ShellResult → Type 0
  Told child r =
      (utf8_len r.stdout ≤ 16777260)
      × (utf8_len r.stderr ≤ 16777260)
      × (r.output_truncated ≡ false
          → ((out : List (List ℕ)) × ReadableAs child.out_lines out × (r.stdout ≡ unlines out))
            × ((errs : List (List ℕ)) × ReadableAs child.err_lines errs
                × (r.stderr ≡ unlines errs)))

  whole_of :
      (channel : String) (tx : Sender) (reads : List LineRead)
      → 514 ≤ tx.left
      → (pump channel tx reads).dropped ≡ false
      → (lines : List (List ℕ)) × ReadableAs reads lines
        × ((pump channel tx reads).buffer ≡ unlines lines)
  whole_of channel tx reads listening kept =
      let (lines, read, outcome) = pump_faithful channel tx reads listening in
      elim outcome [ inl whole ↦ (lines, read, whole.1) | inr cut ↦ absurd (cc (cut.0, kept)) ]

  outcome-Told :
      (timeout_ms : ℕ) (child : Child) (txo txe : Sender) (end : Ending) {r : ShellResult}
      → 514 ≤ txo.left
      → 514 ≤ txe.left
      → outcome display timeout_ms child
          (pump "stdout" txo child.out_lines)
          (pump "stderr" txe child.err_lines)
          end
        ≡ ok r
      → Told child r
  unfolding outcome
  outcome-Told timeout_ms child txo txe (exited code) {r} ho he e =
      subst (Told child) (ok_injective e) (
        (pump_bounds "stdout" txo child.out_lines).1,
        (pump_bounds "stderr" txe child.err_lines).1,
        λ t. (
          whole_of "stdout" txo child.out_lines ho (||-eq-false _ _ t).0,
          whole_of "stderr" txe child.err_lines he (||-eq-false _ _ t).1,
        ),
      )
  outcome-Told timeout_ms child txo txe was_cancelled ho he e = absurd (cc)
  outcome-Told timeout_ms child txo txe (wait_failed x) ho he e = absurd (cc)
  outcome-Told timeout_ms child txo txe timed_out ho he e = absurd (cc)

  spawned-Told :
      (txo txe : Sender) (req : ShellRequest) (spawned : String ⊎ Child) {r : ShellResult}
      → 514 ≤ txo.left
      → 514 ≤ txe.left
      → (run_spawned display (txo, txe) req spawned).1 ≡ ok r
      → (child : Child) × (spawned ≡ inr child) × Told child r
  unfolding run_spawned await_result
  spawned-Told txo txe req (inl x) ho he e = absurd (cc)
  spawned-Told txo txe req (inr child) ho he e =
      let timeout_ms = clamp_timeout req.timeout_ms in
      (child, refl, outcome-Told timeout_ms child txo txe (child.ends timeout_ms) ho he e)

  -- A command has a result only under the granted capability, and where both receivers stay its two
  -- texts have 16,777,260 bytes at most. Unless the result says that output was truncated, each of them is
  -- the lines of its pipe, with a line feed each, all of them or those up to the first that cannot be read.
  pub execute-ok :
      (platform : Platform) (gate : CapabilityGate)
      (spawn : List String → Option FilePath → String ⊎ Child) (txo txe : Sender)
      (req : ShellRequest) {r : ShellResult}
      → 514 ≤ txo.left
      → 514 ≤ txe.left
      → (execute display platform gate spawn (txo, txe) req).1 ≡ ok r
      → (allows gate "desktop.shell.execute" ≡ true)
        × ((child : Child) × (spawn (argv platform req.command) req.cwd ≡ inr child) × Told child r)
  unfolding execute
  execute-ok platform gate spawn txo txe req {r} ho he e =
      elim (Bool-cases (allows gate "desktop.shell.execute")) [
        | inl granted ↦ (
          granted,
          spawned-Told txo txe req (spawn (argv platform req.command) req.cwd) ho he
              (rw granted at e),
        )
        | inr refused ↦ let no = rw refused at e in absurd (cc)
      ]
