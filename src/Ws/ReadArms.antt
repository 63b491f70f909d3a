-- ===== src/Ws/ReadArms.antt =====
-- The arms "desktop.fs.read" and "desktop.checkpoint.list" of `handle_action` in ws_client.rs, with the
-- macro `dispatch_op!` that they are written in.
--
-- An engine gives the arm's answer from the gate, the parsed request and the files, which it reads.
-- `entry_value` is the JSON of a checkpoint (serde).
use Prim.Native.String.{◌++◌}
use synth_hires_bridge.Prelude.{
  ℕ, String, Bool, true, false, Option, none, some, List, [], ◌∷◌, ◌⊎◌, inl, inr, if◌then◌else◌,
  take, ◌≡◌, ◌≢◌, refl, ap, arith, All, any, Bool-cases,
}
use synth_hires_bridge.Prelude.Map.{Map}
use synth_hires_bridge.Capability.Paths.{
  FilePath, Platform, unix, windows, path_starts_with, starts_with, path_starts_with_ignoring_case,
  paths_equal, path_eq,
}
use synth_hires_bridge.Capability.Resolve.{Canonicalize}
use synth_hires_bridge.Capability.{
  CapabilityGate, allow, allows, one_shot_covers, path_matches_any, check_path, check_path_real,
}
use synth_hires_bridge.Consent.{ConsentAnswer}
use synth_hires_bridge.Protocol.{Json, Items, nil, cons, arr, obj, field, end, ActionRequestFrame}
use synth_hires_bridge.Errors.{awaiting_consent, Result, Done, ok, err, to_string}
use synth_hires_bridge.Checkpoint.{Node, CheckpointEntry, list}
use synth_hires_bridge.Ws.Base.{Client, send_action_result}
use synth_hires_bridge.Capability.Symlinks.{check_path_real-allow_iff}
use synth_hires_bridge.Ws.Consents.{is_allow_iff}
use synth_hires_bridge.Ws.PathGate.{path_gate, interactive, passes}
use synth_hires_bridge.Ws.Mutations.{World, Moment, told, is_awaiting_consent, refuse}

module _ (parse_uuid : String → Option ℕ) where
  -- The `match result` of the macro.
  unfoldable pub op_answer :
      World → Moment → ActionRequestFrame → Result Json × Client → Done × World
  unfolding is_awaiting_consent refuse
  op_answer w m request (ok output, c) =
      told w (send_action_result parse_uuid c m.now request.id true (some output) none m.elapsed)
  op_answer w m request (err e, c) =
      if is_awaiting_consent e
      then (err awaiting_consent, record w { client = c })
      else refuse parse_uuid (record w { client = c }) m request (to_string e)

  unfoldable pub dispatch_op :
      {V : Type 0}
      → World
      → Moment
      → ActionRequestFrame
      → (V → Result Json × Client)
      → String ⊎ V
      → Done × World
  unfolding op_answer
  dispatch_op w m request run (inl e) = refuse parse_uuid w m request ("bad params: " ++ e)
  dispatch_op w m request run (inr v) = op_answer w m request (run v)

-- `path_gate(...).await?` in front of what runs under the gate.
abbrev pub under_gate :
    Result CapabilityGate × Client → (CapabilityGate → Result Json) → Result Json × Client
under_gate (ok gate, c) run = (run gate, c)
under_gate (err e, c) run = (err e, c)

unfoldable pub entries : (CheckpointEntry → Json) → List CheckpointEntry → Items
entries entry_value [] = nil
entries entry_value (e ∷ es) = cons (entry_value e) (entries entry_value es)

module _ (platform : Platform) (canonicalize : Canonicalize) (display : FilePath → String)
    (parse_uuid : String → Option ℕ) where
  module _ {V : Type 0} (parse : Json → String ⊎ V) (path_of : V → FilePath) where
    unfoldable pub read_arm :
        (CapabilityGate → V → Map Node → Result Json)
        → World
        → Moment
        → ActionRequestFrame
        → Option ConsentAnswer
        → Done × World
    unfolding dispatch_op
    read_arm engine w m request decision =
        dispatch_op parse_uuid w m request
          (λ v.
            under_gate
              (path_gate platform canonicalize display w.client request "desktop.fs.read"
                (path_of v) decision)
              (λ gate. engine gate v w.store.files))
          (parse request.params)

  unfoldable pub checkpoint_list_arm :
      (CheckpointEntry → Json)
      → World
      → Moment
      → ActionRequestFrame
      → Option ConsentAnswer
      → Done × World
  unfolding dispatch_op entries list
  checkpoint_list_arm entry_value w m request decision =
      dispatch_op parse_uuid w m request
        (λ (value : Json).
          under_gate
            (path_gate platform canonicalize display w.client request "desktop.fs.read" [] decision)
            (λ gate. ok (
              obj (
                field "entries"
                  (arr
                    (entries entry_value (if w.checkpoints then take 200 (list w.store) else [])))
                  end))))
        (inr request.params)

  -- What runs under the gate matters only where the gate passes.
  under_gate-same :
      (passed : Result CapabilityGate × Client) (run other : CapabilityGate → Result Json)
      → ((g : CapabilityGate) → passed.0 ≢ ok g)
      → under_gate passed run ≡ under_gate passed other
  under_gate-same (ok g, c) run other h = absurd (h g refl)
  under_gate-same (err e, c) run other h = refl

  op-same :
      {V : Type 0} (w : World) (m : Moment) (request : ActionRequestFrame)
      (run other : V → Result Json × Client) (parsed : String ⊎ V)
      → ((v : V) → parsed ≡ inr v → run v ≡ other v)
      → dispatch_op parse_uuid w m request run parsed
        ≡ dispatch_op parse_uuid w m request other parsed
  unfolding dispatch_op
  op-same w m request run other (inl e) h = refl
  op-same w m request run other (inr v) h = ap (op_answer parse_uuid w m request) (h v refl)

  -- A read that its gate does not let through tells nothing of the files: whatever two engines would
  -- make of them, the request is answered alike and the daemon is left alike.
  pub read_arm-tells_nothing :
      {V : Type 0} (parse : Json → String ⊎ V) (path_of : V → FilePath)
      (engine other : CapabilityGate → V → Map Node → Result Json) (w : World) (m : Moment)
      (request : ActionRequestFrame) (decision : Option ConsentAnswer)
      → ((v : V) (g : CapabilityGate)
          → parse request.params ≡ inr v
          → (path_gate platform canonicalize display w.client request "desktop.fs.read"
              (path_of v)
              decision).0
            ≢ ok g)
      → read_arm parse path_of engine w m request decision
        ≡ read_arm parse path_of other w m request decision
  unfolding read_arm
  read_arm-tells_nothing parse path_of engine other w m request decision shut =
      op-same w m request _ _ (parse request.params) (λ v read.
        under_gate-same _ (λ g. engine g v w.store.files) (λ g. other g v w.store.files)
          (λ g. shut v g read))

-- No prefix of a path that has a component covers the empty path.
starts_with-empty :
    (platform : Platform) (p : FilePath) → p ≢ [] → path_starts_with platform [] p ≡ false
unfolding path_starts_with starts_with path_starts_with_ignoring_case
starts_with-empty windows [] h = absurd (h refl)
starts_with-empty windows (c ∷ p) h = refl
starts_with-empty unix [] h = absurd (h refl)
starts_with-empty unix (c ∷ p) h = refl

equal-empty : (platform : Platform) (p : FilePath) → p ≢ [] → paths_equal platform p [] ≡ false
unfolding paths_equal path_eq path_starts_with_ignoring_case
equal-empty windows [] h = absurd (h refl)
equal-empty windows (c ∷ p) h = refl
equal-empty unix [] h = absurd (h refl)
equal-empty unix (c ∷ p) h = refl

any-false :
    (test : FilePath → Bool) (ps : List FilePath)
    → ((p : FilePath) → p ≢ [] → test p ≡ false)
    → All (λ p. p ≢ []) ps
    → any test ps ≡ false
any-false test [] f h = refl
any-false test (p ∷ ps) f h = rw (f p h.0, any-false test ps f h.1) refl

module _ (platform : Platform) (canonicalize : Canonicalize) (display : FilePath → String)
    (parse_uuid : String → Option ℕ) where
  empty-not_allowed :
      (g : CapabilityGate)
      → All (λ p. p ≢ []) g.always_allow_paths
      → All (λ p. p ≢ []) g.one_shot_paths
      → check_path platform g "desktop.fs.read" [] ≢ allow
  unfolding check_path one_shot_covers path_matches_any
  empty-not_allowed g h k e =
      let always =
        any-false (λ p. path_starts_with platform [] p) g.always_allow_paths
          (starts_with-empty platform) h in
      let once =
        any-false (λ p. paths_equal platform p []) g.one_shot_paths (equal-empty platform) k in
      ground arith

  empty-not_passed :
      (g : CapabilityGate)
      → All (λ p. p ≢ []) g.always_allow_paths
      → All (λ p. p ≢ []) g.one_shot_paths
      → passes platform canonicalize g "desktop.fs.read" [] ≡ false
  unfolding passes
  empty-not_passed g h k = elim (Bool-cases (passes platform canonicalize g "desktop.fs.read" [])) [
    | inl passed ↦ absurd (
        empty-not_allowed g h k
          ((check_path_real-allow_iff platform canonicalize g "desktop.fs.read" []).0 (
            (is_allow_iff (check_path_real platform canonicalize g "desktop.fs.read" [])).0
              passed)).0)
    | inr refused ↦ refused
  ]

  -- Listing the checkpoints asks the owner each time, whatever paths they always allow: where reading is
  -- granted, no allowed path is empty and no decision is there yet, the arm gives the mark to park it.
  pub checkpoint_list_arm-asks :
      (entry_value : CheckpointEntry → Json) (w : World) (m : Moment) (request : ActionRequestFrame)
      → allows w.client.gate "desktop.fs.read" ≡ true
      → All (λ p. p ≢ []) w.client.gate.always_allow_paths
      → All (λ p. p ≢ []) w.client.gate.one_shot_paths
      → (checkpoint_list_arm platform canonicalize display parse_uuid entry_value w m request
          none).0
        ≡ err awaiting_consent
  unfolding checkpoint_list_arm dispatch_op op_answer is_awaiting_consent path_gate interactive
  checkpoint_list_arm-asks entry_value w m request granted h k =
      let shut = empty-not_passed w.client.gate h k in
      elim (Bool-cases request.skip_consent_prompt) [
        | inl skip ↦ rw (granted, shut, skip) refl
        | inr ask ↦ rw (granted, shut, ask) refl
      ]
