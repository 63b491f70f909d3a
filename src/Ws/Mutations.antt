-- ===== src/Ws/Mutations.antt =====
-- The arms of `handle_action` in ws_client.rs that change files: "desktop.fs.patch" and
-- "desktop.fs.write", "desktop.fs.delete" and "desktop.fs.restore", with `checkpoint_before`.
--
-- An engine is the operation of fs_ops.rs behind an arm: from the gate, the parsed request and the files
-- it gives its answer, verified or not, and the files after it. The theorems hold for every engine.
-- `parse` reads the request's parameters (serde). `checkpoints` is false where the store could not be
-- opened; the files are those of the store's disk then, too.
use Prim.Native.String.{◌++◌}
use synth_hires_bridge.Prelude.{
  ℕ, String, Bool, true, false, not, Option, none, some, List, ◌⊎◌, inl, inr, if◌then◌else◌,
}
use synth_hires_bridge.Prelude.Map.{Map}
use synth_hires_bridge.Capability.Paths.{FilePath, Platform}
use synth_hires_bridge.Capability.Resolve.{Canonicalize}
use synth_hires_bridge.Capability.{CapabilityGate}
use synth_hires_bridge.Consent.{ConsentAnswer}
use synth_hires_bridge.Protocol.{Json, ActionRequestFrame}
use synth_hires_bridge.Errors.{DaemonError, awaiting_consent, Result, Done, ok, err, to_string}
use synth_hires_bridge.Checkpoint.{Node, CheckpointStore, capture}
use synth_hires_bridge.Ws.Base.{Client, send_action_result, send_error}
use synth_hires_bridge.Ws.PathGate.{path_gate}

pub record World : Type 0 where
  pub client : Client
  pub checkpoints : Bool
  pub store : CheckpointStore

-- The clock, the duration that is reported, and what the capture of a checkpoint fails with.
pub record Moment : Type 0 where
  pub now : ℕ
  pub elapsed : ℕ
  pub capture_fault : Option String

abbrev pub Engine : Type 0 → Type 0
Engine V = CapabilityGate → V → Map Node → Result (Bool × Json) × Map Node

-- The client after a frame was sent.
abbrev pub told : World → Done × Client → Done × World
told w (outcome, c) = (outcome, record w { client = c })

-- `matches!(error, DaemonError::AwaitingConsent)`
unfoldable pub is_awaiting_consent : DaemonError → Bool
is_awaiting_consent awaiting_consent = true
is_awaiting_consent _ = false

module _ (parse_uuid : String → Option ℕ) where
  unfoldable pub refuse : World → Moment → ActionRequestFrame → String → Done × World
  refuse w m request message = told w (send_error parse_uuid w.client m.now request.id message)

  -- The answer to an engine's result; `unverified` is said where the read-back differed.
  unfoldable pub reply :
      World → Moment → ActionRequestFrame → String → Result (Bool × Json) → Done × World
  unfolding refuse
  reply w m request unverified (err e) = refuse w m request (to_string e)
  reply w m request unverified (ok (verified, output)) = told w (
      send_action_result parse_uuid w.client m.now request.id verified (some output)
        (if not verified then some unverified else none) m.elapsed)

  -- Behind the checkpoint: the mutation, or its refusal.
  unfoldable pub mutate :
      {V : Type 0}
      → Engine V
      → Moment
      → ActionRequestFrame
      → String
      → CapabilityGate
      → V
      → Option String × World
      → Done × World
  unfolding refuse reply
  mutate engine m request unverified gate v (some e, w) = refuse w m request e
  mutate engine m request unverified gate v (none, w) =
      let ran = engine gate v w.store.files in
      reply (record w { store = record w.store { files = ran.1 } }) m request unverified ran.0

module _ (display : FilePath → String) (sha256 : List ℕ → String) where
  unfoldable pub take_checkpoint :
      Option String → World → Moment → ActionRequestFrame → FilePath → Option String × World
  take_checkpoint (some e) w m request path =
      (some ("checkpoint failed (mutation refused): " ++ e), w)
  take_checkpoint none w m request path = (
    none,
    record w {
      store = (capture sha256 w.store m.now request.id request.capability (display path)).1;
    },
  )

  -- The error with which the mutation is refused, if any.
  unfoldable pub checkpoint_before :
      World → Moment → ActionRequestFrame → FilePath → Option String × World
  unfolding take_checkpoint
  checkpoint_before w m request path =
      if w.checkpoints then take_checkpoint m.capture_fault w m request path else (none, w)

module _ (platform : Platform) (canonicalize : Canonicalize) (display : FilePath → String)
    (sha256 : List ℕ → String) (parse_uuid : String → Option ℕ) where
  module _ {V : Type 0} (parse : Json → String ⊎ V) (path_of : V → FilePath)
      (engine : Engine V) where
    unfoldable pub gated :
        World
        → Moment
        → ActionRequestFrame
        → String
        → V
        → Result CapabilityGate × Client
        → Done × World
    unfolding refuse mutate
    gated w m request unverified v (ok gate, c) =
        mutate parse_uuid engine m request unverified gate v
          (checkpoint_before display sha256 (record w { client = c }) m request (path_of v))
    gated w m request unverified v (err e, c) =
        if is_awaiting_consent e
        then (err awaiting_consent, record w { client = c })
        else refuse parse_uuid (record w { client = c }) m request (to_string e)

    unfoldable pub write_parsed :
        World
        → Moment
        → ActionRequestFrame
        → String
        → Option ConsentAnswer
        → String ⊎ V
        → Done × World
    unfolding gated
    write_parsed w m request unverified decision (inl e) =
        refuse parse_uuid w m request ("bad params: " ++ e)
    write_parsed w m request unverified decision (inr v) = gated w m request unverified v (
        path_gate platform canonicalize display w.client request "desktop.fs.write" (path_of v)
          decision)

    -- The arms of "desktop.fs.patch" and "desktop.fs.write".
    unfoldable pub write_arm :
        World → Moment → ActionRequestFrame → String → Option ConsentAnswer → Done × World
    unfolding write_parsed
    write_arm w m request unverified decision =
        write_parsed w m request unverified decision (parse request.params)

    unfoldable pub delete_gated :
        World → Moment → ActionRequestFrame → V → Result CapabilityGate × Client → Done × World
    unfolding refuse mutate
    delete_gated w m request v (ok gate, c) =
        mutate parse_uuid engine m request "" gate v
          (checkpoint_before display sha256 (record w { client = c }) m request (path_of v))
    delete_gated w m request v (err e, c) =
        refuse parse_uuid (record w { client = c }) m request (to_string e)

    unfoldable pub delete_parsed :
        World → Moment → ActionRequestFrame → Option ConsentAnswer → String ⊎ V → Done × World
    unfolding delete_gated
    delete_parsed w m request decision (inl e) = refuse parse_uuid w m request ("bad params: " ++ e)
    delete_parsed w m request decision (inr v) = delete_gated w m request v (
        path_gate platform canonicalize display w.client request "desktop.fs.delete" (path_of v)
          decision)

    -- The arm of "desktop.fs.delete"; its engine answers every deletion as verified.
    unfoldable pub delete_arm :
        World → Moment → ActionRequestFrame → Option ConsentAnswer → Done × World
    unfolding delete_parsed
    delete_arm w m request decision = delete_parsed w m request decision (parse request.params)
