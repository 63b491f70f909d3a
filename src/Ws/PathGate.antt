-- ===== src/Ws/PathGate.antt =====
-- `path_gate` of ws_client.rs: the gate under which a path-scoped action may run.
--
-- `display` is the text that a path was written with (`Path::display`), which its components do not
-- determine. The source takes the gate's lock anew for each check; nothing else writes it in between.
use Prim.Native.String.{◌++◌}
use synth_hires_bridge.Prelude.{
  String, Bool, true, false, not, ◌&&◌, Option, none, some, if◌then◌else◌,
}
use synth_hires_bridge.Capability.Paths.{FilePath, Platform}
use synth_hires_bridge.Capability.Resolve.{Canonicalize}
use synth_hires_bridge.Capability.{
  GateDecision, allow, require_consent, deny, CapabilityGate, allows, with_additional_path,
  with_one_shot_path, check_path_real,
}
use synth_hires_bridge.Consent.{ConsentAnswer, ask, forget}
use synth_hires_bridge.Protocol.{ActionRequestFrame, consent_prompt, protocol_version}
use synth_hires_bridge.Errors.{capability_denied, awaiting_consent, Result, ok, err}
use synth_hires_bridge.Ws.Base.{Client, send}

-- `matches!(verdict, Ok(GateDecision::Allow))`
unfoldable pub is_allow : GateDecision → Bool
is_allow allow = true
is_allow require_consent = false
is_allow deny = false

module _ (platform : Platform) (canonicalize : Canonicalize) where
  unfoldable pub passes : CapabilityGate → String → FilePath → Bool
  passes g capability path = is_allow (check_path_real platform canonicalize g capability path)

module _ (platform : Platform) (canonicalize : Canonicalize) (display : FilePath → String) where
  unfoldable pub prompt_summary : String → FilePath → String
  prompt_summary capability path = capability ++ (" sobre " ++ display path)

  -- The prompt goes to the web, best effort, and to the broker for the local dialog.
  unfoldable pub ask_owner : Client → ActionRequestFrame → String → FilePath → Client
  ask_owner c request capability path =
      let relayed =
        (send c (
          consent_prompt (record {
            v = protocol_version;
            id = request.id;
            capability = capability;
            summary = prompt_summary capability path;
            params_hash = "";
            path = some (display path);
          }))).1 in
      record relayed {
        consent = forget (
            ask relayed.consent (record {
              action_id = request.id;
              capability = capability;
              summary = prompt_summary capability path;
              path = some (display path);
            }));
      }

  -- The resume with the owner's decision.
  unfoldable pub decided :
      Client → String → FilePath → ConsentAnswer → Result CapabilityGate × Client
  decided c capability path answer =
      if answer.approved
      then (let gate = if answer.remember then with_additional_path c.gate path else c.gate in
          (ok (with_one_shot_path gate path), record c { gate = gate }))
      else (
        err (
            capability_denied (
              "consentimiento denegado por el usuario para "
              ++ (capability ++ (" sobre " ++ display path)))),
        c,
      )

  unfoldable pub interactive :
      Client
      → ActionRequestFrame
      → String
      → FilePath
      → Option ConsentAnswer
      → Result CapabilityGate × Client
  unfolding decided ask_owner
  interactive c request capability path (some answer) = decided c capability path answer
  interactive c request capability path none =
      (err awaiting_consent, ask_owner c request capability path)

  unfoldable pub path_gate :
      Client
      → ActionRequestFrame
      → String
      → FilePath
      → Option ConsentAnswer
      → Result CapabilityGate × Client
  path_gate c request capability path decision =
      if not (allows c.gate capability)
      then (err (capability_denied capability), c)
      else if request.skip_consent_prompt && passes platform canonicalize c.gate capability path
      then (ok (with_additional_path c.gate path), c)
      else if passes platform canonicalize c.gate capability path
      then (ok c.gate, c)
      else interactive c request capability path decision
