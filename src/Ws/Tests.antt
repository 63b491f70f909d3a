-- ===== src/Ws/Tests.antt =====
-- Actions, consents and parked actions on a concrete connection.
use synth_hires_bridge.Prelude.{
  ℕ, String, true, false, ◌≡◌, refl, ◌≢◌, ◌⊎◌, inl, inr, Option, none, some, [], ◌∷◌, arith, eq_iff,
  subst, sym,
}
use synth_hires_bridge.Prelude.Text.{codes, contains, replace, has_prefix, to_lower}
use synth_hires_bridge.Capability.Paths.{
  root_dir, normal, FilePath, unix, has_parent_dir, path_starts_with, starts_with, component_eq,
}
use synth_hires_bridge.Capability.Resolve.{Canonicalize}
use synth_hires_bridge.Capability.Covers.{HasParentDir}
use synth_hires_bridge.Capability.{
  CapabilityGate, allow, allows, check_path, one_shot_covers, path_matches_any, with_one_shot_path,
  check_path_real,
}
use synth_hires_bridge.Capability.Laws.{Granted}
use synth_hires_bridge.Capability.Symlinks.{found}
use synth_hires_bridge.Consent.{ConsentAnswer, ConsentPrompt}
use synth_hires_bridge.Consent
use synth_hires_bridge.Tasks.{no_tasks}
use synth_hires_bridge.Protocol.{
  null, obj, field, end, str, ActionRequestFrame, get, as_str, get_field,
}
use synth_hires_bridge.Errors.{ok, err, awaiting_consent}
use synth_hires_bridge.Ws.Base.{Client}
use synth_hires_bridge.Ws.Scope.{required_scope, one_of, contains_dangerous_shell, normalised}
use synth_hires_bridge.Ws.Action.{Dispatch, handle_action, command_of}
use synth_hires_bridge.Ws.PathGate.{path_gate, decided, interactive, passes, is_allow}
use synth_hires_bridge.Ws.Consents.{Allowed, Approved, path_gate-ok, path_gate-approved}
use synth_hires_bridge.Ws.Refusals.{
  OnlyAnswered, refusal_frame, refusal, admitted, handle_action-Refused,
}

abbrev home : FilePath
home = root_dir ∷ normal "home" ∷ normal "ana" ∷ []

abbrev outside : FilePath
outside = root_dir ∷ normal "etc" ∷ normal "hosts" ∷ []

abbrev gate : CapabilityGate
gate = record {
  snapshot = record {
    capabilities = "desktop.fs.read" ∷ "desktop.shell.execute" ∷ [];
    always_allow_paths = home ∷ [];
    one_shot_paths = [];
  };
}

-- A disk without links, on which everything exists.
abbrev plain : Canonicalize
plain p = some p

abbrev shown : FilePath → String
shown p = "a path"

abbrev read_request : ActionRequestFrame
read_request = record {
  v = 1;
  id = "a1";
  capability = "desktop.fs.read";
  params = null;
  conversation_id = none;
  skip_consent_prompt = false;
}

abbrev wipe_request : ActionRequestFrame
wipe_request = record {
  v = 1;
  id = "a2";
  capability = "desktop.shell.execute";
  params = obj (field "command" (str "RM -rf /home") end);
  conversation_id = none;
  skip_consent_prompt = true;
}

abbrev client : Client
client = record {
  gate = gate;
  consent = Consent.new;
  parked = ("a1", (read_request, 1000)) ∷ [];
  shared = no_tasks;
  audit_log = [];
  open_socket = true;
  sent = [];
}

abbrev yes : ConsentAnswer
yes = record { approved = true; remember = false }

granted : Granted gate "desktop.fs.read"
granted = inl refl

no_dots : ¬ HasParentDir outside
no_dots h = ground arith

approved_gate :
    (path_gate unix plain shown client read_request "desktop.fs.read" outside (some yes)).0
    ≡ ok (with_one_shot_path gate outside)
unfolding path_gate allows passes is_allow check_path_real check_path has_parent_dir one_shot_covers
    path_matches_any path_starts_with starts_with component_eq interactive decided
approved_gate = refl

path_gate-ok_example :
    Granted gate "desktop.fs.read"
    × (Allowed unix plain shown client read_request "desktop.fs.read" outside (some yes)
        ⊎ Approved (some yes))
path_gate-ok_example =
    path_gate-ok unix plain shown client read_request "desktop.fs.read" outside (some yes)
      (with_one_shot_path gate outside) approved_gate

path_gate-approved_example :
    (g : CapabilityGate) × ((path_gate unix plain shown client read_request "desktop.fs.read"
        outside
        (some yes)).0
      ≡ ok g)
    × (check_path_real unix plain g "desktop.fs.read" outside ≡ allow)
path_gate-approved_example =
    path_gate-approved unix plain shown client read_request "desktop.fs.read" outside outside yes
      granted no_dots (found refl) refl

-- Every identifier is that of task 1.
abbrev parse_uuid : String → Option ℕ
parse_uuid s = some 1

-- Engines that make every action wait.
abbrev waits : Dispatch
waits c now request decision = (err awaiting_consent, c)

dangerous : contains_dangerous_shell (codes (command_of wipe_request)) ≡ true
unfolding contains_dangerous_shell contains normalised replace as_str get get_field has_prefix
    to_lower
dangerous = refl

handle_action-Refused_example :
    OnlyAnswered parse_uuid client
      (handle_action parse_uuid waits client 5 wipe_request (some yes)).1
      (refusal_frame parse_uuid wipe_request
        (refusal parse_uuid (admitted parse_uuid client 5 wipe_request) wipe_request))
handle_action-Refused_example =
    handle_action-Refused parse_uuid waits client 5 wipe_request (some yes) refl
      (inr (refl, dangerous))

reads : required_scope read_request ≡ "desktop.fs.read"
unfolding required_scope one_of
reads = refl

reads-Granted : Granted gate (required_scope read_request)
reads-Granted = subst (λ s. Granted gate s) (sym reads) granted

no_shell : ◌≢◌ {A = String} "desktop.fs.read" "desktop.shell.execute"
no_shell h = let e = eq_iff "desktop.fs.read" "desktop.shell.execute" in ground arith
