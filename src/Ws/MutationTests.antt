-- ===== src/Ws/MutationTests.antt =====
-- The arms that change files, on a concrete disk.
use synth_hires_bridge.Prelude.{
  ℕ, String, true, false, ◌≡◌, refl, ◌⊎◌, inr, Option, none, some, List, [], ◌∷◌, arith,
}
use synth_hires_bridge.Prelude.Map.{lookup}
use synth_hires_bridge.Capability.Paths.{
  root_dir, normal, FilePath, unix, has_parent_dir, path_starts_with,
}
use synth_hires_bridge.Capability.Resolve.{Canonicalize}
use synth_hires_bridge.Capability.{
  CapabilityGate, with_one_shot_path, check_path_real, check_path, allows, one_shot_covers,
  path_matches_any,
}
use synth_hires_bridge.Consent.{ConsentAnswer}
use synth_hires_bridge.Consent
use synth_hires_bridge.Tasks.{no_tasks}
use synth_hires_bridge.Protocol.{Json, null, ActionRequestFrame}
use synth_hires_bridge.Errors.{DaemonError, ok, err, to_string}
use synth_hires_bridge.Checkpoint.{
  file, CheckpointEntry, CheckpointStore, CheckpointError, restore, capture, snapshot,
  enforce_limits, enforce, within_limits, total, write_blob, remove_blob,
}
use synth_hires_bridge.Checkpoint.Restore.{HasRoom, Writable}
use synth_hires_bridge.Ws.Base.{Client}
use synth_hires_bridge.Ws.PathGate.{path_gate, interactive, decided, passes, is_allow}
use synth_hires_bridge.Ws.Action.{park}
use synth_hires_bridge.Ws.Mutations.{
  World, Moment, Engine, write_arm, delete_arm, write_parsed, gated, mutate, checkpoint_before,
  take_checkpoint, reply,
}
use synth_hires_bridge.Ws.Guards.{Cleared, Guarded, arms-Guarded}
use synth_hires_bridge.Ws.Undo.{write_arm-undo}
use synth_hires_bridge.Ws.RestoreArm.{OwnerAsked, restore_arm, restore_arm-OwnerAsked}
use synth_hires_bridge.Chat.{ChatStore, ChatSyncConversation}
use synth_hires_bridge.Ws.ChatPush.{Extra}
use synth_hires_bridge.Ws.Refusals.{OnlyAnswered, refusal_frame}
use synth_hires_bridge.Ws.Deletes.{delete_arm-not_parked}

abbrev hosts : FilePath
hosts = root_dir ∷ normal "etc" ∷ normal "hosts" ∷ []

abbrev gate : CapabilityGate
gate = record {
  snapshot = record {
    capabilities = "desktop.fs.write" ∷ "desktop.fs.delete" ∷ [];
    always_allow_paths = [];
    one_shot_paths = [];
  };
}

abbrev plain : Canonicalize
plain p = some p

abbrev shown : FilePath → String
shown p = "/etc/hosts"

abbrev request : ActionRequestFrame
request = record {
  v = 1;
  id = "a1";
  capability = "desktop.fs.write";
  params = null;
  conversation_id = none;
  skip_consent_prompt = false;
}

abbrev client : Client
client = record {
  gate = gate;
  consent = Consent.new;
  parked = [];
  shared = no_tasks;
  audit_log = [];
  open_socket = true;
  sent = [];
}

abbrev world : World
world = record {
  client = client;
  checkpoints = true;
  store = record {
    index = [];
    blobs = [];
    files = ("/etc/hosts", file (1 ∷ 2 ∷ [])) ∷ [];
    faults = λ path. none;
  };
}

abbrev moment : Moment
moment = record { now = 10; elapsed = 0; capture_fault = none }

abbrev parse : Json → String ⊎ FilePath
parse params = inr hosts

abbrev path_of : FilePath → FilePath
path_of p = p

-- An engine that overwrites the file and finds something else when it reads it back.
abbrev engine : Engine FilePath
engine g p files = (ok (false, null), ("/etc/hosts", file (9 ∷ [])) ∷ [])

abbrev approval : Option ConsentAnswer
approval = some (record { approved = true; remember = false })

abbrev same_hash : List ℕ → String
same_hash bytes = "00"

abbrev parse_uuid : String → Option ℕ
parse_uuid id = none

abbrev once : CapabilityGate
once = with_one_shot_path gate hosts

cleared :
    Cleared unix plain shown same_hash parse_uuid parse path_of engine world moment request
      "differs" approval "desktop.fs.write" hosts once
unfolding path_gate interactive decided passes is_allow check_path_real check_path allows
    has_parent_dir one_shot_covers path_matches_any path_starts_with with_one_shot_path
cleared = (refl, refl, inr refl)

abbrev overwritten : CheckpointStore
overwritten =
    (write_arm unix plain shown same_hash parse_uuid parse path_of engine world moment request
      "differs" approval).1.store

room : HasRoom same_hash overwritten "/etc/hosts"
unfolding path_gate interactive decided passes is_allow check_path_real check_path allows
    has_parent_dir one_shot_covers path_matches_any path_starts_with with_one_shot_path write_arm
    write_parsed gated mutate checkpoint_before take_checkpoint reply capture snapshot
    enforce_limits enforce within_limits total lookup write_blob remove_blob
room = (omega arith, omega arith)

there : lookup "/etc/hosts" world.store.files ≡ some (file (1 ∷ 2 ∷ []))
unfolding lookup
there = refl

writable : Writable same_hash overwritten "/etc/hosts"
unfolding path_gate interactive decided passes is_allow check_path_real check_path allows
    has_parent_dir one_shot_covers path_matches_any path_starts_with with_one_shot_path write_arm
    write_parsed gated mutate checkpoint_before take_checkpoint reply capture snapshot
    enforce_limits enforce within_limits total lookup write_blob remove_blob
writable = (refl, λ n e. cc)

write_arm-undo_example :
    let done = restore same_hash overwritten 20 10 in
    ((rollback : CheckpointEntry) × (done.0 ≡ inr rollback))
    × (lookup "/etc/hosts" done.1.files ≡ some (file (1 ∷ 2 ∷ [])))
write_arm-undo_example =
    write_arm-undo unix plain shown same_hash parse_uuid parse path_of engine world moment request
      "differs" approval hosts once (1 ∷ 2 ∷ []) 20 refl cleared there (omega arith) tt
      (λ e. absurd (omega arith)) room writable

arms-Guarded_example :
    Guarded unix plain shown same_hash parse_uuid parse path_of engine world moment request
      "differs" none "desktop.fs.write"
      (write_arm unix plain shown same_hash parse_uuid parse path_of engine world moment request
        "differs" none)
    × Guarded unix plain shown same_hash parse_uuid parse path_of engine world moment request
        "differs" none "desktop.fs.delete"
        (delete_arm unix plain shown same_hash parse_uuid parse path_of engine world moment request
          none)
arms-Guarded_example =
    arms-Guarded unix plain shown same_hash parse_uuid parse path_of engine world moment request
      "differs" none

delete_arm-not_parked_example :
    let done =
      delete_arm unix plain shown same_hash parse_uuid parse path_of engine world moment request
        none in
    ((park 10 request (done.0, done.1.client)).1.parked ≡ done.1.client.parked)
    × ((v : FilePath) (e : DaemonError) (c : Client)
        → parse null ≡ inr v
        → path_gate unix plain shown client request "desktop.fs.delete" (path_of v) none
          ≡ (err e, c)
        → c.open_socket ≡ true
        → OnlyAnswered parse_uuid c done.1.client (refusal_frame parse_uuid request (to_string e))
          × (done.1.store ≡ world.store))
delete_arm-not_parked_example =
    delete_arm-not_parked parse_uuid moment request unix plain shown same_hash parse path_of engine
      world none

abbrev explain : CheckpointError → String
explain e = "refused"

abbrev number : ℕ → String
number n = "10"

abbrev ten : Option Json → Option ℕ
ten value = some 10

restore_arm-OwnerAsked_example :
    OwnerAsked same_hash parse_uuid number explain world none
      (restore_arm same_hash parse_uuid number explain ten world moment request none)
restore_arm-OwnerAsked_example =
    restore_arm-OwnerAsked same_hash parse_uuid number explain ten world moment request none

abbrev no_chats : ChatStore
no_chats = record { conversations = []; messages = []; artifacts = []; projects = [] }

abbrev chat : ChatSyncConversation
chat = record {
  id = "c1";
  title = none;
  workspace_ref = none;
  model = none;
  provider = none;
  is_pinned = none;
  updated_at = some 20;
  messages = [];
}

abbrev pushed : Json → String ⊎ List ChatSyncConversation
pushed params = inr (chat ∷ [])

abbrev no_extra : Json → String ⊎ Extra
no_extra params = inr ([], [])
