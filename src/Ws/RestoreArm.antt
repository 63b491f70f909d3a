-- ===== src/Ws/RestoreArm.antt =====
-- The arm "desktop.fs.restore" of `handle_action` in ws_client.rs, the undo of a mutation.
--
-- `as_u64` is that of serde_json, `decimal` prints a number, and `explain` an error of the store.
use Prim.Native.String.{◌++◌}
use synth_hires_bridge.Prelude.{
  ℕ, String, Bool, true, false, not, Option, none, some, List, ◌⊎◌, inl, inr, ◌==◌, if◌then◌else◌,
  unwrap_or, ◌≡◌, refl, Bool-cases, arith,
}
use synth_hires_bridge.Capability.{allows}
use synth_hires_bridge.Consent.{ConsentAnswer, ask, forget}
use synth_hires_bridge.Protocol.{
  Json, obj, end, field, num, str, bool, get, ActionRequestFrame, consent_prompt, protocol_version,
}
use synth_hires_bridge.Errors.{awaiting_consent, Done, err}
use synth_hires_bridge.Checkpoint.{CheckpointEntry, CheckpointError, restore, find_ts}
use synth_hires_bridge.Ws.Base.{send, send_action_result}
use synth_hires_bridge.Ws.Mutations.{World, Moment, told, refuse}
use synth_hires_bridge.Ws.Consents.{Approved}

module _ (decimal : ℕ → String) where
  abbrev pub restored : ℕ → CheckpointEntry → CheckpointEntry → Json
  restored ts entry rollback = obj (
      field "restored" (bool true) (
        field "ts" (num (decimal ts))
          (field "path" (str entry.path) (field "rollback_ts" (num (decimal rollback.ts)) end))))

-- The prompt for the owner: to the web first, best effort, and to the broker.
unfoldable pub ask_restore : World → ActionRequestFrame → CheckpointEntry → World
ask_restore w request entry =
    let summary = "Restaurar " ++ (entry.path ++ " desde checkpoint") in
    let relayed =
      (send w.client (
        consent_prompt (record {
          v = protocol_version;
          id = request.id;
          capability = "desktop.fs.restore";
          summary = summary;
          params_hash = "";
          path = some entry.path;
        }))).1 in
    record w {
      client = record relayed {
        consent = forget (
            ask relayed.consent (record {
              action_id = request.id;
              capability = "desktop.fs.restore";
              summary = summary;
              path = some entry.path;
            }));
      };
    }

-- An explicit grant of the owner answers for them.
unfoldable pub resolved : Bool → Option ConsentAnswer → Option ConsentAnswer
resolved granted decision =
    if granted then some (record { approved = true; remember = false }) else decision

module _ (sha256 : List ℕ → String) (parse_uuid : String → Option ℕ) (decimal : ℕ → String)
    (explain : CheckpointError → String) where
  unfoldable pub tell_restored :
      World
      → Moment
      → ActionRequestFrame
      → ℕ
      → CheckpointEntry
      → CheckpointError ⊎ CheckpointEntry
      → Done × World
  tell_restored w m request ts entry (inl e) =
      refuse parse_uuid w m request ("restore failed: " ++ explain e)
  tell_restored w m request ts entry (inr rollback) = told w (
      send_action_result parse_uuid w.client m.now request.id true
        (some (restored decimal ts entry rollback)) none m.elapsed)

  unfoldable pub run_restore :
      World
      → Moment
      → ActionRequestFrame
      → ℕ
      → CheckpointEntry
      → Option ConsentAnswer
      → Done × World
  unfolding tell_restored ask_restore
  run_restore w m request ts entry none = (err awaiting_consent, ask_restore w request entry)
  run_restore w m request ts entry (some answer) =
      if not answer.approved
      then refuse parse_uuid w m request
          "capability_denied: desktop.fs.restore (denegado por el owner)"
      else (let ran = restore sha256 w.store m.now ts in
          tell_restored (record w { store = ran.1 }) m request ts entry ran.0)

  unfoldable pub restore_found :
      World
      → Moment
      → ActionRequestFrame
      → Option ConsentAnswer
      → ℕ
      → Option CheckpointEntry
      → Done × World
  unfolding run_restore resolved
  restore_found w m request decision ts none =
      refuse parse_uuid w m request ("checkpoint " ++ (decimal ts ++ " no existe (¿evicted?)"))
  restore_found w m request decision ts (some entry) =
      run_restore w m request ts entry
        (resolved (allows w.client.gate "desktop.fs.restore") decision)

  unfoldable pub restore_arm :
      (Option Json → Option ℕ)
      → World
      → Moment
      → ActionRequestFrame
      → Option ConsentAnswer
      → Done × World
  unfolding restore_found
  restore_arm as_u64 w m request decision =
      let ts = unwrap_or (as_u64 (get request.params "ts")) 0 in
      if ts == 0
      then refuse parse_uuid w m request "bad params: ts (ms) requerido"
      else if not w.checkpoints
      then refuse parse_uuid w m request "checkpoint store unavailable"
      else restore_found w m request decision ts (find_ts ts w.store.index)

  -- The store was kept, or else the owner granted the capability or approved this action.
  abbrev pub OwnerAsked : World → Option ConsentAnswer → Done × World → Type 0
  OwnerAsked w decision r =
      (r.1.store ≡ w.store)
      ⊎ ((allows w.client.gate "desktop.fs.restore" ≡ true) ⊎ Approved decision)

  resolved-OwnerAsked :
      (w : World) (decision : Option ConsentAnswer) (answer : ConsentAnswer)
      → resolved (allows w.client.gate "desktop.fs.restore") decision ≡ some answer
      → answer.approved ≡ true
      → (allows w.client.gate "desktop.fs.restore" ≡ true) ⊎ Approved decision
  unfolding resolved
  resolved-OwnerAsked w decision answer e approved =
      elim (Bool-cases (allows w.client.gate "desktop.fs.restore")) [
        | inl granted ↦ inl granted
        | inr refused ↦ inr (answer, ground arith, approved)
      ]

  run_restore-OwnerAsked :
      (w : World) (m : Moment) (request : ActionRequestFrame) (ts : ℕ) (entry : CheckpointEntry)
      (decision o : Option ConsentAnswer)
      → resolved (allows w.client.gate "desktop.fs.restore") decision ≡ o
      → OwnerAsked w decision (run_restore w m request ts entry o)
  unfolding run_restore ask_restore refuse
  run_restore-OwnerAsked w m request ts entry decision none e = inl refl
  run_restore-OwnerAsked w m request ts entry decision (some answer) e =
      elim (Bool-cases answer.approved) [
        | inl approved ↦ inr (resolved-OwnerAsked w decision answer e approved)
        | inr denied ↦ inl (rw denied refl)
      ]

  found-OwnerAsked :
      (w : World) (m : Moment) (request : ActionRequestFrame) (decision : Option ConsentAnswer)
      (ts : ℕ) (o : Option CheckpointEntry)
      → OwnerAsked w decision (restore_found w m request decision ts o)
  unfolding restore_found refuse
  found-OwnerAsked w m request decision ts none = inl refl
  found-OwnerAsked w m request decision ts (some entry) =
      run_restore-OwnerAsked w m request ts entry decision _ refl

  if-OwnerAsked :
      (w : World) (decision : Option ConsentAnswer) (c : Bool) (x y : Done × World)
      → OwnerAsked w decision x
      → OwnerAsked w decision y
      → OwnerAsked w decision (if c then x else y)
  if-OwnerAsked w decision true x y h k = h
  if-OwnerAsked w decision false x y h k = k

  -- The arm that restores a checkpoint changes no file and no checkpoint unless the owner granted
  -- the restore of files or approved this action; `skip_consent_prompt` of the server does not count.
  pub restore_arm-OwnerAsked :
      (as_u64 : Option Json → Option ℕ) (w : World) (m : Moment) (request : ActionRequestFrame)
      (decision : Option ConsentAnswer)
      → OwnerAsked w decision (restore_arm as_u64 w m request decision)
  unfolding restore_arm refuse
  restore_arm-OwnerAsked as_u64 w m request decision =
      let ts = unwrap_or (as_u64 (get request.params "ts")) 0 in
      if-OwnerAsked w decision (ts == 0) _ _ (inl refl) (
        if-OwnerAsked w decision (not w.checkpoints) _ _ (inl refl)
          (found-OwnerAsked w m request decision ts (find_ts ts w.store.index)))
