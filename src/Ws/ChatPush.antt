-- ===== src/Ws/ChatPush.antt =====
-- `handle_chat_push` of ws_client.rs, over the archive of chat_store.rs.
--
-- `parse` and `parse_extra` are `parse_chat_push_params` and `parse_chat_push_extra` of daemon-protocol, which
-- read the JSON by serde's derived code.
use Prim.Native.String.{◌++◌}
use synth_hires_bridge.Prelude.{
  ℕ, String, true, false, not, ◌⊎◌, inl, inr, Option, none, some, List, [], ◌∷◌, if◌then◌else◌,
}
use synth_hires_bridge.Capability.{allows}
use synth_hires_bridge.Protocol.{Json, ActionRequestFrame}
use synth_hires_bridge.Errors.{Done}
use synth_hires_bridge.Chat.{
  ChatStore, ChatSyncConversation, ChatSyncArtifact, ChatSyncProject, upsert_conversation,
  upsert_artifact, upsert_project,
}
use synth_hires_bridge.Ws.Base.{Client, send_error, send_action_result}
use synth_hires_bridge.Ws.Action.{register_task}

unfoldable pub save_conversations : ChatStore → ℕ → List ChatSyncConversation → ChatStore
save_conversations db now [] = db
save_conversations db now (c ∷ cs) = save_conversations (upsert_conversation db now c).1 now cs

unfoldable pub save_artifacts : ChatStore → List ChatSyncArtifact → ChatStore
save_artifacts db [] = db
save_artifacts db (a ∷ as_) = save_artifacts (upsert_artifact db a) as_

unfoldable pub save_projects : ChatStore → List ChatSyncProject → ChatStore
save_projects db [] = db
save_projects db (p ∷ ps) = save_projects (upsert_project db p) ps

abbrev pub Extra : Type 0
Extra = List ChatSyncArtifact × List ChatSyncProject

module _ (parse_uuid : String → Option ℕ) where
  unfoldable pub push_extra :
      Client → ChatStore → ℕ → ℕ → ActionRequestFrame → String ⊎ Extra → (Done × Client) × ChatStore
  push_extra c db now elapsed request (inl e) =
      (send_error parse_uuid c now request.id ("bad_params: " ++ e), db)
  push_extra c db now elapsed request (inr (artifacts, projects)) = (
    send_action_result parse_uuid c now request.id true none none elapsed,
    save_projects (save_artifacts db artifacts) projects,
  )

  unfoldable pub push_parsed :
      Client
      → ChatStore
      → ℕ
      → ℕ
      → ActionRequestFrame
      → String ⊎ List ChatSyncConversation
      → String ⊎ Extra
      → (Done × Client) × ChatStore
  push_parsed c db now elapsed request (inl e) extra = (
    send_action_result parse_uuid c now request.id false none (some ("bad_params: " ++ e)) elapsed,
    db,
  )
  push_parsed c db now elapsed request (inr conversations) extra =
      push_extra c (save_conversations db now conversations) now elapsed request extra

  unfoldable pub handle_chat_push :
      (Json → String ⊎ List ChatSyncConversation)
      → (Json → String ⊎ Extra)
      → Client
      → ChatStore
      → ℕ
      → ℕ
      → ActionRequestFrame
      → (Done × Client) × ChatStore
  handle_chat_push parse parse_extra c db now elapsed request =
      let registered = register_task parse_uuid c now request in
      if not (allows registered.gate "sync.chat.push")
      then (
        send_error parse_uuid registered now request.id "capability not granted: sync.chat.push",
        db,
      )
      else push_parsed registered db now elapsed request (parse request.params)
          (parse_extra request.params)
