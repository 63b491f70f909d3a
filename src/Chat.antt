-- ===== src/Chat.antt =====
-- The local chat archive: apps/desktop-daemon/crates/daemon-core/src/chat_store.rs.
--
-- A table is an association list under its primary key; a statement of the source's SQL is the function
-- that it stands for, and no statement fails. A text is its characters where the code cuts it.
-- `workspace_ref` is the printed JSON value.
pub mod Schema
pub mod Writes
pub mod Snapshots
mod Tests
use synth_hires_bridge.Prelude.{
  ℕ, zero, suc, ◌+◌, String, Bool, true, false, not, ◌&&◌, Option, none, some, List, [], ◌∷◌,
  if◌then◌else◌, length, take, any, retain, str_eq, unwrap_or, map,
}
use synth_hires_bridge.Prelude.Map.{Map, lookup, insert, without}
use synth_hires_bridge.Prelude.Int.{ℤ, gtb, to_i64}

pub record ChatSyncMessage : Type 0 where
  pub id : String
  pub role : String
  pub content : List ℕ
  pub created_at : Option ℕ

pub record ChatSyncConversation : Type 0 where
  pub id : String
  pub title : Option String
  pub workspace_ref : Option String
  pub model : Option String
  pub provider : Option String
  pub is_pinned : Option Bool
  pub updated_at : Option ℕ
  pub messages : List ChatSyncMessage

pub record ChatSyncArtifact : Type 0 where
  pub id : String
  pub conversation_id : Option String
  pub title : Option String
  pub kind : Option String
  pub content : List ℕ
  pub updated_at : Option ℕ

pub record ChatSyncProject : Type 0 where
  pub id : String
  pub name : Option String
  pub description : Option String
  pub updated_at : Option ℕ

-- The columns of `local_conversations` behind its key, and so on for the other tables.
pub record ConversationRow : Type 0 where
  pub title : String
  pub workspace_ref : Option String
  pub model : String
  pub provider : String
  pub is_pinned : Bool
  pub updated_at : ℤ

pub record MessageRow : Type 0 where
  pub conversation_id : String
  pub role : String
  pub content : List ℕ
  pub created_at : ℤ

pub record ArtifactRow : Type 0 where
  pub conversation_id : Option String
  pub title : Option String
  pub kind : Option String
  pub content : List ℕ
  pub updated_at : ℤ

pub record ProjectRow : Type 0 where
  pub name : Option String
  pub description : Option String
  pub updated_at : ℤ

pub record ChatStore : Type 0 where
  pub conversations : Map ConversationRow
  pub messages : Map MessageRow
  pub artifacts : Map ArtifactRow
  pub projects : Map ProjectRow

-- `content.chars().take(200_000)`
unfoldable pub normalise_content : List ℕ → List ℕ
normalise_content content = take 200000 content

-- `if workspace_ref.is_empty() { None } else { Some(workspace_ref) }`
unfoldable pub non_empty : Option String → Option String
non_empty workspace_ref =
    let text = unwrap_or workspace_ref "" in if str_eq text "" then none else some text

unfoldable pub conversation_row : ChatSyncConversation → ℤ → ConversationRow
conversation_row conv updated_at = record {
  title = unwrap_or conv.title "New conversation";
  workspace_ref = non_empty conv.workspace_ref;
  model = unwrap_or conv.model "gpt-4o";
  provider = unwrap_or conv.provider "openai";
  is_pinned = unwrap_or conv.is_pinned false;
  updated_at = updated_at;
}

-- `ON CONFLICT(id) DO UPDATE SET role, content, created_at`: the row stays with its conversation.
unfoldable pub message_row : String → ChatSyncMessage → Option MessageRow → MessageRow
message_row conversation_id m old = record {
  conversation_id = elim old [ none ↦ conversation_id | some row ↦ row.conversation_id ];
  role = m.role;
  content = normalise_content m.content;
  created_at = to_i64 (unwrap_or m.created_at 0);
}

unfoldable pub upsert_message : String → ChatSyncMessage → Map MessageRow → Map MessageRow
upsert_message conversation_id m messages =
    insert m.id (message_row conversation_id m (lookup m.id messages)) messages

unfoldable pub upsert_messages : String → List ChatSyncMessage → Map MessageRow → Map MessageRow
upsert_messages conversation_id [] messages = messages
upsert_messages conversation_id (m ∷ ms) messages =
    upsert_messages conversation_id ms (upsert_message conversation_id m messages)

unfoldable pub in_snapshot : String → List ChatSyncMessage → Bool
in_snapshot id ms = any (λ (m : ChatSyncMessage). str_eq m.id id) ms

-- `DELETE ... WHERE conversation_id = ?1 AND id NOT IN (...)`
unfoldable pub prune : String → List ChatSyncMessage → Map MessageRow → Map MessageRow
prune conversation_id [] messages = messages
prune conversation_id (m ∷ ms) messages =
    retain
      (λ (row : String × MessageRow).
        not (str_eq row.1.conversation_id conversation_id && not (in_snapshot row.0 (m ∷ ms))))
      messages

unfoldable pub write_snapshot : ChatSyncConversation → ℤ → ChatStore → ChatStore
write_snapshot conv updated_at db = record db {
  conversations = insert conv.id (conversation_row conv updated_at) db.conversations;
  messages = prune conv.id conv.messages (upsert_messages conv.id conv.messages db.messages);
}

-- `if existing > updated_at { return Ok(0); }`, on the row that is there.
unfoldable pub is_newer : Option ℤ → ℤ → Bool
is_newer none updated_at = false
is_newer (some existing) updated_at = gtb existing updated_at

unfoldable pub stamp : Option ConversationRow → Option ℤ
stamp none = none
stamp (some row) = some row.updated_at

unfoldable pub upsert_conversation : ChatStore → ℕ → ChatSyncConversation → ℕ × ChatStore
upsert_conversation db now conv =
    let updated_at = to_i64 (unwrap_or conv.updated_at now) in
    if is_newer (stamp (lookup conv.id db.conversations)) updated_at
    then (0, db)
    else (length conv.messages, write_snapshot conv updated_at db)

unfoldable pub upsert_artifact : ChatStore → ChatSyncArtifact → ChatStore
upsert_artifact db a =
    let updated_at = to_i64 (unwrap_or a.updated_at 0) in
    let existing : Option ℤ = elim (lookup a.id db.artifacts) [
      | none ↦ none
      | some row ↦ some row.updated_at
    ] in
    if is_newer existing updated_at then db else record db {
      artifacts =
          insert a.id
            (record {
              conversation_id = a.conversation_id;
              title = a.title;
              kind = a.kind;
              content = take 200000 a.content;
              updated_at = updated_at;
            })
            db.artifacts;
    }

unfoldable pub upsert_project : ChatStore → ChatSyncProject → ChatStore
upsert_project db p =
    let updated_at = to_i64 (unwrap_or p.updated_at 0) in
    let existing : Option ℤ = elim (lookup p.id db.projects) [
      | none ↦ none
      | some row ↦ some row.updated_at
    ] in
    if is_newer existing updated_at then db else record db {
      projects =
          insert p.id
            (record { name = p.name; description = p.description; updated_at = updated_at })
            db.projects;
    }

-- The rows of the conversation's messages go with it (`ON DELETE CASCADE`, with `foreign_keys` on).
unfoldable pub delete_conversation : ChatStore → String → Bool × ChatStore
delete_conversation db id = (
  elim (lookup id db.conversations) [ none ↦ false | some row ↦ true ],
  record db {
    conversations = without id db.conversations;
    messages =
        retain (λ (row : String × MessageRow). not (str_eq row.1.conversation_id id)) db.messages;
  },
)

unfoldable pub count_conversations : ChatStore → ℕ
count_conversations db = length db.conversations

unfoldable pub count_messages : ChatStore → ℕ
count_messages db = length db.messages
