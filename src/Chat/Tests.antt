-- ===== src/Chat/Tests.antt =====
-- One conversation that is pushed twice.
use synth_hires_bridge.Prelude.{
  true≢false, sym, subst, eq_iff, true, ◌≡◌, none, some, [], ◌∷◌, arith,
}
use mathlib.Core.Option.{some-injective}
use synth_hires_bridge.Prelude.Text.{codes}
use synth_hires_bridge.Prelude.Map.{lookup}
use synth_hires_bridge.Prelude.Int.{pos, ◌≤ℤ◌, to_i64}
use synth_hires_bridge.Chat.{
  ChatStore, ChatSyncConversation, ChatSyncMessage, upsert_conversation, conversation_row,
  message_row,
}
use synth_hires_bridge.Chat.Schema.{fresh, migrate, migrate_complete}
use synth_hires_bridge.Chat.Writes.{LastWrite, NotOlder, time_of, upsert_conversation-LastWrite}
use synth_hires_bridge.Chat.Snapshots.{Stands, upsert_conversation-Stands}

abbrev first : ChatSyncMessage
first = record { id = "m1"; role = "user"; content = codes "hi"; created_at = some 1 }

abbrev second : ChatSyncMessage
second = record { id = "m2"; role = "assistant"; content = codes "hello"; created_at = some 2 }

abbrev pushed_chat : ChatSyncConversation
pushed_chat = record {
  id = "c1";
  title = some "A chat";
  workspace_ref = none;
  model = none;
  provider = none;
  is_pinned = none;
  updated_at = some 20;
  messages = first ∷ second ∷ [];
}

abbrev archive : ChatStore
archive = record {
  conversations = ("c1", conversation_row (record pushed_chat { messages = [] }) (pos 10)) ∷ [];
  messages =
      ("m0", message_row "c1" (record first { id = "m0" }) none)
      ∷ ("m9", message_row "c2" (record first { id = "m9" }) none)
      ∷ [];
  artifacts = [];
  projects = [];
}

upsert_conversation-LastWrite_example :
    LastWrite archive 99 pushed_chat (upsert_conversation archive 99 pushed_chat)
upsert_conversation-LastWrite_example = upsert_conversation-LastWrite archive 99 pushed_chat

newer : NotOlder archive pushed_chat (time_of 99 pushed_chat)
unfolding lookup conversation_row to_i64
newer row e =
    subst (λ r. r.updated_at ≤ℤ time_of 99 pushed_chat) (some-injective _ _ e) (omega arith)

upsert_conversation-Stands_example :
    Stands pushed_chat archive.messages (upsert_conversation archive 99 pushed_chat).1.messages
upsert_conversation-Stands_example =
    upsert_conversation-Stands archive 99 pushed_chat (λ e. cc)
      (((λ e. true≢false (sym ((eq_iff "m2" "m1").1 e))), tt), (tt, tt)) newer

migrate_complete_example :
    ((migrate fresh).has_v1 ≡ true)
    × ((migrate fresh).has_v2 ≡ true)
    × ((migrate fresh).version ≡ some 1)
    × ((migrate (migrate fresh)).version ≡ some 2)
    × (migrate (migrate (migrate fresh)) ≡ migrate (migrate fresh))
migrate_complete_example =
    migrate_complete fresh
      (record { first = λ h. absurd (omega arith); second = λ h. absurd (omega arith) })
