-- ===== src/Chat/Writes.antt =====
-- What an upsert of chat_store.rs does to the rows of its table: the last write wins.
use synth_hires_bridge.Prelude.{
  ℕ, String, Bool, true, false, ◌≡◌, refl, sym, ap, ◌∙◌, inl, inr, Option, none, some, Bool-cases,
  subst, none≢some, length, if◌then◌else◌, str_eq, eq_iff, eq_refl, unwrap_or,
}
use mathlib.Core.Option.{some-injective}
use synth_hires_bridge.Prelude.Map.{lookup, lookup-insert}
use synth_hires_bridge.Prelude.Int.{ℤ, ◌≤ℤ◌, gtb, gtb-false, le-gtb, le_refl, to_i64}
use synth_hires_bridge.Chat.{
  ChatStore, ChatSyncConversation, ConversationRow, upsert_conversation, write_snapshot,
  conversation_row, is_newer, stamp, non_empty,
}

-- The time of the snapshot, which is the present where it has none.
abbrev pub time_of : ℕ → ChatSyncConversation → ℤ
time_of now conv = to_i64 (unwrap_or conv.updated_at now)

-- The stored time of a conversation.
abbrev pub stored : String → ChatStore → Option ℤ
stored id db = stamp (lookup id db.conversations)

stamp_le :
    (row : Option ConversationRow) (t : ℤ) {old : ℤ}
    → is_newer (stamp row) t ≡ false
    → stamp row ≡ some old
    → old ≤ℤ t
unfolding is_newer
stamp_le row t {old} fresh e = gtb-false old t (ap (λ s. is_newer s t) (sym e) ∙ fresh)

stored-write :
    (db : ChatStore) (conv : ChatSyncConversation) (t : ℤ) (id : String)
    → stored id (write_snapshot conv t db) ≡ (if str_eq conv.id id then some t else stored id db)
unfolding write_snapshot stamp conversation_row
stored-write db conv t id =
    ap stamp (lookup-insert conv.id id (conversation_row conv t) db.conversations)
    ∙ by_test (str_eq conv.id id) (lookup id db.conversations)
  where
    by_test :
        (b : Bool) (row : Option ConversationRow)
        → stamp (if b then some (conversation_row conv t) else row)
          ≡ (if b then some t else stamp row)
    by_test true row = refl
    by_test false row = refl

written-row :
    (db : ChatStore) (conv : ChatSyncConversation) (t : ℤ)
    → lookup conv.id (write_snapshot conv t db).conversations ≡ some (conversation_row conv t)
unfolding write_snapshot
written-row db conv t =
    lookup-insert conv.id conv.id (conversation_row conv t) db.conversations
    ∙ ap
        (λ (b : Bool).
          if b then some (conversation_row conv t) else lookup conv.id db.conversations)
        (eq_refl conv.id)

-- Whatever is stored of the conversation is of this time or an earlier one.
abbrev pub NotOlder : ChatStore → ChatSyncConversation → ℤ → Type 0
NotOlder db conv t =
    (row : ConversationRow) → lookup conv.id db.conversations ≡ some row → row.updated_at ≤ℤ t

-- No conversation is lost, and none has an earlier time.
abbrev pub Later : ChatStore → ChatStore → Type 0
Later before after =
    (id : String) (old : ConversationRow)
    → lookup id before.conversations ≡ some old
    → (new : ConversationRow) × (lookup id after.conversations ≡ some new)
      × (old.updated_at ≤ℤ new.updated_at)

-- A snapshot older than the stored row changes nothing and saves nothing; any other one becomes the row,
-- with the defaults of what it does not say, and all its messages count as saved.
abbrev pub LastWrite : ChatStore → ℕ → ChatSyncConversation → ℕ × ChatStore → Type 0
LastWrite db now conv done =
    ((row : ConversationRow)
      → lookup conv.id db.conversations ≡ some row
      → ¬ (row.updated_at ≤ℤ time_of now conv)
      → done ≡ (0, db))
    × (NotOlder db conv (time_of now conv)
        → (done.0 ≡ length conv.messages)
          × (lookup conv.id done.1.conversations
              ≡ some (record {
                title = unwrap_or conv.title "New conversation";
                workspace_ref = non_empty conv.workspace_ref;
                model = unwrap_or conv.model "gpt-4o";
                provider = unwrap_or conv.provider "openai";
                is_pinned = unwrap_or conv.is_pinned false;
                updated_at = time_of now conv;
              })))
    × Later db done.1

not_newer :
    (t : ℤ) (o : Option ConversationRow)
    → ((row : ConversationRow) → o ≡ some row → row.updated_at ≤ℤ t)
    → is_newer (stamp o) t ≡ false
unfolding is_newer stamp
not_newer t none h = refl
not_newer t (some row) h = le-gtb row.updated_at t (h row refl)

pub is_newer-NotOlder :
    (db : ChatStore) (conv : ChatSyncConversation) (t : ℤ)
    → NotOlder db conv t
    → is_newer (stored conv.id db) t ≡ false
is_newer-NotOlder db conv t h = not_newer t (lookup conv.id db.conversations) h

is_newer-stale :
    (o : Option ConversationRow) (t : ℤ) (row : ConversationRow)
    → o ≡ some row
    → ¬ (row.updated_at ≤ℤ t)
    → is_newer (stamp o) t ≡ true
unfolding is_newer stamp
is_newer-stale o t row e h = elim (Bool-cases (gtb row.updated_at t)) [
  | inl newer ↦ ap (λ x. is_newer (stamp x) t) e ∙ newer
  | inr current ↦ absurd (h (gtb-false row.updated_at t current))
]

-- A time that is stored is that of a row.
stamped :
    (o : Option ConversationRow) (t : ℤ)
    → stamp o ≡ some t
    → (row : ConversationRow) × (o ≡ some row) × (row.updated_at ≡ t)
unfolding stamp
stamped none t e = absurd (none≢some e)
stamped (some row) t e = (row, refl, some-injective _ _ e)

stamp-some :
    (o : Option ConversationRow) (row : ConversationRow)
    → o ≡ some row
    → stamp o ≡ some row.updated_at
unfolding stamp
stamp-some o row e = ap stamp e

module _ (db : ChatStore) (now : ℕ) (conv : ChatSyncConversation) where
  stored-upsert :
      (id : String) (old : ℤ)
      → stored id db ≡ some old
      → (new : ℤ) × (stored id (upsert_conversation db now conv).1 ≡ some new) × (old ≤ℤ new)
  unfolding upsert_conversation
  stored-upsert id old e = elim (Bool-cases (is_newer (stored conv.id db) (time_of now conv))) [
    | inl stale ↦ rw stale (old, e, le_refl old)
    | inr current ↦ rw current (elim (Bool-cases (str_eq conv.id id)) [
      | inl same ↦ (
        time_of now conv,
        stored-write db conv (time_of now conv) id
            ∙ ap (λ (b : Bool). if b then some (time_of now conv) else stored id db) same,
        stamp_le (lookup conv.id db.conversations) (time_of now conv) current
            (ap (λ k. stored k db) ((eq_iff conv.id id).0 same) ∙ e),
      )
      | inr other ↦ (
        old,
        stored-write db conv (time_of now conv) id
            ∙ ap (λ (b : Bool). if b then some (time_of now conv) else stored id db) other
            ∙ e,
        le_refl old,
      )
    ])
  ]

  upsert_conversation-Later : Later db (upsert_conversation db now conv).1
  upsert_conversation-Later id old e =
      let (t, e₁, le) = stored-upsert id old.updated_at (stamp-some _ old e) in
      let (new, e₂, same) =
        stamped (lookup id (upsert_conversation db now conv).1.conversations) t e₁ in
      (new, e₂, subst (λ x. old.updated_at ≤ℤ x) (sym same) le)

  pub upsert-accepted :
      is_newer (stored conv.id db) (time_of now conv) ≡ false
      → upsert_conversation db now conv
        ≡ (length conv.messages, write_snapshot conv (time_of now conv) db)
  unfolding upsert_conversation
  upsert-accepted current = rw current refl

  -- The last write wins: a snapshot older than the stored row changes nothing and saves nothing, any other
  -- one becomes the row, with the defaults of what it does not say; and no snapshot loses a conversation
  -- or moves its time back.
  pub upsert_conversation-LastWrite : LastWrite db now conv (upsert_conversation db now conv)
  unfolding upsert_conversation conversation_row
  upsert_conversation-LastWrite = (
    (λ row e old.
        rw (is_newer-stale (lookup conv.id db.conversations) (time_of now conv) row e old) refl),
    (λ h.
        let is = upsert-accepted (is_newer-NotOlder db conv (time_of now conv) h) in
        (
          ap (λ r. r.0) is,
          ap (λ r. lookup conv.id r.1.conversations) is ∙ written-row db conv (time_of now conv),
        )),
    upsert_conversation-Later,
  )
