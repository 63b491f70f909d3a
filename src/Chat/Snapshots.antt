-- ===== src/Chat/Snapshots.antt =====
-- What an accepted snapshot of chat_store.rs leaves in the table of messages.
use synth_hires_bridge.Prelude.{
  ℕ, String, Bool, true, false, not, ◌&&◌, ◌||◌, ◌≡◌, ◌≢◌, refl, sym, ap, subst, ◌∙◌, inl, inr,
  Option, none, some, none≢some, take, unwrap_or, List, [], ◌∷◌, arith, All, All-imp, Has,
  Bool-cases, if◌then◌else◌, any, retain, str_eq, eq_iff, eq_refl,
}
use synth_hires_bridge.Prelude.Map.{Map, lookup, insert, lookup-insert}
use synth_hires_bridge.Prelude.Int.{to_i64}
use synth_hires_bridge.Chat.{
  ChatStore, ChatSyncConversation, ChatSyncMessage, MessageRow, message_row, upsert_message,
  upsert_messages, in_snapshot, prune, write_snapshot, upsert_conversation, normalise_content,
}
use synth_hires_bridge.Chat.Writes.{time_of, NotOlder, is_newer-NotOlder, upsert-accepted}

-- No two messages of the snapshot have the same id.
abbrev pub Distinct : List ChatSyncMessage → Type 0
Distinct [] = Unit
Distinct (m ∷ ms) = All (λ (n : ChatSyncMessage). n.id ≢ m.id) ms × Distinct ms

str_eq-ne : (a b : String) → a ≢ b → str_eq a b ≡ false
str_eq-ne a b h = elim (Bool-cases (str_eq a b)) [
  | inl same ↦ absurd (h ((eq_iff a b).0 same))
  | inr other ↦ other
]

All-Has : {A : Type 0} (P : A → Type 0) (a : A) (xs : List A) → All P xs → Has a xs → P a
All-Has P a [] h k = absurd k
All-Has P a (x ∷ xs) h (inl here) = subst P here h.0
All-Has P a (x ∷ xs) h (inr there) = All-Has P a xs h.1 there

upsert_messages-other :
    (c j : String) (ms : List ChatSyncMessage) (t : Map MessageRow)
    → All (λ (n : ChatSyncMessage). n.id ≢ j) ms
    → lookup j (upsert_messages c ms t) ≡ lookup j t
unfolding upsert_messages upsert_message
upsert_messages-other c j [] t h = refl
upsert_messages-other c j (m ∷ ms) t h =
    let row = message_row c m (lookup m.id t) in
    upsert_messages-other c j ms (insert m.id row t) h.1
    ∙ lookup-insert m.id j row t
    ∙ ap (λ (b : Bool). if b then some row else lookup j t) (str_eq-ne m.id j h.0)

upsert_messages-in :
    (c : String) (m : ChatSyncMessage) (ms : List ChatSyncMessage) (t : Map MessageRow)
    → Distinct ms
    → Has m ms
    → lookup m.id (upsert_messages c ms t) ≡ some (message_row c m (lookup m.id t))
unfolding upsert_messages upsert_message
upsert_messages-in c m [] t d h = absurd h
upsert_messages-in c m (n ∷ ms) t d (inl here) =
    subst
      (λ (k : ChatSyncMessage).
        lookup k.id (upsert_messages c ms (upsert_message c n t))
        ≡ some (message_row c k (lookup k.id t)))
      here
      (let row = message_row c n (lookup n.id t) in
        upsert_messages-other c n.id ms (insert n.id row t) d.0
        ∙ lookup-insert n.id n.id row t
        ∙ ap (λ (b : Bool). if b then some row else lookup n.id t) (eq_refl n.id))
upsert_messages-in c m (n ∷ ms) t d (inr there) =
    let row = message_row c n (lookup n.id t) in
    upsert_messages-in c m ms (insert n.id row t) d.1 there
    ∙ ap (λ o. some (message_row c m o))
        (lookup-insert n.id m.id row t
          ∙ ap (λ (b : Bool). if b then some row else lookup m.id t) far)
  where
    far : str_eq n.id m.id ≡ false
    far =
        str_eq-ne n.id m.id
          (λ e. All-Has (λ (k : ChatSyncMessage). k.id ≢ n.id) m ms d.0 there (sym e))

some_injective : {A : Type 0} {a b : A} → some a ≡ some b → a ≡ b
some_injective e = cc

pair_eq : {A B : Type 0} {a c : A} {b d : B} → a ≡ c → b ≡ d → ◌≡◌ {A = A × B} (a, b) (c, d)
pair_eq p q = λ i. (p i, q i)

-- A row that a filter keeps is found behind it.
lookup-retain :
    {V : Type 0} (p : String × V → Bool) (j : String) (t : Map V) {v : V}
    → lookup j t ≡ some v
    → p (j, v) ≡ true
    → lookup j (retain p t) ≡ some v
unfolding lookup
lookup-retain p j [] e k = absurd (cc)
lookup-retain p j ((i, w) ∷ t) {v} e k = elim (Bool-cases (str_eq i j)) [
  | inl same ↦
      let here : (i, w) ≡ (j, v) = pair_eq ((eq_iff i j).0 same) (some_injective (rw same at e)) in
      let kept : p (i, w) ≡ true = ap p here ∙ k in rw (kept, same) (rw same at e)
  | inr other ↦
      let rest = lookup-retain p j t (rw other at e) k in
      elim (Bool-cases (p (i, w))) [ inl kept ↦ rw (kept, other) rest | inr gone ↦ rw gone rest ]
]

All-retain : {A : Type 0} (p : A → Bool) (xs : List A) → All (λ x. p x ≡ true) (retain p xs)
All-retain p [] = tt
All-retain p (x ∷ xs) = elim (Bool-cases (p x)) [
  | inl kept ↦ rw kept (kept, All-retain p xs)
  | inr gone ↦ rw gone (All-retain p xs)
]

in_snapshot-Has :
    (m : ChatSyncMessage) (ms : List ChatSyncMessage) → Has m ms → in_snapshot m.id ms ≡ true
unfolding in_snapshot
in_snapshot-Has m [] h = absurd h
in_snapshot-Has m (n ∷ ms) (inl here) =
    ap (λ (b : Bool). b || any (λ (k : ChatSyncMessage). str_eq k.id m.id) ms)
      (ap (λ (k : ChatSyncMessage). str_eq k.id m.id) here ∙ eq_refl m.id)
in_snapshot-Has m (n ∷ ms) (inr there) = ground (arith, in_snapshot-Has m ms there)

-- A message as it stands in a row: under the conversation that used its id first, or else under the
-- snapshot's.
abbrev pub Written : String → ChatSyncMessage → Option MessageRow → MessageRow → Type 0
Written id m before row =
    ((old : MessageRow) → before ≡ some old → row.conversation_id ≡ old.conversation_id)
    × (before ≡ none → row.conversation_id ≡ id)
    × (row.role ≡ m.role)
    × (row.content ≡ take 200000 m.content)
    × (row.created_at ≡ to_i64 (unwrap_or m.created_at 0))

message_row-Written :
    (id : String) (m : ChatSyncMessage) (before : Option MessageRow)
    → Written id m before (message_row id m before)
unfolding message_row normalise_content
message_row-Written id m none = ((λ old e. absurd (none≢some e)), (λ e. refl), refl, refl, refl)
message_row-Written id m (some row) = (
  (λ old e. ap (λ (r : MessageRow). r.conversation_id) (some_injective e)),
  (λ e. absurd (none≢some (sym e))),
  refl,
  refl,
  refl,
)

-- What an accepted snapshot with messages leaves: of its conversation nothing but its messages, each of
-- them under its id, and every row of another conversation whose id it does not use.
pub record Stands (conv : ChatSyncConversation) (before after : Map MessageRow) : Type 0 where
  pub only :
      All
        (λ (row : String × MessageRow).
          row.1.conversation_id ≡ conv.id → in_snapshot row.0 conv.messages ≡ true)
        after
  pub each :
      (m : ChatSyncMessage)
      → Has m conv.messages
      → (row : MessageRow) × (lookup m.id after ≡ some row)
        × Written conv.id m (lookup m.id before) row
  pub others :
      (j : String) (row : MessageRow)
      → All (λ (n : ChatSyncMessage). n.id ≢ j) conv.messages
      → lookup j before ≡ some row
      → row.conversation_id ≢ conv.id
      → lookup j after ≡ some row

keeps : ChatSyncConversation → String × MessageRow → Bool
keeps conv row = not (str_eq row.1.conversation_id conv.id && not (in_snapshot row.0 conv.messages))

keeps-only :
    (conv : ChatSyncConversation) (row : String × MessageRow)
    → keeps conv row ≡ true
    → row.1.conversation_id ≡ conv.id
    → in_snapshot row.0 conv.messages ≡ true
unfolding keeps
keeps-only conv row h e = ground (arith, eq_iff row.1.conversation_id conv.id)

keeps-snapshot :
    (conv : ChatSyncConversation) (id : String) (row : MessageRow)
    → in_snapshot id conv.messages ≡ true
    → keeps conv (id, row) ≡ true
unfolding keeps
keeps-snapshot conv id row h = ground arith

keeps-others :
    (conv : ChatSyncConversation) (id : String) (row : MessageRow)
    → row.conversation_id ≢ conv.id
    → keeps conv (id, row) ≡ true
unfolding keeps
keeps-others conv id row h = ground (arith, eq_iff row.conversation_id conv.id)

prune-retain :
    (conv : ChatSyncConversation) (ms : List ChatSyncMessage) (t : Map MessageRow)
    → conv.messages ≡ ms
    → ms ≢ []
    → prune conv.id ms t ≡ retain (keeps conv) t
unfolding prune keeps
prune-retain conv [] t e h = absurd (h refl)
prune-retain conv (m ∷ ms) t e h =
    ap
      (λ (all : List ChatSyncMessage).
        retain
          (λ (row : String × MessageRow).
            not (str_eq row.1.conversation_id conv.id && not (in_snapshot row.0 all)))
          t)
      (sym e)

prune-Stands :
    (conv : ChatSyncConversation) (before after : Map MessageRow)
    → Distinct conv.messages
    → after ≡ retain (keeps conv) (upsert_messages conv.id conv.messages before)
    → Stands conv before after
prune-Stands conv before after d e =
    let written = upsert_messages conv.id conv.messages before in
    record {
      only =
          subst
            (All (λ (row : String × MessageRow).
              row.1.conversation_id ≡ conv.id → in_snapshot row.0 conv.messages ≡ true))
            (sym e)
            (All-imp (λ row. keeps conv row ≡ true) _ (retain (keeps conv) written)
              (λ row k. keeps-only conv row k) (All-retain (keeps conv) written));
      each = λ m h. (
        message_row conv.id m (lookup m.id before),
        ap (λ t. lookup m.id t) e
            ∙ lookup-retain (keeps conv) m.id written
                (upsert_messages-in conv.id m conv.messages before d h)
                (keeps-snapshot conv m.id (message_row conv.id m (lookup m.id before))
                  (in_snapshot-Has m conv.messages h)),
        message_row-Written conv.id m (lookup m.id before),
      );
      others = λ j row h there far.
          ap (λ t. lookup j t) e
          ∙ lookup-retain (keeps conv) j written
              (upsert_messages-other conv.id j conv.messages before h ∙ there)
              (keeps-others conv j row far);
    }

-- A snapshot with messages of distinct ids that is not older than the stored row is authoritative for its
-- conversation: it leaves nothing else there, and each of its messages with its role, its time and the
-- first 200,000 characters of its content. But a message whose id another conversation uses stays filed
-- under that other one, with the content of this snapshot.
pub upsert_conversation-Stands :
    (db : ChatStore) (now : ℕ) (conv : ChatSyncConversation)
    → conv.messages ≢ []
    → Distinct conv.messages
    → NotOlder db conv (time_of now conv)
    → Stands conv db.messages (upsert_conversation db now conv).1.messages
unfolding write_snapshot
upsert_conversation-Stands db now conv some_there d current = prune-Stands conv db.messages _ d (
    ap (λ (r : ℕ × ChatStore). r.1.messages)
      (upsert-accepted db now conv (is_newer-NotOlder db conv (time_of now conv) current))
    ∙ prune-retain conv conv.messages (upsert_messages conv.id conv.messages db.messages) refl
        some_there)
