-- ===== src/Consent.antt =====
-- The consent broker: apps/desktop-daemon/crates/daemon-core/src/consent.rs.
--
-- A tokio oneshot channel is a number: `next_channel` is the one that the next `ask` creates, and
-- `delivered` lists what reached a receiver, oldest first, and `dropped` the channels whose receiver
-- was dropped. The notifier is the queue of its channel, `none`
-- until `set_notifier`. The two mutexes guard sections that cannot panic, so the branches for a
-- poisoned lock are left out.
pub mod Delivery
mod Tests
use synth_hires_bridge.Prelude.{
  ℕ, ◌+◌, String, Bool, true, false, List, [], ◌∷◌, ◌++◌, map, Option, none, some, any, ◌==◌,
  if◌then◌else◌,
}
use synth_hires_bridge.Prelude.Map.{Map, lookup, insert, without}

abbrev pub consent_timeout_ms : ℕ
consent_timeout_ms = 180_000

pub record ConsentPrompt : Type 0 where
  pub action_id : String
  pub capability : String
  pub summary : String
  pub path : Option String

pub record ConsentAnswer : Type 0 where
  pub approved : Bool
  pub remember : Bool

pub record ConsentBroker : Type 0 where
  pub pending : Map (ConsentPrompt × ℕ)
  pub notifier : Option (List (String × ConsentAnswer))
  pub next_channel : ℕ
  pub dropped : List ℕ
  pub delivered : List (ℕ × ConsentAnswer)

abbrev pub new : ConsentBroker
new = record { pending = []; notifier = none; next_channel = 0; dropped = []; delivered = [] }

-- The WS client installs a fresh channel.
unfoldable pub set_notifier : ConsentBroker → ConsentBroker
set_notifier b = record b { notifier = some [] }

-- Returns the receiver.
unfoldable pub ask : ConsentBroker → ConsentPrompt → ℕ × ConsentBroker
ask b prompt = (
  b.next_channel,
  record b {
    pending = insert prompt.action_id (prompt, b.next_channel) b.pending;
    next_channel = b.next_channel + 1;
  },
)

-- The caller drops the receiver that `ask` returned.
abbrev pub forget : ℕ × ConsentBroker → ConsentBroker
forget (rx, b) = record b { dropped = rx ∷ b.dropped }

-- `let _ = tx.send(answer)`: it reaches the receiver if that is still there.
unfoldable pub deliver :
    List ℕ → ℕ → ConsentAnswer → List (ℕ × ConsentAnswer) → List (ℕ × ConsentAnswer)
deliver dropped tx given delivered =
    if any (λ rx. rx == tx) dropped then delivered else delivered ++ (tx, given) ∷ []

-- `pending()`, the snapshot that the UI polls.
unfoldable pub prompts : ConsentBroker → List ConsentPrompt
prompts b = map (λ entry. entry.1.0) b.pending

unfoldable pub notify :
    Option (List (String × ConsentAnswer))
    → String × ConsentAnswer
    → Option (List (String × ConsentAnswer))
notify none decision = none
notify (some queue) decision = some (queue ++ decision ∷ [])

unfoldable pub answer : ConsentBroker → String → ConsentAnswer → Bool × ConsentBroker
answer b action_id given = elim (lookup action_id b.pending) [
  | none ↦ (false, b)
  | some (prompt, tx) ↦ (
    true,
    record b {
      pending = without action_id b.pending;
      delivered = deliver b.dropped tx given b.delivered;
      notifier = notify b.notifier (action_id, given);
    },
  )
]
