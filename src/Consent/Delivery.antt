-- ===== src/Consent/Delivery.antt =====
-- Each prompt is decided at most once, by the first answer: consent.rs.
use synth_hires_bridge.Prelude.{
  ℕ, ◌<◌, String, Bool, true, false, refl, ap, ◌∙◌, any, ◌==◌, Option, if◌then◌else◌, ◌≡◌, ◌≢◌,
  List, [], ◌∷◌, ◌++◌, none, some, arith, All, eq_iff, eq_refl,
}
use synth_hires_bridge.Prelude.Map.{Map, lookup, insert, lookup-without, lookup-insert}
use synth_hires_bridge.Consent.{
  ConsentPrompt, ConsentAnswer, ConsentBroker, set_notifier, ask, forget, deliver, notify, answer,
}

-- Whoever answers first wins: a second answer to the same action is refused and changes nothing.
pub answer_once :
    (b : ConsentBroker) (id : String) (first second : ConsentAnswer)
    → answer (answer b id first).1 id second ≡ (false, (answer b id first).1)
unfolding answer
answer_once b id first second = ground (arith, lookup-without id id b.pending, eq_iff id id)

-- The queue of decisions behind one more; without a notifier there is none.
abbrev pub Told :
    Option (List (String × ConsentAnswer))
    → String
    → ConsentAnswer
    → Option (List (String × ConsentAnswer))
    → Type 0
Told none id given after = after ≡ none
Told (some queue) id given after = after ≡ some (queue ++ (id, given) ∷ [])

notify-Told :
    (notifier : Option (List (String × ConsentAnswer))) (id : String) (given : ConsentAnswer)
    → Told notifier id given (notify notifier (id, given))
unfolding notify
notify-Told none id given = refl
notify-Told (some queue) id given = refl

any-All :
    (tx : ℕ) (dropped : List ℕ) → All (λ rx. rx ≢ tx) dropped → any (λ rx. rx == tx) dropped ≡ false
any-All tx [] h = refl
any-All tx (rx ∷ dropped) h = ground (arith, any-All tx dropped h.1)

-- What an answer to the prompt under `id` does, whose receiver is `rx`: the decision stands once in the
-- notifier's queue, the prompt is gone, and the receiver got the decision if it is still there.
abbrev pub Answered : ConsentBroker → String → ConsentAnswer → Bool × ConsentBroker → Type 0
Answered b id given after =
    (after.0 ≡ true)
    × Told b.notifier id given after.1.notifier
    × (lookup id after.1.pending ≡ none)

module _ (b : ConsentBroker) (prompt : ConsentPrompt) (given : ConsentAnswer) where
  abbrev with_dropped : List ℕ → ConsentBroker
  with_dropped dropped = record (ask b prompt).1 { dropped = dropped }

  answer-asked :
      (dropped : List ℕ)
      → Answered b prompt.action_id given (answer (with_dropped dropped) prompt.action_id given)
        × ((answer (with_dropped dropped) prompt.action_id given).1.delivered
            ≡ deliver dropped b.next_channel given b.delivered)
  unfolding ask answer
  answer-asked dropped =
      let id = prompt.action_id in
      let found : lookup id (insert id (prompt, b.next_channel) b.pending)
          ≡ some (prompt, b.next_channel) =
        lookup-insert id id (prompt, b.next_channel) b.pending
        ∙ ap (λ (t : Bool). if t then some (prompt, b.next_channel) else lookup id b.pending)
            (eq_refl id) in
      let gone = lookup-without id id (insert id (prompt, b.next_channel) b.pending) in
      let same = eq_refl id in
      rw (found, answer) ((refl, notify-Told b.notifier id given, ground arith), refl)

  -- The answer to a prompt puts the decision once behind the notifier's queue, and the prompt is gone. The
  -- receiver that `ask` returned gets it behind what was delivered before; where its caller has dropped
  -- it, nothing is delivered. The channel is a new one.
  pub ask-answer :
      All (λ rx. rx ≢ b.next_channel) b.dropped
      → (let after = answer (ask b prompt).1 prompt.action_id given in
          Answered b prompt.action_id given after
          × (after.1.delivered ≡ b.delivered ++ ((ask b prompt).0, given) ∷ []))
        × (let after = answer (forget (ask b prompt)) prompt.action_id given in
            Answered b prompt.action_id given after × (after.1.delivered ≡ b.delivered))
  unfolding ask deliver
  ask-answer fresh =
      let there = answer-asked b.dropped in
      let gone = answer-asked (b.next_channel ∷ b.dropped) in
      (
        (
          there.0,
          there.1
              ∙ ap
                  (λ (t : Bool).
                    if t then b.delivered else b.delivered ++ (b.next_channel, given) ∷ [])
                  (any-All b.next_channel b.dropped fresh),
        ),
        (gone.0, gone.1 ∙ dropped_now),
      )
    where
      dropped_now :
          deliver (b.next_channel ∷ b.dropped) b.next_channel given b.delivered ≡ b.delivered
      dropped_now = ground arith

-- An answer to any other action leaves a prompt pending, with its receiver.
pub ask-answer_other :
    (b : ConsentBroker) (prompt : ConsentPrompt) (id : String) (given : ConsentAnswer)
    → prompt.action_id ≢ id
    → lookup prompt.action_id (answer (ask b prompt).1 id given).1.pending
      ≡ some (prompt, (ask b prompt).0)
unfolding ask answer
ask-answer_other b prompt id given other =
    let key = prompt.action_id in
    let asked = insert key (prompt, b.next_channel) b.pending in
    ground (
      arith,
      lookup-insert key key (prompt, b.next_channel) b.pending,
      lookup-without id key asked,
      eq_refl key,
      eq_iff id key,
    )

-- What the UI, the web relay and the connection do with the broker.
pub data Call : Type 0 where
  installs : Call
  drops : ℕ → Call
  asks : ConsentPrompt → Call
  answers : String → ConsentAnswer → Call

pub step : ConsentBroker → Call → ConsentBroker
step b installs = set_notifier b
step b (drops rx) = forget (rx, b)
step b (asks prompt) = (ask b prompt).1
step b (answers id given) = (answer b id given).1

pub run : ConsentBroker → List Call → ConsentBroker
run b [] = b
run b (c ∷ cs) = run (step b c) cs

abbrev Absent : ℕ → List (ℕ × ConsentAnswer) → Type 0
Absent channel = All λ d. d.0 ≢ channel

-- No channel occurs twice.
abbrev pub Distinct : List (ℕ × ConsentAnswer) → Type 0
Distinct [] = Unit
Distinct ((channel, a) ∷ ds) = Absent channel ds × Distinct ds

abbrev DistinctPending : Map (ConsentPrompt × ℕ) → Type 0
DistinctPending [] = Unit
DistinctPending ((id, (p, channel)) ∷ m) = All (λ e. e.1.1 ≢ channel) m × DistinctPending m

record Inv (b : ConsentBroker) : Type 0 where
  pending_fresh : All (λ e. e.1.1 < b.next_channel) b.pending
  delivered_fresh : All (λ d. d.0 < b.next_channel) b.delivered
  pending_distinct : DistinctPending b.pending
  delivered_distinct : Distinct b.delivered
  undelivered : All (λ e. Absent e.1.1 b.delivered) b.pending
