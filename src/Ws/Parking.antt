-- ===== src/Ws/Parking.antt =====
-- Actions that wait for their owner: ws_client.rs.
use synth_hires_bridge.Prelude.{
  ℕ, ◌-◌, String, Bool, false, ◌≡◌, refl, ◌≢◌, inl, inr, Option, none, some, List, [], ◌∷◌, arith,
  str_eq, eq_iff, if◌then◌else◌, any, All, ◌∙◌, Option-cases, ltb,
}
use synth_hires_bridge.Prelude.Map.{Map, lookup, lookup-without}
use synth_hires_bridge.Consent.{
  ConsentAnswer, ConsentBroker, ConsentPrompt, answer, consent_timeout_ms,
}
use synth_hires_bridge.Protocol.{ActionRequestFrame}
use synth_hires_bridge.Ws.Base.{Client}
use synth_hires_bridge.Ws.Action.{
  is_expired, expired_ids, drop_parked, drop_all, sweep_expired_parked, denial,
}

-- Each key has one entry, as in every `HashMap`.
abbrev pub UniqueKeys {ℓ} : {V : Type ℓ} → Map V → Type 0
UniqueKeys [] = Unit
UniqueKeys ((k, v) ∷ m) = All (λ e. e.0 ≢ k) m × UniqueKeys m

abbrev names : List String → String → Bool
names ids id = any (λ i. str_eq i id) ids

parked-drop_all :
    (c : Client) (ids : List String) (id : String)
    → lookup id (drop_all c ids).parked ≡ (if names ids id then none else lookup id c.parked)
unfolding drop_all drop_parked
parked-drop_all c [] id = refl
parked-drop_all c (i ∷ ids) id =
    ground (arith, parked-drop_all (drop_parked c i) ids id, lookup-without i id c.parked)

-- What is left of a parked action at `now`.
abbrev pub unexpired : ℕ → Option (ActionRequestFrame × ℕ) → Option (ActionRequestFrame × ℕ)
unexpired now none = none
unexpired now (some (request, at)) =
    if ltb consent_timeout_ms (now - at) then none else some (request, at)

expired_ids-absent :
    (now : ℕ) (m : Map (ActionRequestFrame × ℕ)) (id : String)
    → All (λ e. e.0 ≢ id) m
    → names (expired_ids now m) id ≡ false
unfolding expired_ids
expired_ids-absent now [] id h = refl
expired_ids-absent now ((j, (request, at)) ∷ m) id h =
    ground (arith, eq_iff j id, expired_ids-absent now m id h.1)

unexpired-lookup :
    (now : ℕ) (m : Map (ActionRequestFrame × ℕ)) (id : String)
    → UniqueKeys m
    → (if names (expired_ids now m) id then none else lookup id m) ≡ unexpired now (lookup id m)
unfolding lookup expired_ids is_expired
unexpired-lookup now [] id h = refl
unexpired-lookup now ((j, (request, at)) ∷ m) id h =
    ground (arith, eq_iff j id, expired_ids-absent now m j h.0, unexpired-lookup now m id h.1)

-- Where each identifier is parked once, a sweep gives up exactly the actions whose owner has been
-- silent for longer than the consent timeout, and leaves every other one parked as it was.
pub parked-sweep_expired_parked :
    (c : Client) (now : ℕ) (id : String)
    → UniqueKeys c.parked
    → lookup id (sweep_expired_parked c now).parked ≡ unexpired now (lookup id c.parked)
unfolding sweep_expired_parked
parked-sweep_expired_parked c now id h =
    parked-drop_all c (expired_ids now c.parked) id ∙ unexpired-lookup now c.parked id h

pending-answer :
    (b : ConsentBroker) (i id : String) (given : ConsentAnswer)
    → lookup id (answer b i given).1.pending ≡ (if str_eq i id then none else lookup id b.pending)
unfolding answer
pending-answer b i id given = elim (Option-cases (lookup i b.pending)) [
  | inl e ↦ ground (arith, eq_iff i id)
  | inr (found, e) ↦ ground (arith, lookup-without i id b.pending)
]

pending-drop_all :
    (c : Client) (ids : List String) (id : String)
    → lookup id (drop_all c ids).consent.pending
      ≡ (if names ids id then none else lookup id c.consent.pending)
unfolding drop_all drop_parked
pending-drop_all c [] id = refl
pending-drop_all c (i ∷ ids) id =
    ground (arith, pending-drop_all (drop_parked c i) ids id, pending-answer c.consent i id denial)

-- What is left at `now` of the prompt for an action, given how the action was parked.
abbrev pub unanswered :
    ℕ → Option (ActionRequestFrame × ℕ) → Option (ConsentPrompt × ℕ) → Option (ConsentPrompt × ℕ)
unanswered now none prompt = prompt
unanswered now (some (request, at)) prompt =
    if ltb consent_timeout_ms (now - at) then none else prompt

unanswered-lookup :
    (now : ℕ) (m : Map (ActionRequestFrame × ℕ)) (id : String) (prompt : Option (ConsentPrompt × ℕ))
    → UniqueKeys m
    → (if names (expired_ids now m) id then none else prompt) ≡ unanswered now (lookup id m) prompt
unfolding lookup expired_ids is_expired
unanswered-lookup now [] id prompt h = refl
unanswered-lookup now ((j, (request, at)) ∷ m) id prompt h =
    ground
      (arith, eq_iff j id, expired_ids-absent now m j h.0, unanswered-lookup now m id prompt h.1)

-- Where each identifier is parked once, a sweep withdraws the prompts of the actions that it gives
-- up, and no other prompt.
pub pending-sweep_expired_parked :
    (c : Client) (now : ℕ) (id : String)
    → UniqueKeys c.parked
    → lookup id (sweep_expired_parked c now).consent.pending
      ≡ unanswered now (lookup id c.parked) (lookup id c.consent.pending)
unfolding sweep_expired_parked
pending-sweep_expired_parked c now id h =
    pending-drop_all c (expired_ids now c.parked) id
    ∙ unanswered-lookup now c.parked id (lookup id c.consent.pending) h
