-- ===== src/Server/Binding.antt =====
-- Pairing and unpairing over the local server of server.rs, and the way from /status to /pair.
use synth_hires_bridge.Prelude.{
  ℕ, String, Bool, true, false, not, Option, none, some, List, ◌≡◌, refl, ap, ◌∙◌, inl, inr, arith,
  eq_refl, Bool-cases, true≢false, if◌then◌else◌,
}
use synth_hires_bridge.Prelude.Map.{lookup, lookup-insert}
use synth_hires_bridge.Pairing.{UrlCheck, accepted, rejected, validate_backend_url}
use synth_hires_bridge.Server.{
  HeaderMap, ServerState, Machine, Reply, success, failure, forbidden, conflict, PairRequest,
  is_live, take_nonce, check_local, is_some, save, valid_id, bind_device, pair_id, pair_backend,
  handle_pair, passing, passing_on,
}

-- The device is bound: its token is in the keyring, and the client runs against the backend.
abbrev pub Bound : String → PairRequest → ServerState → Type 0
Bound id payload after =
    (after.daemon_state.device_id ≡ some id)
    × (after.daemon_state.backend_url ≡ some payload.backend_url)
    × (lookup id after.tokens ≡ some payload.token)
    × (after.ws_client ≡ some payload.backend_url)

save-daemon_state :
    (m : Machine) (s : ServerState)
    → ((save m s).daemon_state ≡ s.daemon_state) × ((save m s).tokens ≡ s.tokens)
unfolding save
save-daemon_state m s = elim (Bool-cases m.save_fails) [
  | inl fails ↦ rw fails (refl, refl)
  | inr saves ↦ rw saves (refl, refl)
]

bind_device-Bound :
    (s : ServerState) (m : Machine) (payload : PairRequest) (id : String)
    → Bound id payload (bind_device s m payload id)
unfolding bind_device
bind_device-Bound s m payload id =
    let kept = save-daemon_state m _ in
    (
      ap (λ d. d.device_id) kept.0,
      ap (λ d. d.backend_url) kept.0,
      ap (lookup id) kept.1
          ∙ lookup-insert id id payload.token s.tokens
          ∙ ap (λ c. if c then some payload.token else lookup id s.tokens) (eq_refl id),
      refl,
    )

-- What a request to pair gives.
abbrev pub PairOutcome : ServerState → PairRequest → Reply (Unit {0}) × ServerState → Type 0
PairOutcome s payload (success _, after) =
    (s.daemon_state.device_id ≡ none)
    × (validate_backend_url payload.backend_url ≡ accepted)
    × ((id : String) × (payload.device_id ≡ some id) × Bound id payload after)
PairOutcome s payload (failure code message, after) =
    (after.daemon_state ≡ s.daemon_state)
    × (after.tokens ≡ s.tokens)
    × (after.ws_client ≡ s.ws_client)

valid_id-some : (o : Option String) (id : String) → valid_id o ≡ some id → o ≡ some id
unfolding valid_id
valid_id-some none id e = e
valid_id-some (some v) id e = ground arith

module _ (s : ServerState) (payload : PairRequest) where
  passing-PairOutcome :
      (guard : Reply (Unit {0})) (next : Reply (Unit {0}) × ServerState)
      → PairOutcome s payload next
      → PairOutcome s payload (passing guard s next)
  passing-PairOutcome (failure code message) next h = (refl, refl, refl)
  passing-PairOutcome (success _) next h = h

  pair_id-PairOutcome :
      (m : Machine) (o : Option String)
      → s.daemon_state.device_id ≡ none
      → validate_backend_url payload.backend_url ≡ accepted
      → valid_id payload.device_id ≡ o
      → PairOutcome s payload (pair_id s m payload o)
  unfolding pair_id bind_device
  pair_id-PairOutcome m none free safe e = (refl, refl, refl)
  pair_id-PairOutcome m (some id) free safe e = elim (Bool-cases m.keyring_fails) [
    | inl fails ↦ rw fails (refl, refl, refl)
    | inr works ↦
        rw works
          (free, safe, (id, valid_id-some payload.device_id id e, bind_device-Bound s m payload id))
  ]

  pair_backend-PairOutcome :
      (m : Machine) (c : UrlCheck)
      → s.daemon_state.device_id ≡ none
      → validate_backend_url payload.backend_url ≡ c
      → PairOutcome s payload (pair_backend s m payload c)
  unfolding pair_backend
  pair_backend-PairOutcome m (rejected e) free check = (refl, refl, refl)
  pair_backend-PairOutcome m accepted free check =
      pair_id-PairOutcome m (valid_id payload.device_id) free check refl

taken-PairOutcome :
    (s : ServerState) (payload : PairRequest) (m : Machine) (live : Bool)
    → s.daemon_state.device_id ≡ none
    → PairOutcome s payload (
        passing_on
          (if not live
            then (failure forbidden "Invalid nonce", s)
            else (success tt, record s { pairing_nonce = none }))
          λ taken. pair_backend taken m payload (validate_backend_url payload.backend_url))
taken-PairOutcome s payload m false free = (refl, refl, refl)
taken-PairOutcome s payload m true free =
    pair_backend-PairOutcome (record s { pairing_nonce = none }) payload m _ free refl

pub is_some-false : (o : Option String) → is_some o ≡ false → o ≡ none
unfolding is_some
is_some-false none e = refl
is_some-false (some v) e = absurd (true≢false e)

module _ (decimal : ℕ → List ℕ) where
  -- A request to pair that succeeds found no device bound and a safe backend, and binds the device that
  -- it names: the token is in the keyring under it, and the client runs against the backend. One
  -- that fails leaves the binding, the tokens and the client as they are.
  pub handle_pair-PairOutcome :
      (s : ServerState) (m : Machine) (headers : HeaderMap) (payload : PairRequest)
      → PairOutcome s payload (handle_pair decimal s m headers payload)
  unfolding handle_pair take_nonce
  handle_pair-PairOutcome s m headers payload =
      passing-PairOutcome s payload (check_local decimal headers s.local_port) _
        (unless_paired (is_some s.daemon_state.device_id) refl)
    where
      unless_paired :
          (paired : Bool)
          → is_some s.daemon_state.device_id ≡ paired
          → PairOutcome s payload (
              if paired
              then (failure conflict "Already paired", s)
              else passing_on
                  (take_nonce s m.now payload.nonce)
                  λ taken. pair_backend taken m payload (validate_backend_url payload.backend_url))
      unless_paired true e = (refl, refl, refl)
      unless_paired false e =
          taken-PairOutcome s payload m (is_live s.pairing_nonce m.now payload.nonce)
            (is_some-false s.daemon_state.device_id e)
