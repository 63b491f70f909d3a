-- ===== src/Server/Handshake.antt =====
-- The way from /status to /pair in server.rs, and what /unpair leaves.
use synth_hires_bridge.Prelude.{
  ℕ, ◌≤◌, ◌-◌, String, Bool, true, false, not, Option, none, some, ◌≡◌, refl, ap, ◌∙◌, arith,
  eq_refl, Bool-cases, inl, inr, if◌then◌else◌, leb, leb→le, List,
}
use synth_hires_bridge.Pairing.{accepted, validate_backend_url}
use synth_hires_bridge.Server.{
  HeaderMap, ServerState, Machine, Reply, success, failure, forbidden, PairRequest, is_live,
  take_nonce, current_nonce, keep_or_set, mint_nonce, check_local, is_some, save, valid_id, pair_id,
  pair_backend, unbind_device, forget_token, handle_status, handle_pair, handle_unpair, passing,
  passing_on, nonce_ttl,
}

-- A nonce that is stored and not too old.
abbrev pub Stored : ServerState → ℕ → String → ℕ → Type 0
Stored s now v created = (s.pairing_nonce ≡ some (v, created)) × (now - created ≤ nonce_ttl)

Stored-is_live :
    (s : ServerState) (now : ℕ) (v : String) (created : ℕ)
    → Stored s now v created
    → is_live s.pairing_nonce now v ≡ true
unfolding is_live
Stored-is_live s now v created (h, young) = ap (λ o. is_live o now v) h ∙ ground (arith, eq_refl v)

-- The nonce that is handed out is the one that is stored from then on, and everything else is kept.
keep_or_set-Stored :
    (s : ServerState) (m : Machine) (o : Option (String × ℕ))
    → s.pairing_nonce ≡ o
    → let minted = keep_or_set s m (current_nonce o m.now) in
      (created : ℕ) × Stored minted.1 m.now minted.0 created
unfolding keep_or_set current_nonce
keep_or_set-Stored s m none e = (m.now, (refl, omega arith))
keep_or_set-Stored s m (some (v, created)) e = elim (Bool-cases (leb (m.now - created) nonce_ttl)) [
  | inl young ↦ rw young (created, (e, leb→le _ _ young))
  | inr old ↦ rw old (m.now, (refl, omega arith))
]

keep_or_set-daemon_state :
    (s : ServerState) (m : Machine) (o : Option String)
    → (keep_or_set s m o).1.daemon_state ≡ s.daemon_state
unfolding keep_or_set
keep_or_set-daemon_state s m none = refl
keep_or_set-daemon_state s m (some v) = refl

module _ (decimal : ℕ → List ℕ) where
  -- A local request for the status is answered with a nonce that is stored and not too old.
  pub handle_status-Stored :
      (s : ServerState) (m : Machine) (headers : HeaderMap)
      → check_local decimal headers s.local_port ≡ success tt
      → let served = handle_status decimal s m headers in
        (v : String) × (created : ℕ) × (served.0
          ≡ success (record {
            paired = is_some s.daemon_state.device_id;
            nonce = some v;
            device_id = s.daemon_state.device_id;
          }))
        × Stored served.1 m.now v created
        × (served.1.daemon_state ≡ s.daemon_state)
  unfolding handle_status mint_nonce
  handle_status-Stored s m headers local = rw local (
      let minted =
        keep_or_set-Stored (record s { last_poll = m.unix_secs }) m s.pairing_nonce refl in
      (
        _,
        minted.0,
        refl,
        minted.1,
        keep_or_set-daemon_state _ m (current_nonce s.pairing_nonce m.now),
      ))

  -- Where no device is bound, a local request to pair succeeds that presents the stored nonce in
  -- time, and names a safe backend and a device, if the keyring takes the token.
  pub handle_pair-succeeds :
      (s : ServerState) (m : Machine) (headers : HeaderMap) (payload : PairRequest) (id : String)
      (created : ℕ)
      → check_local decimal headers s.local_port ≡ success tt
      → s.daemon_state.device_id ≡ none
      → Stored s m.now payload.nonce created
      → validate_backend_url payload.backend_url ≡ accepted
      → valid_id payload.device_id ≡ some id
      → m.keyring_fails ≡ false
      → (handle_pair decimal s m headers payload).0 ≡ success tt
  unfolding handle_pair take_nonce pair_backend pair_id is_some
  handle_pair-succeeds s m headers payload id created local free stored safe named works =
      let unbound : is_some s.daemon_state.device_id ≡ false = ap is_some free in
      let live = Stored-is_live s m.now payload.nonce created stored in
      rw (local, unbound, live, safe, named, works) refl

-- What a request to unpair gives.
abbrev pub UnpairOutcome : ServerState → Machine → Reply (Unit {0}) × ServerState → Type 0
UnpairOutcome s m (success _, after) =
    (after.daemon_state.device_id ≡ none)
    × (after.ws_client ≡ none)
    × Stored after m.now m.fresh m.now
    × (after.tokens ≡ forget_token m s.daemon_state.device_id s.tokens)
UnpairOutcome s m (failure code message, after) = after ≡ s

save-binding :
    (m : Machine) (s : ServerState)
    → ((save m s).daemon_state ≡ s.daemon_state) × ((save m s).tokens ≡ s.tokens)
unfolding save
save-binding m s = elim (Bool-cases m.save_fails) [
  | inl fails ↦ rw fails (refl, refl)
  | inr saves ↦ rw saves (refl, refl)
]

module _ (decimal : ℕ → List ℕ) where
  -- A request to unpair that succeeds frees the device and stops the client, with the token forgotten
  -- if the keyring works, and leaves a fresh nonce to pair with; one that fails changes nothing.
  pub handle_unpair-UnpairOutcome :
      (s : ServerState) (m : Machine) (headers : HeaderMap) (nonce : String)
      → UnpairOutcome s m (handle_unpair decimal s m headers nonce)
  unfolding handle_unpair take_nonce unbind_device
  handle_unpair-UnpairOutcome s m headers nonce =
      guarded (check_local decimal headers s.local_port) (is_live s.pairing_nonce m.now nonce)
    where
      guarded :
          (guard : Reply (Unit {0})) (live : Bool)
          → UnpairOutcome s m (
              passing guard s (
                passing_on
                  (if not live
                    then (failure forbidden "Invalid nonce", s)
                    else (success tt, record s { pairing_nonce = none }))
                  λ taken. (success tt, unbind_device taken m)))
      guarded (failure code message) live = refl
      guarded (success _) false = refl
      guarded (success _) true =
          let kept = save-binding m _ in
          (ap (λ d. d.device_id) kept.0, refl, (refl, omega arith), kept.1)
