-- ===== src/Server/Spec.antt =====
-- What the local server of server.rs promises, without headers, clocks, keyrings and files: a session
-- with one secret, and the handlers as steps of it.
use synth_hires_bridge.Prelude.{
  ℕ, String, Bool, true, false, not, Option, none, some, List, ◌≡◌, ◌≢◌, refl, sym, ap, subst,
  arith, eq_iff, if◌then◌else◌, true≢false,
}
use synth_hires_bridge.Prelude.Map.{insert}
use synth_hires_bridge.Pairing.{UrlCheck, accepted, rejected, validate_backend_url}
use synth_hires_bridge.Server.{
  HeaderMap, ServerState, Machine, Reply, success, failure, forbidden, conflict,
  internal_server_error, PairRequest, check_local, is_live, take_nonce, current_nonce, keep_or_set,
  mint_nonce, is_some, save, valid_id, bind_device, forget_token, pair_id, pair_backend,
  unbind_device, handle_status, handle_pair, handle_unpair, handle_shutdown, passing, passing_on,
  Request, status, pair, unpair, shutdown, serve,
}
use synth_hires_bridge.Server.Handlers.{presented}
use synth_hires_bridge.Server.Binding.{is_some-false}

-- The secret that opens one request, the device that is bound, and whether the daemon stops.
pub record Session : Type 0 where
  pub secret : Option String
  pub device : Option String
  pub stopping : Bool

-- The steps of a session, by the secret that is presented and the fresh one that may be drawn.
pub data Step (shown : Option String) (fresh : String) : Session → Session → Type 0 where
  -- Nothing happens.
  idle : {s : Session} → Step shown fresh s s
  -- A secret is drawn.
  draw : {s : Session} → Step shown fresh s (record s { secret = some fresh })
  -- The secret is shown and used up, for nothing.
  waste :
      {s : Session}
      → s.secret ≡ shown
      → shown ≢ none
      → Step shown fresh s (record s { secret = none })
  -- It is used up to bind a device, where none is bound.
  bind :
      {s : Session} (id : String)
      → s.secret ≡ shown
      → shown ≢ none
      → s.device ≡ none
      → Step shown fresh s (record s { secret = none; device = some id })
  -- It is used up to free the device, and another is drawn.
  free :
      {s : Session}
      → s.secret ≡ shown
      → shown ≢ none
      → Step shown fresh s (record s { secret = some fresh; device = none })
  -- It is used up to stop the daemon.
  stop :
      {s : Session}
      → s.secret ≡ shown
      → shown ≢ none
      → Step shown fresh s (record s { secret = none; stopping = true })

unfoldable pub secret_of : Option (String × ℕ) → Option String
secret_of none = none
secret_of (some (v, at)) = some v

-- The session that a state of the server stands for.
unfoldable pub session : ServerState → Session
unfolding secret_of
session s = record {
  secret = secret_of s.pairing_nonce;
  device = s.daemon_state.device_id;
  stopping = s.exiting;
}

live-secret_of :
    (o : Option (String × ℕ)) (now : ℕ) (n : String) → is_live o now n ≡ true → secret_of o ≡ some n
unfolding is_live secret_of
live-secret_of none now n h = absurd (true≢false (sym h))
live-secret_of (some (v, at)) now n h = ap some ((eq_iff v n).0 (ground arith))

some≢none : {A : Type 0} {a : A} → some a ≢ none
some≢none e = cc

module _ (fresh : String) where
  passing-Step :
      {A : Type 0} (shown : Option String) (s : ServerState) (guard : Reply (Unit {0}))
      (next : Reply A × ServerState)
      → Step shown fresh (session s) (session next.1)
      → Step shown fresh (session s) (session (passing guard s next).1)
  passing-Step shown s (failure code message) next h = idle
  passing-Step shown s (success _) next h = h

  taken-Step :
      {A : Type 0} (s : ServerState) (now : ℕ) (n : String)
      (next : ServerState → Reply A × ServerState)
      → (secret_of s.pairing_nonce ≡ some n
          → Step (some n) fresh (session s) (session (next (record s { pairing_nonce = none })).1))
      → Step (some n) fresh (session s) (session (passing_on (take_nonce s now n) next).1)
  unfolding take_nonce
  taken-Step s now n next h = taken (is_live s.pairing_nonce now n) refl
    where
      taken :
          (live : Bool)
          → is_live s.pairing_nonce now n ≡ live
          → Step (some n) fresh (session s) (
              session
                (passing_on
                  (if not live
                    then (failure forbidden "Invalid nonce", s)
                    else (success tt, record s { pairing_nonce = none }))
                  next).1)
      taken false e = idle
      taken true e = h (live-secret_of s.pairing_nonce now n e)

session-save : (m : Machine) (s : ServerState) → session (save m s) ≡ session s
unfolding save session
session-save m s = either m.save_fails
  where
    either :
        (fails : Bool)
        → session (if fails then s else record s { saved = s.daemon_state }) ≡ session s
    either true = refl
    either false = refl

module _ (s : ServerState) (m : Machine) (n : String)
    (shown : secret_of s.pairing_nonce ≡ some n) where
  abbrev spent : ServerState
  spent = record s { pairing_nonce = none }

  keyring-Step :
      (payload : PairRequest) (id : String) (fails : Bool)
      → s.daemon_state.device_id ≡ none
      → Step (some n) m.fresh (session s) (
          session
            (if◌then◌else◌ {A = Reply (Unit {0}) × ServerState} fails
              (failure internal_server_error "Failed to save token to keyring", spent)
              (success tt, bind_device spent m payload id)).1)
  unfolding bind_device session
  keyring-Step payload id true free_device = waste shown some≢none
  keyring-Step payload id false free_device =
      subst (λ x. Step (some n) m.fresh (session s) x)
        (sym (
          session-save m (record spent {
            tokens = insert id payload.token s.tokens;
            daemon_state = record s.daemon_state {
              device_id = some id;
              backend_url = some payload.backend_url;
            };
          })))
        (bind id shown some≢none free_device)

  pair_id-Step :
      (payload : PairRequest) (o : Option String)
      → s.daemon_state.device_id ≡ none
      → Step (some n) m.fresh (session s) (session (pair_id spent m payload o).1)
  unfolding pair_id session
  pair_id-Step payload none free_device = waste shown some≢none
  pair_id-Step payload (some id) free_device = keyring-Step payload id m.keyring_fails free_device

  pair_backend-Step :
      (payload : PairRequest) (c : UrlCheck)
      → s.daemon_state.device_id ≡ none
      → Step (some n) m.fresh (session s) (session (pair_backend spent m payload c).1)
  unfolding pair_backend session
  pair_backend-Step payload (rejected e) free_device = waste shown some≢none
  pair_backend-Step payload accepted free_device =
      pair_id-Step payload (valid_id payload.device_id) free_device

  unbind_device-Step : Step (some n) m.fresh (session s) (session (unbind_device spent m))
  unfolding unbind_device session
  unbind_device-Step =
      subst (λ x. Step (some n) m.fresh (session s) (record x { secret = some m.fresh }))
        (sym (
          session-save m (record spent {
            tokens = forget_token m s.daemon_state.device_id s.tokens;
            daemon_state = record s.daemon_state { device_id = none; backend_url = none };
          })))
        (free shown some≢none)

keep_or_set-Step :
    (s : ServerState) (m : Machine) (o : Option String)
    → Step none m.fresh (session s) (session (keep_or_set s m o).1)
unfolding keep_or_set session
keep_or_set-Step s m none = draw
keep_or_set-Step s m (some v) = idle

module _ (decimal : ℕ → List ℕ) (s : ServerState) (m : Machine) (headers : HeaderMap) where
  unpaired-Step :
      (payload : PairRequest) (paired : Bool)
      → is_some s.daemon_state.device_id ≡ paired
      → Step (some payload.nonce) m.fresh (session s) (
          session
            (if◌then◌else◌ {A = Reply (Unit {0}) × ServerState} paired
              (failure conflict "Already paired", s)
              (passing_on (take_nonce s m.now payload.nonce) λ taken.
                pair_backend taken m payload (validate_backend_url payload.backend_url))).1)
  unpaired-Step payload true e = idle
  unpaired-Step payload false e = taken-Step m.fresh s m.now payload.nonce _ (λ shown.
      pair_backend-Step s m payload.nonce shown payload (validate_backend_url payload.backend_url)
        (is_some-false s.daemon_state.device_id e))

  -- Refinement: whatever a caller sends and the machine answers, what the server does to its state
  -- is a step of the session, of the secret that the request presents. So a device is bound only
  -- where none was, and binding, freeing and stopping each use up the secret that was shown.
  pub serve-Step :
      (r : Request)
      → Step (presented r) m.fresh (session s) (session (serve decimal s m headers r).1)
  unfolding serve handle_status mint_nonce handle_pair handle_unpair handle_shutdown session
  serve-Step status = passing-Step m.fresh none s (check_local decimal headers s.local_port) _ (
      keep_or_set-Step (record s { last_poll = m.unix_secs }) m
        (current_nonce s.pairing_nonce m.now))
  serve-Step (pair payload) =
      passing-Step m.fresh (some payload.nonce) s (check_local decimal headers s.local_port) _
        (unpaired-Step payload (is_some s.daemon_state.device_id) refl)
  serve-Step (unpair n) =
      passing-Step m.fresh (some n) s (check_local decimal headers s.local_port) _
        (taken-Step m.fresh s m.now n _ (λ shown. unbind_device-Step s m n shown))
  serve-Step (shutdown n) =
      passing-Step m.fresh (some n) s (check_local decimal headers s.local_port) _
        (taken-Step m.fresh s m.now n _ (λ shown. stop shown some≢none))
