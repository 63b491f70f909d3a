-- ===== src/Server.antt =====
-- The local HTTP server: apps/desktop-daemon/crates/daemon-cli/src/server.rs.
--
-- The locks and atomics of `ServerState` are passed along as one state: each is taken and left within
-- a handler. A header is its text, none where it is missing or not text. Time is in milliseconds.
-- `fresh` is the identifier that `Uuid::new_v4` would give. The keyring holds a token under a device
-- id; its saves and deletions may fail, and `save` of state.json, whose failure is ignored, may too.
-- The running client is its backend address; the exit that a shutdown schedules is a flag.
pub mod Access
pub mod Nonce
pub mod Handlers
pub mod Replay
pub mod Binding
pub mod Handshake
pub mod Spec
mod Tests
use synth_hires_bridge.Prelude.{
  ℕ, suc, ◌-◌, String, Bool, true, false, not, ◌&&◌, ◌||◌, Option, none, some, List, [], ◌∷◌, ◌++◌,
  all, drop, length, if◌then◌else◌, leb, str_eq, unwrap_or,
}
use synth_hires_bridge.Prelude.Map.{Map, insert, without}
use synth_hires_bridge.Prelude.Text.{between, codes, bytes_eq, has_prefix, to_ascii_lowercase, trim}
use synth_hires_bridge.Capability.{Scopes}
use synth_hires_bridge.Pairing.{
  UrlCheck, accepted, rejected, trim_end_matches, validate_backend_url,
}

pub record HeaderMap : Type 0 where
  pub origin : Option (List ℕ)
  pub host : Option (List ℕ)

pub record DaemonState : Type 0 where
  pub device_id : Option String
  pub scopes : Scopes
  pub backend_url : Option (List ℕ)

pub record ServerState : Type 0 where
  pub daemon_state : DaemonState
  pub saved : DaemonState
  pub local_port : ℕ
  pub pairing_nonce : Option (String × ℕ)
  pub last_poll : ℕ
  pub ws_client : Option (List ℕ)
  pub status : List String
  pub tokens : Map String
  pub exiting : Bool

pub data StatusCode : Type 0 where
  forbidden conflict bad_request internal_server_error : StatusCode

-- A handler's `Result`.
pub data Reply {ℓ} (A : Type ℓ) : Type ℓ where
  success : A → Reply A
  failure : StatusCode → String → Reply A

-- What the machine answers: the clock, a fresh identifier, and which operations fail.
pub record Machine : Type 0 where
  pub now : ℕ
  pub unix_secs : ℕ
  pub fresh : String
  pub keyring_fails : Bool
  pub save_fails : Bool

pub record StatusResponse : Type 0 where
  pub paired : Bool
  pub nonce : Option String
  pub device_id : Option String

pub record PairRequest : Type 0 where
  pub token : String
  pub backend_url : List ℕ
  pub nonce : String
  pub device_id : Option String

abbrev pub nonce_ttl : ℕ
nonce_ttl = 120000

unfoldable pub is_ascii_digit : ℕ → Bool
is_ascii_digit c = between b'0' b'9' c

-- What is behind the prefix is all digits.
unfoldable pub port_after : List ℕ → List ℕ → Bool
unfolding is_ascii_digit
port_after prefix origin = all is_ascii_digit (drop (length prefix) origin)

unfoldable pub is_allowed_origin : List ℕ → Bool
unfolding port_after
is_allowed_origin origin =
    if bytes_eq origin (codes "https://synthhires.com")
    then true
    else if has_prefix (codes "http://localhost:") origin
    then port_after (codes "http://localhost:") origin
    else if has_prefix (codes "http://127.0.0.1:") origin
    then port_after (codes "http://127.0.0.1:") origin
    else false

unfoldable pub check_origin : HeaderMap → Reply (Unit {0})
check_origin headers =
    if not (is_allowed_origin (unwrap_or headers.origin []))
    then failure forbidden "Invalid Origin"
    else success tt

-- `decimal` prints a number.
module _ (decimal : ℕ → List ℕ) where
  unfoldable pub is_expected_host : ℕ → List ℕ → Bool
  is_expected_host port host =
      let name = to_ascii_lowercase (trim_end_matches b'.' host) in
      bytes_eq name (codes "127.0.0.1:" ++ decimal port)
      || bytes_eq name (codes "localhost:" ++ decimal port)

  unfoldable pub check_host : HeaderMap → ℕ → Reply (Unit {0})
  check_host headers port =
      if is_expected_host port (unwrap_or headers.host [])
      then success tt
      else failure forbidden "Invalid Host"

  -- `check_origin(headers)?; check_host(headers, port)?`
  unfoldable pub check_local : HeaderMap → ℕ → Reply (Unit {0})
  check_local headers port = elim (check_origin headers) [
    | failure code message ↦ failure code message
    | success _ ↦ check_host headers port
  ]

-- `val == presented` and not older than the limit
unfoldable pub is_live : Option (String × ℕ) → ℕ → String → Bool
is_live none now presented = false
is_live (some (val, created_at)) now presented =
    str_eq val presented && leb (now - created_at) nonce_ttl

unfoldable pub take_nonce : ServerState → ℕ → String → Reply (Unit {0}) × ServerState
take_nonce s now presented =
    if not (is_live s.pairing_nonce now presented)
    then (failure forbidden "Invalid nonce", s)
    else (success tt, record s { pairing_nonce = none })

unfoldable pub current_nonce : Option (String × ℕ) → ℕ → Option String
current_nonce none now = none
current_nonce (some (val, created_at)) now =
    if leb (now - created_at) nonce_ttl then some val else none

unfoldable pub keep_or_set : ServerState → Machine → Option String → String × ServerState
keep_or_set s m (some val) = (val, s)
keep_or_set s m none = (m.fresh, record s { pairing_nonce = some (m.fresh, m.now) })

unfoldable pub mint_nonce : ServerState → Machine → String × ServerState
unfolding keep_or_set current_nonce
mint_nonce s m = keep_or_set s m (current_nonce s.pairing_nonce m.now)

unfoldable pub is_some : Option String → Bool
is_some none = false
is_some (some v) = true

-- `let _ = s.save(...)`
unfoldable pub save : Machine → ServerState → ServerState
save m s = if m.save_fails then s else record s { saved = s.daemon_state }

-- The part of `start_http_server` before it listens.
unfoldable pub start_nonce : ServerState → Machine → ServerState
unfolding is_some
start_nonce s m =
    if is_some s.daemon_state.device_id
    then s
    else record s { pairing_nonce = some (m.fresh, m.now) }

-- `?` on a reply.
abbrev pub passing {ℓ} :
    {A : Type ℓ} → Reply (Unit {0}) → ServerState → Reply A × ServerState → Reply A × ServerState
passing (success _) s next = next
passing (failure code message) s next = (failure code message, s)

-- `?` on a step that changes the state.
abbrev pub passing_on {ℓ} :
    {A : Type ℓ}
    → Reply (Unit {0}) × ServerState
    → (ServerState → Reply A × ServerState)
    → Reply A × ServerState
passing_on (success _, s) next = next s
passing_on (failure code message, s) next = (failure code message, s)

-- A device id that is there and not blank.
unfoldable pub valid_id : Option String → Option String
valid_id none = none
valid_id (some id) = if bytes_eq (trim (codes id)) [] then none else some id

-- The old client is stopped and a new one started on the backend.
unfoldable pub bind_device : ServerState → Machine → PairRequest → String → ServerState
unfolding save
bind_device s m payload id =
    let bound = record s {
      tokens = insert id payload.token s.tokens;
      daemon_state = record s.daemon_state {
        device_id = some id;
        backend_url = some payload.backend_url;
      };
    } in
    let kept = save m bound in
    record kept {
      ws_client = some payload.backend_url;
      status = kept.status ++ "Conectando al servidor..." ∷ [];
    }

unfoldable pub pair_id :
    ServerState → Machine → PairRequest → Option String → Reply (Unit {0}) × ServerState
pair_id s m payload none = (failure bad_request "Missing device_id", s)
pair_id s m payload (some id) =
    if m.keyring_fails
    then (failure internal_server_error "Failed to save token to keyring", s)
    else (success tt, bind_device s m payload id)

unfoldable pub pair_backend :
    ServerState → Machine → PairRequest → UrlCheck → Reply (Unit {0}) × ServerState
unfolding pair_id valid_id
pair_backend s m payload (rejected e) = (failure bad_request "Invalid backend_url", s)
pair_backend s m payload accepted = pair_id s m payload (valid_id payload.device_id)

-- `TokenStore::delete`, whose failure is ignored
unfoldable pub forget_token : Machine → Option String → Map String → Map String
forget_token m none tokens = tokens
forget_token m (some id) tokens = if m.keyring_fails then tokens else without id tokens

unfoldable pub unbind_device : ServerState → Machine → ServerState
unfolding forget_token save
unbind_device s m =
    let unbound = record s {
      tokens = forget_token m s.daemon_state.device_id s.tokens;
      daemon_state = record s.daemon_state { device_id = none; backend_url = none };
    } in
    let kept = save m unbound in
    record kept {
      ws_client = none;
      pairing_nonce = some (m.fresh, m.now);
      status = kept.status ++ "Esperando emparejamiento..." ∷ [];
    }

module _ (decimal : ℕ → List ℕ) where
  unfoldable pub handle_status :
      ServerState → Machine → HeaderMap → Reply StatusResponse × ServerState
  unfolding is_some
  handle_status s m headers = passing (check_local decimal headers s.local_port) s (
      let polled = record s { last_poll = m.unix_secs } in
      let minted = mint_nonce polled m in
      (
        success (record {
          paired = is_some s.daemon_state.device_id;
          nonce = some minted.0;
          device_id = s.daemon_state.device_id;
        }),
        minted.1,
      ))

  unfoldable pub handle_shutdown :
      ServerState → Machine → HeaderMap → String → Reply (Unit {0}) × ServerState
  handle_shutdown s m headers nonce =
      passing (check_local decimal headers s.local_port) s (
        passing_on (take_nonce s m.now nonce)
          λ taken. (success tt, record taken { exiting = true }))

  unfoldable pub handle_pair :
      ServerState → Machine → HeaderMap → PairRequest → Reply (Unit {0}) × ServerState
  unfolding is_some pair_backend
  handle_pair s m headers payload = passing (check_local decimal headers s.local_port) s (
      if is_some s.daemon_state.device_id
      then (failure conflict "Already paired", s)
      else passing_on (take_nonce s m.now payload.nonce)
          λ taken. pair_backend taken m payload (validate_backend_url payload.backend_url))

  unfoldable pub handle_unpair :
      ServerState → Machine → HeaderMap → String → Reply (Unit {0}) × ServerState
  unfolding unbind_device
  handle_unpair s m headers nonce =
      passing (check_local decimal headers s.local_port) s
        (passing_on (take_nonce s m.now nonce) λ taken. (success tt, unbind_device taken m))

-- The routes, with the request's body.
pub data Request : Type 0 where
  status : Request
  pair : PairRequest → Request
  unpair shutdown : String → Request

abbrev pub is_success : {A : Type 0} → Reply A → Bool
is_success (success a) = true
is_success (failure code message) = false

module _ (decimal : ℕ → List ℕ) where
  -- The router: whether the request succeeded, and the state behind it.
  unfoldable pub serve : ServerState → Machine → HeaderMap → Request → Bool × ServerState
  serve s m headers status =
      let served = handle_status decimal s m headers in (is_success served.0, served.1)
  serve s m headers (pair payload) =
      let served = handle_pair decimal s m headers payload in (is_success served.0, served.1)
  serve s m headers (unpair nonce) =
      let served = handle_unpair decimal s m headers nonce in (is_success served.0, served.1)
  serve s m headers (shutdown nonce) =
      let served = handle_shutdown decimal s m headers nonce in (is_success served.0, served.1)
