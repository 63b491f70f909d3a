-- ===== src/Server/Tests.antt =====
-- The local server, for concrete requests.
use synth_hires_bridge.Prelude.{ℕ, true, false, none, some, List, [], ◌∷◌, ◌≡◌, ◌⊎◌, ◌↔◌, refl, ◌≤◌}
use synth_hires_bridge.Prelude.Text.{
  codes, bytes_eq, has_prefix, split, onto_first, trim, trim_start, is_whitespace, between,
  to_lower,
}
use synth_hires_bridge.Pairing.{
  accepted, validate_backend_url, check_scheme, is_one_of, is_loopback, host_of, authority_of,
  first_piece, bad_character, is_control, split_once, before_all, trim_end_matches, drop_while_eq,
}
use synth_hires_bridge.Server.{
  HeaderMap, ServerState, Machine, PairRequest, success, check_local, check_origin, check_host,
  is_expected_host, is_allowed_origin, valid_id, port_after, pair, unpair, shutdown, serve,
}
use synth_hires_bridge.Server.Access.{LocalOrigin, is_allowed_origin_iff}
use synth_hires_bridge.Server.Handlers.{Authorised, serve-Authorised}
use synth_hires_bridge.Server.Replay.{Call, successes, successes-le}
use synth_hires_bridge.Server.Spec.{Step, session, serve-Step}

-- Prints the port of these requests.
abbrev decimal : ℕ → List ℕ
decimal n = codes "7333"

abbrev headers : HeaderMap
headers = record {
  origin = some (codes "https://synthhires.com");
  host = some (codes "127.0.0.1:7333");
}

abbrev machine : Machine
machine = record {
  now = 60000;
  unix_secs = 60;
  fresh = "n2";
  keyring_fails = false;
  save_fails = false;
}

abbrev unpaired : ServerState
unpaired = record {
  daemon_state = record {
    device_id = none;
    scopes = record { capabilities = []; always_allow_paths = [] };
    backend_url = none;
  };
  saved = record {
    device_id = none;
    scopes = record { capabilities = []; always_allow_paths = [] };
    backend_url = none;
  };
  local_port = 7333;
  pairing_nonce = some ("n1", 0);
  last_poll = 0;
  ws_client = none;
  status = [];
  tokens = [];
  exiting = false;
}

abbrev payload : PairRequest
payload = record {
  token = "t";
  backend_url = codes "https://synthhires.com";
  nonce = "n1";
  device_id = some "laptop";
}

local : check_local decimal headers 7333 ≡ success tt
unfolding check_local check_origin check_host is_expected_host is_allowed_origin bytes_eq has_prefix
    port_after trim_end_matches drop_while_eq to_lower
local = refl

safe : validate_backend_url payload.backend_url ≡ accepted
unfolding validate_backend_url check_scheme is_one_of is_loopback host_of authority_of first_piece
    bad_character is_control split_once before_all bytes_eq has_prefix split onto_first trim
    trim_start is_whitespace between to_lower
safe = refl

named : valid_id (some "laptop") ≡ some "laptop"
unfolding valid_id trim trim_start is_whitespace between bytes_eq
named = refl

serve-Authorised_example :
    ((serve decimal unpaired machine headers (shutdown "n1")).0 ≡ true
      → Authorised decimal unpaired machine headers "n1")
    × ((serve decimal unpaired machine headers (shutdown "n1")).1 ≡ unpaired
        ⊎ Authorised decimal unpaired machine headers "n1")
serve-Authorised_example =
    serve-Authorised decimal unpaired machine headers (shutdown "n1") "n1" refl

abbrev replayed : List Call
replayed =
    record { machine = machine; headers = headers; request = unpair "n1" }
    ∷ record { machine = machine; headers = headers; request = pair payload }
    ∷ record { machine = machine; headers = headers; request = shutdown "n1" }
    ∷ []

successes-le_example : successes decimal "n1" unpaired replayed ≤ 1
successes-le_example = successes-le decimal "n1" unpaired replayed (refl, (refl, (refl, tt)))

serve-Step_example :
    Step
      (some "n1")
      "n2"
      (session unpaired)
      (session (serve decimal unpaired machine headers (pair payload)).1)
serve-Step_example = serve-Step decimal unpaired machine headers (pair payload)

is_allowed_origin_iff_example : (is_allowed_origin (codes "http://localhost:5173") ≡ true) ↔ (
    (codes "http://localhost:5173" ≡ codes "https://synthhires.com")
    ⊎ (LocalOrigin (codes "http://localhost:") (codes "http://localhost:5173")
        ⊎ LocalOrigin (codes "http://127.0.0.1:") (codes "http://localhost:5173")))
is_allowed_origin_iff_example = is_allowed_origin_iff (codes "http://localhost:5173")
