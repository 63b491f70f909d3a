-- ===== src/Pairing/Tests.antt =====
-- Pairing against concrete addresses.
use synth_hires_bridge.Prelude.{ℕ, String, true, none, some, List, [], ◌≡◌, ◌↔◌, ◌⊎◌, refl}
use synth_hires_bridge.Prelude.Text.{
  codes, bytes_eq, has_prefix, split, onto_first, trim, trim_start, is_whitespace, between,
  to_lower,
}
use synth_hires_bridge.Errors.{DaemonError, Result, ok, err, protocol}
use synth_hires_bridge.Pairing.{
  UrlError, accepted, check_scheme, validate_backend_url, is_one_of, is_loopback, host_of,
  authority_of, first_piece, bad_character, is_control, split_once, before_all,
}
use synth_hires_bridge.Pairing.Safe.{SafeAddress, validate_backend_url_iff}
use synth_hires_bridge.Pairing.Complete.{
  Keyring, Outbox, PairCompleteRequest, PairCompleteResponse, Keeps, Unsent, complete,
  complete-guarded,
}

abbrev site : List ℕ
site = codes "http://localhost:4321"

site-accepted : validate_backend_url site ≡ accepted
unfolding validate_backend_url check_scheme is_one_of is_loopback host_of authority_of first_piece
    bad_character is_control split_once before_all bytes_eq has_prefix split onto_first trim
    trim_start is_whitespace between to_lower
site-accepted = refl

-- A port that is no number is accepted.
odd_port : validate_backend_url (codes "http://localhost:port") ≡ accepted
unfolding validate_backend_url check_scheme is_one_of is_loopback host_of authority_of first_piece
    bad_character is_control split_once before_all bytes_eq has_prefix split onto_first trim
    trim_start is_whitespace between to_lower
odd_port = refl

validate_backend_url_iff_example :
    (validate_backend_url site ≡ accepted)
    ↔ ((scheme : List ℕ) × (authority : List ℕ) × SafeAddress (trim site) scheme authority)
validate_backend_url_iff_example = validate_backend_url_iff site

bracketed : check_scheme (codes "https://[::1]") (some (codes "https", codes "[::1]")) ≡ accepted
unfolding check_scheme is_one_of is_loopback host_of authority_of first_piece bad_character
    is_control bytes_eq split onto_first between
bracketed = refl

abbrev locked : Keyring
locked = record {
  entry_error = some "no Secret Service";
  set_error = none;
  reads_back = ok "probe";
  deletes = true;
}

abbrev request : PairCompleteRequest
request = record {
  code = "314159";
  pairing_id = none;
  device_kind = "desktop";
  device_name = "ana";
  fingerprint = "f";
  desired_scopes = [];
}

abbrev silent : List ℕ → PairCompleteRequest → Result PairCompleteResponse
silent url sent = err (protocol "pair/complete http: timed out")

abbrev explain : UrlError → String
explain e = "refused"

abbrev nothing : Outbox
nothing = record { posted = []; tokens = []; probe_account = none }

complete-guarded_example :
    ((validate_backend_url site ≡ accepted) × Keeps explain locked "probe")
    ⊎ (((e : DaemonError) × ((complete explain locked "probe" silent site request nothing).0
            ≡ err e))
        × Unsent explain locked "probe" nothing
            (complete explain locked "probe" silent site request nothing).1)
complete-guarded_example = complete-guarded explain locked "probe" silent site request nothing
