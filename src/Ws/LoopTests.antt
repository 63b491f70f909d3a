-- ===== src/Ws/LoopTests.antt =====
-- The event loop and the reconnects on a concrete connection, and the audit log on concrete values.
use synth_hires_bridge.Prelude.{
  ℕ, ◌+◌, ◌≤◌, String, true, ◌≡◌, refl, inl, inr, Option, none, some, List, [], ◌∷◌, arith, All,
}
use synth_hires_bridge.Prelude.Text.{bytes_eq, has_prefix, to_lower}
use synth_hires_bridge.Consent
use synth_hires_bridge.Tasks.{no_tasks}
use synth_hires_bridge.Protocol.{Json, str, obj, field, end, ActionRequestFrame}
use synth_hires_bridge.Errors.{ws, Done, ok, err}
use synth_hires_bridge.Ws.Base.{Client, send}
use synth_hires_bridge.Ws.Action.{Dispatch, sweep_expired_parked, expired_ids, drop_all}
use synth_hires_bridge.Ws.Health
use synth_hires_bridge.Ws.Connection.{
  Connection, tick, step, watchdog, on_tick, judge, send_heartbeat, after_beat, missed, one_more,
  zombie_decision, is_burst,
}
use synth_hires_bridge.Ws.Watchdog.{Reached, start, go, watchdog-patience}
use synth_hires_bridge.Ws.Silence.{ticks, Stops, silence-is-noticed}
use synth_hires_bridge.Ws.Reconnect.{fatal, Lost}
use synth_hires_bridge.Ws.Redact.{redact, normal_key, is_sensitive, key_matches, ends_with}
use synth_hires_bridge.Ws.Secrets.{Agree, IsClean, redact_hides}

abbrev client : Client
client = record {
  gate = record {
    snapshot = record { capabilities = []; always_allow_paths = []; one_shot_paths = [] };
  };
  consent = Consent.new;
  parked = [];
  shared = no_tasks;
  audit_log = [];
  open_socket = true;
  sent = [];
}

abbrev fresh : Connection
fresh = record {
  client = client;
  health = Health.new;
  expected_heartbeat = none;
  consecutive_misses = 0;
}

abbrev parse_uuid : String → Option ℕ
parse_uuid s = none

abbrev done : Dispatch
done c now request decision = (ok tt, c)

abbrev push_done : Client → ℕ → ActionRequestFrame → Done × Client
push_done c now request = (ok tt, c)

-- The connection after two ticks, one interval of 100 ms apart, with no ack.
abbrev beaten : Connection
beaten = (step parse_uuid done push_done 100 fresh 1000 tick).1

abbrev silent : Connection
silent = (step parse_uuid done push_done 100 beaten 1100 tick).1

first_tick : step parse_uuid done push_done 100 fresh 1000 tick ≡ (none, beaten)
unfolding step on_tick judge send_heartbeat after_beat missed one_more zombie_decision is_burst send
    sweep_expired_parked expired_ids drop_all
first_tick = refl

second_tick : step parse_uuid done push_done 100 beaten 1100 tick ≡ (none, silent)
unfolding step on_tick judge send_heartbeat after_beat missed one_more zombie_decision is_burst send
    sweep_expired_parked expired_ids drop_all
second_tick = refl

silent-Reached : Reached 100 parse_uuid done push_done silent 900 1100
silent-Reached =
    go 1100 tick (go 1000 tick (start {s = fresh} {now = 900} refl refl) (omega arith) first_tick)
      (omega arith) second_tick

given_up : (step parse_uuid done push_done 100 silent 1200 tick).0 ≡ some (err watchdog)
unfolding step on_tick judge send_heartbeat after_beat missed one_more zombie_decision is_burst send
    sweep_expired_parked expired_ids drop_all
given_up = refl

watchdog-patience_example : (900 + (100 + 100)) ≤ 1200
watchdog-patience_example =
    watchdog-patience 100 parse_uuid done push_done silent 900 1100 1200 silent-Reached
      (omega arith) given_up

nothing_pending : (t : ℕ) → fresh.expected_heartbeat ≡ some t → t ≤ 1000
nothing_pending t h = cc

silence-is-noticed_example : Stops 100 (ticks 100 (1000 ∷ 1100 ∷ 1250 ∷ []) fresh)
silence-is-noticed_example =
    silence-is-noticed 100 fresh 1000 1100 1250 nothing_pending (omega arith) (omega arith)

abbrev drops : List (ℕ × Done)
drops = (10, err (ws "recv: reset")) ∷ (20, err (ws "recv: reset")) ∷ []

drops-Lost : All Lost drops
unfolding fatal
drops-Lost = (refl, (refl, tt))

abbrev login : String → Json
login secret = obj (field "user" (str "ana") (field "password" (str secret) end))

password_hidden : is_sensitive "password" ≡ true
unfolding is_sensitive key_matches ends_with normal_key bytes_eq has_prefix to_lower
password_hidden = refl

logins-Agree : Agree (login "a") (login "b")
logins-Agree = (refl, inr refl, (refl, inl password_hidden, tt))

redact_hides_example : (redact (login "a") ≡ redact (login "b")) × IsClean (redact (login "a"))
redact_hides_example = redact_hides (login "a") (login "b") logins-Agree
