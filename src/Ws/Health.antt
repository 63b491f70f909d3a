-- ===== src/Ws/Health.antt =====
-- The connection's health counters: `WsHealth` of health.rs.
--
-- `now` is what an operation reads from the clock. The counters are 64 bits wide.
use synth_hires_bridge.Prelude.{ℕ, ◌+◌, ◌-◌, ◌%◌, String, Bool, true, false, if◌then◌else◌}

pub record WsHealth : Type 0 where
  pub connected : Bool
  pub last_connected_at : ℕ
  pub last_disconnected_at : ℕ
  pub last_heartbeat_ack_at : ℕ
  pub last_rtt_ms : ℕ
  pub reconnects : ℕ
  pub heartbeat_acks : ℕ
  pub stale_heartbeats : ℕ
  pub last_error : String

unfoldable pub new : WsHealth
new = record {
  connected = false;
  last_connected_at = 0;
  last_disconnected_at = 0;
  last_heartbeat_ack_at = 0;
  last_rtt_ms = 0;
  reconnects = 0;
  heartbeat_acks = 0;
  stale_heartbeats = 0;
  last_error = "";
}

-- `fetch_add(1)`
unfoldable pub increment : ℕ → ℕ
increment n = (n + 1) % 18446744073709551616

unfoldable pub mark_connected : WsHealth → ℕ → WsHealth
mark_connected h now = record h { connected = true; last_connected_at = now }

unfoldable pub mark_disconnected : WsHealth → ℕ → WsHealth
mark_disconnected h now =
    if h.connected
    then record h {
      connected = false;
      last_disconnected_at = now;
      reconnects = increment h.reconnects;
    }
    else h

unfoldable pub mark_heartbeat_ack : WsHealth → ℕ → ℕ → WsHealth
mark_heartbeat_ack h now sent_at_ms = record h {
  heartbeat_acks = increment h.heartbeat_acks;
  last_heartbeat_ack_at = now;
  last_rtt_ms = now - sent_at_ms;
}

unfoldable pub mark_heartbeat_stale : WsHealth → WsHealth
mark_heartbeat_stale h = record h { stale_heartbeats = increment h.stale_heartbeats }

unfoldable pub set_error : WsHealth → String → WsHealth
set_error h message = record h { last_error = message }
