-- ===== src/Ws/Connection.antt =====
-- The event loop of `connect_once` in ws_client.rs, once the hello is done: frames, the owner's
-- decisions, and the heartbeat with its zombie watchdog.
--
-- One step takes one input of the loop's `select!`; `now` is what the step reads from the clock, and
-- `interval` the heartbeat cadence that the server dictated. A step gives the value that
-- `connect_once` returns, or none while the loop goes on. The text of a failed send is left out of its
-- error.
use synth_hires_bridge.Prelude.{
  ℕ, ◌+◌, ◌-◌, min, String, Bool, true, false, ◌&&◌, Option, none, some, if◌then◌else◌, ltb, leb,
}
use Prim.Native.String.{◌++◌ as ◌+++◌}
use synth_hires_bridge.Consent.{ConsentAnswer}
use synth_hires_bridge.Protocol.{ActionRequestFrame, BridgeFrame, heartbeat, heartbeat_ack}
use synth_hires_bridge.Errors.{DaemonError, ws, json, Done, ok, err}
use synth_hires_bridge.Ws.Base.{Client, send}
use synth_hires_bridge.Ws.Action.{Dispatch, handle_frame, resume, sweep_expired_parked}
use synth_hires_bridge.Ws.Health.{WsHealth, mark_heartbeat_ack, mark_heartbeat_stale}

pub record Connection : Type 0 where
  pub client : Client
  pub health : WsHealth
  pub expected_heartbeat : Option ℕ
  pub consecutive_misses : ℕ

-- What the loop can be woken by: a readable text, an unreadable one, a failed receive, a close
-- frame, another message, an owner's decision, or the heartbeat timer.
pub data Input : Type 0 where
  text : BridgeFrame → Input
  bad_text recv_error : String → Input
  close other_message tick : Input
  decision : String × ConsentAnswer → Input

pub record ZombieDecision : Type 0 where
  pub connected : Bool
  pub consecutive_misses : ℕ
  pub kill : Bool

unfoldable pub zombie_decision : Bool → ℕ → ZombieDecision
zombie_decision connected consecutive_misses = record {
  connected = connected;
  consecutive_misses = consecutive_misses;
  kill = connected && leb 2 consecutive_misses;
}

-- `saturating_add(1)` on 32 bits.
unfoldable pub one_more : ℕ → ℕ
one_more misses = min (misses + 1) 4294967295

abbrev pub watchdog : DaemonError
watchdog = ws "heartbeat watchdog: no ack from server"

-- The pending beat is so fresh that this tick is a catch-up.
unfoldable pub is_burst : ℕ → ℕ → Option ℕ → Bool
is_burst interval now none = false
is_burst interval now (some t) = ltb (now - t) interval

-- What the heartbeat's `send(…).await?` leaves of the loop.
unfoldable pub after_beat : Connection → ℕ → Done × Client → Option Done × Connection
after_beat s now (ok _, client) =
    (none, record s { client = client; expected_heartbeat = some now })
after_beat s now (err e, client) =
    (some (err (ws "send heartbeat")), record s { client = client; expected_heartbeat = none })

unfoldable pub send_heartbeat : Connection → ℕ → Option Done × Connection
unfolding after_beat
send_heartbeat s now = after_beat s now (send s.client (heartbeat now))

-- The aged beat counts as a miss.
unfoldable pub missed : Connection → Connection
missed s = record s {
  expected_heartbeat = none;
  consecutive_misses = one_more s.consecutive_misses;
  health = mark_heartbeat_stale s.health;
}

unfoldable pub judge : Connection → ℕ → Option ℕ → Option Done × Connection
unfolding send_heartbeat missed zombie_decision
judge s now none = send_heartbeat s now
judge s now (some t) =
    if (zombie_decision true (missed s).consecutive_misses).kill
    then (some (err watchdog), missed s)
    else send_heartbeat (missed s) now

unfoldable pub on_tick : ℕ → Connection → ℕ → Option Done × Connection
unfolding judge is_burst
on_tick interval s now =
    let swept = record s { client = sweep_expired_parked s.client now } in
    if is_burst interval now s.expected_heartbeat
    then (none, swept)
    else judge swept now s.expected_heartbeat

unfoldable pub note_ack : Connection → ℕ → BridgeFrame → Connection
note_ack s now (heartbeat_ack t) = record s {
  health = mark_heartbeat_ack s.health now t;
  expected_heartbeat = none;
  consecutive_misses = 0;
}
note_ack s now frame = s

-- What `self.handle_frame(…).await?` leaves of the loop.
unfoldable pub after_frame : Connection → Done × Client → Option Done × Connection
after_frame s (ok _, client) = (none, record s { client = client })
after_frame s (err e, client) = (some (err e), record s { client = client })

module _ (parse_uuid : String → Option ℕ) (dispatch : Dispatch)
    (chat_push : Client → ℕ → ActionRequestFrame → Done × Client) (interval : ℕ) where
  unfoldable pub step : Connection → ℕ → Input → Option Done × Connection
  unfolding note_ack after_frame on_tick
  step s now (text frame) =
      let noted = note_ack s now frame in
      after_frame noted (handle_frame parse_uuid dispatch chat_push noted.client now frame)
  step s now (bad_text message) = (some (err (json message)), s)
  step s now (recv_error message) = (some (err (ws ("recv: " +++ message))), s)
  step s now close = (some (ok tt), s)
  step s now other_message = (none, s)
  step s now (decision given) =
      (none, record s { client = resume parse_uuid dispatch s.client now given })
  step s now tick = on_tick interval s now
