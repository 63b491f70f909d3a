-- ===== src/Ws/Base.antt =====
-- The state that the connection of ws_client.rs works on, and how it sends results.
--
-- The mutexes around `gate`, `parked` and the broker are taken and left within one step of the
-- connection's loop, which is the only writer, so the state is passed along. `sent` lists the frames
-- that the socket took, oldest first; a socket that is not `open_socket` refuses. `parse_uuid` is
-- `Uuid::parse_str`, of a third-party crate.
use synth_hires_bridge.Prelude.{
  ℕ, String, Bool, true, false, Option, none, some, List, [], ◌∷◌, if◌then◌else◌, str_eq,
}
use synth_hires_bridge.Prelude.Map.{Map}
use mathlib.Core.List
use synth_hires_bridge.Errors.{Done, ok, err, ws}
use synth_hires_bridge.Capability.{CapabilityGate}
use synth_hires_bridge.Consent.{ConsentBroker}
use synth_hires_bridge.Tasks.{Shared, TaskStatus, completed, failed, killed, finish_global_task}
use synth_hires_bridge.Protocol.{
  Json, ActionRequestFrame, ActionError, BridgeFrame, action_result, protocol_version,
}

pub record Client : Type 0 where
  pub gate : CapabilityGate
  pub consent : ConsentBroker
  pub parked : Map (ActionRequestFrame × ℕ)
  pub shared : Shared
  pub audit_log : List (String × Json)
  pub open_socket : Bool
  pub sent : List BridgeFrame

unfoldable pub send : Client → BridgeFrame → Done × Client
send c frame =
    if c.open_socket
    then (ok tt, record c { sent = List.◌++◌ c.sent (frame ∷ []) })
    else (err (ws "send"), c)

-- The status that a result gives its task.
unfoldable pub result_status : Bool → Option String → TaskStatus
result_status true error = completed none
result_status false none = failed "action_failed"
result_status false (some message) =
    if str_eq message "action_cancelled" then killed else failed message

unfoldable pub action_error : Option String → Option ActionError
action_error none = none
action_error (some message) = some (record {
  code = if str_eq message "action_cancelled" then "action_cancelled" else "action_failed";
  message = message;
})

unfoldable pub finish_task : Client → ℕ → Option ℕ → TaskStatus → Client
finish_task c now none status = c
finish_task c now (some id) status = record c { shared = finish_global_task c.shared now id status }

module _ (parse_uuid : String → Option ℕ) where
  unfoldable pub send_action_result :
      Client → ℕ → String → Bool → Option Json → Option String → ℕ → Done × Client
  send_action_result c now action_id success output error duration_ms =
      send (finish_task c now (parse_uuid action_id) (result_status success error)) (
        action_result (record {
          v = protocol_version;
          id = action_id;
          ok = success;
          output = output;
          error = action_error error;
          duration_ms = duration_ms;
        }))

  unfoldable pub send_error : Client → ℕ → String → String → Done × Client
  unfolding send_action_result
  send_error c now action_id error = send_action_result c now action_id false none (some error) 0
