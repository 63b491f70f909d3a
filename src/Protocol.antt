-- ===== src/Protocol.antt =====
-- The wire frames and the JSON values that they carry:
-- apps/desktop-daemon/crates/daemon-protocol/src/lib.rs.
--
-- A JSON number is kept as its text. The fields that no modelled code reads are kept too, so a frame
-- that the daemon relays is the whole frame.
use synth_hires_bridge.Prelude.{ℕ, String, Bool, Option, none, some, str_eq, if◌then◌else◌}
use synth_hires_bridge.Capability.{Scopes}

mutual
  -- `serde_json::Value`
  pub data Json : Type 0 where
    null : Json
    bool : Bool → Json
    num : String → Json
    str : String → Json
    arr : Items → Json
    obj : Fields → Json

  pub data Items : Type 0 where
    nil : Items
    cons : Json → Items → Items

  pub data Fields : Type 0 where
    end : Fields
    field : String → Json → Fields → Fields

unfoldable pub get_field : String → Fields → Option Json
get_field k end = none
get_field k (field j v fs) = if str_eq j k then some v else get_field k fs

-- `Value::get` with a text key
unfoldable pub get : Json → String → Option Json
get (obj fs) k = get_field k fs
get _ k = none

-- `Value::as_str`, on what `get` found
unfoldable pub as_str : Option Json → Option String
as_str (some (str s)) = some s
as_str _ = none

abbrev pub protocol_version : ℕ
protocol_version = 1

pub record ActionRequestFrame : Type 0 where
  pub v : ℕ
  pub id : String
  pub capability : String
  pub params : Json
  pub conversation_id : Option String
  pub skip_consent_prompt : Bool

pub record ActionError : Type 0 where
  pub code : String
  pub message : String

pub record ActionResultFrame : Type 0 where
  pub v : ℕ
  pub id : String
  pub ok : Bool
  pub output : Option Json
  pub error : Option ActionError
  pub duration_ms : ℕ

pub record ConsentPromptFrame : Type 0 where
  pub v : ℕ
  pub id : String
  pub capability : String
  pub summary : String
  pub params_hash : String
  pub path : Option String

pub record ConsentResponseFrame : Type 0 where
  pub v : ℕ
  pub id : String
  pub approved : Bool
  pub remember : Bool

-- The frames that an established connection handles or sends; the handshake's are not among them.
pub data BridgeFrame : Type 0 where
  heartbeat heartbeat_ack : ℕ → BridgeFrame
  action_request : ActionRequestFrame → BridgeFrame
  action_result : ActionResultFrame → BridgeFrame
  consent_prompt : ConsentPromptFrame → BridgeFrame
  consent_response : ConsentResponseFrame → BridgeFrame
  scope_update : Scopes → BridgeFrame
  revoke : String → BridgeFrame
  error : (code message : String) → BridgeFrame
  other : BridgeFrame
