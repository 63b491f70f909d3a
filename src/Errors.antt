-- ===== src/Errors.antt =====
-- `DaemonError` and `Result` of apps/desktop-daemon/crates/daemon-core/src/lib.rs.
use Prim.Native.String.{◌++◌}
use synth_hires_bridge.Prelude.{String}

-- `DaemonError` of lib.rs; the errors of other crates are their texts.
pub data DaemonError : Type 0 where
  capability_denied path_denied io json keyring ws protocol : String → DaemonError
  user_denied cancelled awaiting_consent : DaemonError
  timeout : String → DaemonError
  eval_failed : String → DaemonError

unfoldable pub to_string : DaemonError → String
to_string (capability_denied s) = "capability not granted: " ++ s
to_string (path_denied s) = "path outside alwaysAllow: " ++ s
to_string (io s) = "io error: " ++ s
to_string (json s) = "json error: " ++ s
to_string (keyring s) = "keyring error: " ++ s
to_string (ws s) = "websocket error: " ++ s
to_string (protocol s) = "protocol error: " ++ s
to_string user_denied = "user denied consent"
to_string cancelled = "action cancelled"
to_string (timeout ms) = "timed out after " ++ (ms ++ "ms")
to_string awaiting_consent = "waiting for owner consent"
to_string (eval_failed message) = "eval failed: " ++ message

pub data Result {ℓ} (A : Type ℓ) : Type ℓ where
  ok : A → Result A
  err : DaemonError → Result A

abbrev pub Done : Type 0
Done = Result (Unit {0})
