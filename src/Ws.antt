-- ===== src/Ws.antt =====
-- The WebSocket client: apps/desktop-daemon/crates/daemon-core/src/ws_client.rs, a module for each part.
pub mod Base
pub mod Scope
pub mod PathGate
pub mod Mutations
pub mod Guards
pub mod Undo
pub mod RestoreArm
pub mod Deletes
pub mod Consents
pub mod ReadArms
pub mod ChatPush
pub mod Redact
pub mod Secrets
pub mod Action
pub mod Parking
pub mod Refusals
pub mod Health
pub mod Connection
pub mod Watchdog
pub mod Silence
pub mod Reconnect
mod Tests
mod LoopTests
mod MutationTests
