-- ===== src/Update.antt =====
-- Updates: apps/desktop-daemon/crates/daemon-core/src/autoupdate.rs.
pub mod Versions
pub mod Newer
pub mod Check
pub mod Offers
mod Tests
