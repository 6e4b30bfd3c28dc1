-- ===== src/Spawner.antt =====
-- The server of appspawn: mac/base/startup/appspawn/standard/appspawn_service.c.
mod Tests
pub mod State
pub mod Context
pub mod Prefork
pub mod Stop
pub mod News
pub mod Request
pub mod Reply
pub mod Debug
pub mod Remount
pub mod Dispatch
pub mod Connection
pub mod Receive
pub mod Start
pub mod Cold
pub mod Life
