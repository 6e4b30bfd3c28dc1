-- ===== src/Sandbox.antt =====
-- The rules of sandboxes: mac/base/startup/appspawn/modules/sandbox/sandbox_load.c.
pub mod State
pub mod Values
pub mod Nodes
pub mod Gids
pub mod Groups
pub mod Base
pub mod Config
pub mod Load
mod Tests
