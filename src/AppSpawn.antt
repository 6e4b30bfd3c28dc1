-- ===== src/AppSpawn.antt =====
-- The spawner of applications: mac/base/startup/appspawn/modules/modulemgr/appspawn_modulemgr.c and
-- mac/base/startup/appspawn/common/appspawn_server.c.
pub mod Modules
pub mod Hooks
pub mod Child
mod Tests
