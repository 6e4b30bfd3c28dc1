-- ===== src/ModuleMgr.antt =====
-- The plugin manager of init: mac/base/startup/init/interfaces/innerkits/modulemgr/modulemgr.c.
pub mod Names
pub mod Store
pub mod Scan
pub mod Suffix
pub mod Install
pub mod Duplicate
mod Tests
