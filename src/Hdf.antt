-- ===== src/Hdf.antt =====
-- The device manager of the hardware driver foundation:
-- mac/drivers/hdf_core/framework/core/manager/src/devmgr_service.c.
pub mod Types
pub mod Split
pub mod Process
pub mod Device
pub mod Left
pub mod Token
pub mod Hosts
pub mod Power
pub mod Reply
mod Tests
