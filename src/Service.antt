-- ===== src/Service.antt =====
-- The life of a service under init: mac/base/startup/init/services/init/init_common_service.c and
-- the parts of standard/init_service.c that it calls.
pub mod Types
pub mod Frame
pub mod Fds
pub mod Timer
pub mod Caps
pub mod Perms
pub mod Child
pub mod Start
pub mod Stop
pub mod Crash
pub mod Reap
pub mod Life
mod Tests
