-- ===== src/Spawner/Life/Laws.antt =====
-- Every step in the life of a request obeys the protocol, and what has become of a request in the end.
use openharmony_mac_build.Spawner.Life.{Life}
