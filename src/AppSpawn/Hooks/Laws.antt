-- ===== src/AppSpawn/Hooks/Laws.antt =====
-- The bounds that the spawn times keep.
use openharmony_mac_build.Common.{ℕ, arith, ◌≤◌}
use openharmony_mac_build.AppSpawn.Hooks.{SpawnTime, update_app_spawn_time}

-- From times in order, an update leaves times in order with the new time between them, and moves
-- neither bound inwards.
pub update_app_spawn_time-Encloses :
    (used : ℕ) (s : SpawnTime)
    → s.min_time ≤ s.max_time
    → ((update_app_spawn_time used s).min_time ≤ used)
      × (used ≤ (update_app_spawn_time used s).max_time)
      × ((update_app_spawn_time used s).min_time ≤ s.min_time)
      × (s.max_time ≤ (update_app_spawn_time used s).max_time)
unfolding update_app_spawn_time
update_app_spawn_time-Encloses used s h = ground arith
