-- ===== src/Spawner/Context/Laws.antt =====
-- Whether a child is watched.
use openharmony_mac_build.Common.{◌≡◌, true, none, is_some, arith}
use openharmony_mac_build.Spawner.State.{Env, Server, Ctx, done}
use openharmony_mac_build.Spawner.Context.{Step, add_child_watcher}

-- A child that is watched has a watcher and a timer; the others have neither.
abbrev pub IsWatched : Step → Type 0
IsWatched (done, x, s) = (is_some x.watcher ≡ true) × (is_some x.timer ≡ true)
IsWatched (c, x, s) = (x.watcher ≡ none) × (x.timer ≡ none)

-- From a context with neither a watcher nor a timer, AddChildWatcher either succeeds and leaves both,
-- or fails and leaves neither, whichever call failed.
pub add_child_watcher-IsWatched :
    (env : Env) (x : Ctx) (s : Server)
    → x.watcher ≡ none
    → x.timer ≡ none
    → IsWatched (add_child_watcher env x s)
unfolding add_child_watcher
add_child_watcher-IsWatched env x s w t = ground arith
