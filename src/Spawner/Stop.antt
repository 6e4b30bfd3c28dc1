-- ===== src/Spawner/Stop.antt =====
-- AppQueueDestroyProc and StopAppSpawn: the end of appspawn and of all that it spawned. The statistics
-- of event reports are left out.
pub mod Laws
use openharmony_mac_build.Common.{
  ℤ, pos, Bool, Option, none, some, List, [], ◌∷◌, if◌then◌else◌, is_positive,
}
use openharmony_mac_build.Spawner.State.{
  Env, Server, App, sigkill, call, set_content, kill_process, kill_and_wait, run_hooks,
  server_app_died, remove_process, stop_loop,
}

-- AppQueueDestroyProc
unfoldable pub app_queue_destroy : App → Server → Server
app_queue_destroy a s =
    let t = call (remove_process a) (call (run_hooks server_app_died) s) in
    if is_positive a.app_pid then call (kill_process a.app_pid sigkill) t else t

unfoldable pub destroy_all : List App → Server → Server
unfolding app_queue_destroy
destroy_all [] s = s
destroy_all (a ∷ as') s = destroy_all as' (app_queue_destroy a s)

-- One of the two servers that appspawn waits for.
unfoldable pub stop_server : Option App → Server → Server
stop_server none s = s
stop_server (some a) s = call (remove_process a) (call (kill_and_wait a.app_pid) s)

unfoldable pub kill_reserved : Server → Server
kill_reserved s =
    if is_positive s.content.reserved_pid
    then set_content (record s.content { reserved_pid = pos 0 })
        (call (kill_process s.content.reserved_pid sigkill) s)
    else s

-- StopAppSpawn
unfoldable pub stop_app_spawn : Env → Server → Server
unfolding stop_server kill_reserved destroy_all
stop_app_spawn env s =
    let t = stop_server (env.nweb_process s.trace) s in
    let u = kill_reserved (stop_server (env.native_process t.trace) t) in
    call stop_loop (destroy_all (env.processes u.trace) u)
