-- ===== src/Spawner/Request.antt =====
-- ProcessSpawnReqMsg: a request to spawn, up to the child that is waited for. Reports of events and
-- times are left out.
pub mod Laws
use openharmony_mac_build.Common.{
  ℕ, ℤ, pos, Bool, true, false, ◌&&◌, Option, none, some, if◌then◌else◌,
}
use openharmony_mac_build.Spawner.State.{
  Env, Server, Ctx, Message, Code, done, system_error, is_done, sigkill, call, create_ctx,
  delete_ctx, delete_msg, kill_process, request, run_hooks, parent_pre_fork, parent_post_fork,
  send_response,
}
use openharmony_mac_build.Spawner.Context.{Step, add_child_watcher}
use openharmony_mac_build.Spawner.Prefork.{run_process_msg}

-- How a request goes on: it is over, or a child is waited for.
pub data Asked : Type 0 where
  over : Server → Asked
  waits : Ctx → Server → Asked

unfoldable pub watched : Env → Message → Step → Asked
watched env m (c, x, s) =
    if is_done c
    then waits x s
    else over (
        call (delete_ctx x)
          (send_response env m done (pos 0) (call (kill_process x.pid sigkill) s)))

-- The answer to a child that cannot be watched is the result of the spawn, which is 0.
unfoldable pub after_spawn : Env → Message → Step → Asked
unfolding watched
after_spawn env m (c, x, s) =
    let t = call (run_hooks parent_post_fork) s in
    if is_done c
    then watched env m (add_child_watcher env x t)
    else over (call (delete_ctx x) (send_response env m c (pos 0) t))

unfoldable pub with_ctx : Env → Message → Server → Option Ctx → Asked
unfolding after_spawn
with_ctx env m s none = over (call (delete_msg m) (send_response env m system_error (pos 0) s))
with_ctx env m s (some x) = after_spawn env m (
    run_process_msg env (record x { is_spawning = true; message = some m })
      (call (run_hooks parent_pre_fork) s))

-- The flag of developers, set in the message.
unfoldable pub mark_developer : Env → Server → Server
mark_developer env s =
    if env.developer_mode && env.hnp_enabled s.trace
    then call (request "SetAppSpawnMsgFlag") s
    else s

-- ProcessSpawnReqMsg
unfoldable pub process_spawn_req_msg : Env → ℕ → Message → Server → Asked
unfolding mark_developer with_ctx
process_spawn_req_msg env conn m s =
    let t = call create_ctx (mark_developer env s) in
    if is_done (env.check_msg m)
    then with_ctx env (record m { connection = some conn }) t (env.created_ctx t.trace)
    else over (call (delete_msg m) (send_response env m (env.check_msg m) (pos 0) s))
