-- ===== src/Spawner/Dispatch.antt =====
-- What is done for each message: ProcessRecvMsg, with ProcessSpawnBegetctlMsg, ProcessBegetCmdMsg and
-- ProcessSpawnRestartMsg.
pub mod Laws
use openharmony_mac_build.Common.{
  ℕ, ℤ, pos, Bool, true, false, not, Option, none, some, if◌then◌else◌, is_positive, is_negative,
}
use openharmony_mac_build.Spawner.State.{
  Env, Server, Ctx, App, MsgType, get_render_termination_status, spawn_native_process, app_spawn,
  dump, beget_cmd, beget_spawntime, update_mount_points, restart_spawner, device_debug,
  uninstall_debug_hap, lock_status, other, Message, Code, done, msg_invalid, debug_mode_not_support,
  value, is_done, call, delete_msg, request, run_hooks, server_exit, exec_path, send_response,
}
use openharmony_mac_build.Spawner.Stop.{destroy_all}
use openharmony_mac_build.Spawner.Request.{Asked, over, waits, process_spawn_req_msg}
use openharmony_mac_build.Spawner.Debug.{
  process_app_spawn_device_debug_msg, process_app_spawn_lock_status_msg,
  process_uninstall_debug_hap,
}
use openharmony_mac_build.Spawner.Remount.{process_spawn_remount_msg}

unfoldable pub rebuilt_msg : Env → Server → Option Message → Option Message × Server
rebuilt_msg env s none = (none, s)
rebuilt_msg env s (some m) =
    if is_done (env.decode_msg m) then (some m, s) else (none, call (delete_msg m) s)

unfoldable pub beget_app : Env → Message → Server → Option App → Option Message × Server
unfolding rebuilt_msg
beget_app env m s none = (none, s)
beget_app env m s (some a) =
    let t = call (request "RebuildAppSpawnMsgNode") s in rebuilt_msg env t (env.rebuilt t.trace m a)

-- ProcessSpawnBegetctlMsg, on the extended information that names a pid.
unfoldable pub process_spawn_begetctl_msg : Env → Message → Server → Option Message × Server
unfolding beget_app
process_spawn_begetctl_msg env m s = elim (env.beget_pid m) [
  | none ↦ (none, s)
  | some text ↦ beget_app env m s (env.spawned_process s.trace (env.to_int text))
]

-- One more call, whether the request is over or not.
unfoldable pub then_delete : Message → Asked → Asked
then_delete m (over s) = over (call (delete_msg m) s)
then_delete m (waits x s) = waits x (call (delete_msg m) s)

-- An answer, and the end of the message.
unfoldable pub answered : Env → Message → Code → ℤ → Server → Server
answered env m c p s = call (delete_msg m) (send_response env m c p s)

spawn_beget : Env → ℕ → Message → Option Message × Server → Asked
spawn_beget env conn m (none, s) = over (answered env m debug_mode_not_support (pos 0) s)
spawn_beget env conn m (some n, s) =
    then_delete n (then_delete m (process_spawn_req_msg env conn n s))

-- ProcessBegetCmdMsg
unfoldable pub process_beget_cmd_msg : Env → ℕ → Message → Server → Asked
unfolding spawn_beget
process_beget_cmd_msg env conn m s =
    if not env.developer_mode
    then over (answered env m debug_mode_not_support (pos 0) s)
    else spawn_beget env conn m (process_spawn_begetctl_msg env m s)

-- The end of ProcessSpawnRestartMsg: the program is started anew on its socket.
unfoldable pub exec_again : Env → Server → Server
exec_again env s =
    let t = call (request "GetControlSocket") s in
    let u = if is_positive (env.fd_flags t.trace) then call (request "F_SETFD") t else t in
    if is_negative (env.control_socket t.trace) then t else call exec_path u

-- ProcessSpawnRestartMsg
unfoldable pub process_spawn_restart_msg : Env → Message → Server → Server
process_spawn_restart_msg env m s =
    if not s.content.nweb_spawn_mode
    then answered env m msg_invalid (pos 0) s
    else exec_again env (
        call (run_hooks server_exit)
          (answered env m done (pos 0) (destroy_all (env.processes s.trace) s)))

-- MSG_GET_RENDER_TERMINATION_STATUS
unfoldable pub termination_status : Env → Message → Server → Server
termination_status env m s =
    let t = call (request "ProcessTerminationStatusMsg") s in
    let r = env.termination t.trace in answered env m (if is_done r.0 then r.1 else r.0) r.2 t

-- The switch of ProcessRecvMsg.
unfoldable pub process_msg_type : Env → ℕ → Message → Server → MsgType → Asked
process_msg_type env conn m s get_render_termination_status = over (termination_status env m s)
process_msg_type env conn m s spawn_native_process = process_spawn_req_msg env conn m s
process_msg_type env conn m s app_spawn = process_spawn_req_msg env conn m s
process_msg_type env conn m s dump =
    over (answered env m done (pos 0) (call (request "ProcessAppSpawnDumpMsg") s))
process_msg_type env conn m s beget_cmd = process_beget_cmd_msg env conn m s
process_msg_type env conn m s beget_spawntime =
    let r = env.spawn_times s.trace in over (answered env m (value r.0) r.1 s)
process_msg_type env conn m s update_mount_points =
    let r = process_spawn_remount_msg env s in over (send_response env m r.0 (pos 0) r.1)
process_msg_type env conn m s restart_spawner = over (process_spawn_restart_msg env m s)
process_msg_type env conn m s device_debug =
    let r = process_app_spawn_device_debug_msg env m s in over (answered env m r.0 (pos 0) r.1)
process_msg_type env conn m s uninstall_debug_hap = over (process_uninstall_debug_hap env m s)
process_msg_type env conn m s lock_status =
    over (answered env m done (pos 0) (process_app_spawn_lock_status_msg env m s))
process_msg_type env conn m s other = over (answered env m msg_invalid (pos 0) s)
