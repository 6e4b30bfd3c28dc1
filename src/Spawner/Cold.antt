-- ===== src/Spawner/Cold.antt =====
-- A child that starts cold: WriteMsgToChild, AppSpawnColdStartApp, GetAppSpawningCtxFromArg and
-- AppSpawnColdRun. Mapping the file of a message is one call; texts of arguments always fit.
pub mod Laws
use openharmony_mac_build.Common.{
  ℕ, ◌+◌, ◌*◌, ◌/◌, ◌%◌, ◌^◌, ℤ, Bool, true, false, not, ◌&&◌, Option, none, some, if◌then◌else◌,
}
use openharmony_mac_build.Spawner.State.{
  Env, Server, Ctx, Message, Code, done, system_error, msg_invalid, is_done, call, create_ctx,
  delete_ctx, delete_msg, map_memory, unmap_memory, unlink_memory, copy_msg, read_msg, exec_path,
  run_hooks, child_spawning, child_pre_reply, child_post_reply, child_env_clear, request, Received,
  broken, read, notify_res_to_parent,
}
use openharmony_mac_build.Spawner.Context.{Step}

-- The size of the memory for a message: whole pages, in uint32_t.
unfoldable pub mem_size : ℕ → ℕ
mem_size len = ((len / 4096 + 1) * 4096) % 2 ^ 32

write_message : Env → Ctx → Server → Option Message → Step
write_message env x s none = (msg_invalid, x, s)
write_message env x s (some m) =
    let size = mem_size m.msg_len in
    let t = call (map_memory size false) s in
    let u = call copy_msg t in
    if not (env.is_mapped t.trace)
    then (system_error, x, t)
    else (if env.copy_ok u.trace
        then (done, record x { msg_size = size; child_msg = true }, u)
        else (system_error, x, call (unmap_memory size) u))

-- WriteMsgToChild
unfoldable pub write_msg_to_child : Env → Ctx → Server → Step
unfolding write_message
write_msg_to_child env x s = write_message env x s x.message

-- AppSpawnColdStartApp; execv returns only when it fails, which is reported and no more.
unfoldable pub app_spawn_cold_start_app : Env → Ctx → Server → Step
app_spawn_cold_start_app env x s =
    let (c, y, t) = write_msg_to_child env x s in
    if is_done c then (done, y, call exec_path t) else (system_error, y, t)

-- The arguments of a cold child, as numbers.
pub record ColdArgs : Type 0 where
  pub fd : ℤ
  pub shm_size : ℕ
  pub client : ℕ

-- A context that is of no use: the parent is told, and it is deleted.
unfoldable pub give_up : Option Message → Ctx → Code → Server → Server
give_up none x c s = let r = notify_res_to_parent x c s in call (delete_ctx r.0) r.1
give_up (some m) x c s =
    let r = notify_res_to_parent x c s in call (delete_ctx r.0) (call (delete_msg m) r.1)

arg_message : Env → Ctx → Server → Received → Option Ctx × Server
arg_message env x s (broken e o) = (none, give_up o x msg_invalid s)
arg_message env x s (read m n left) =
    if is_done (env.decode_msg m) && is_done (env.check_msg m)
    then (some (record x { message = some m }), s)
    else (none, give_up (some m) x msg_invalid s)

arg_context : Env → ColdArgs → Server → Option Ctx → Option Ctx × Server
unfolding arg_message
arg_context env a s none = (none, s)
arg_context env a s (some x) =
    let y = record x { fd_write = a.fd; client_id = a.client; cold_start = false } in
    let t = call (map_memory a.shm_size true) s in
    let u = call (read_msg 0 (env.mapped_len t.trace)) t in
    let v = call (unlink_memory a.client) (call (unmap_memory a.shm_size) u) in
    if env.is_mapped t.trace
    then arg_message env y v (env.from_buffer u.trace 0 (env.mapped_len t.trace) none 0)
    else (none, give_up none y system_error t)

-- GetAppSpawningCtxFromArg
unfoldable pub get_app_spawning_ctx_from_arg : Env → ColdArgs → Server → Option Ctx × Server
unfolding arg_context
get_app_spawning_ctx_from_arg env a s =
    let t = call create_ctx s in arg_context env a t (env.created_ctx t.trace)

-- The child's own program, if there is one, and what is cleared after a failure.
run_processor : Env → Server → Option Code → Server
run_processor env s none = call (run_hooks child_env_clear) s
run_processor env s (some c) =
    let t = call (request "runChildProcessor") s in
    if is_done c then t else call (run_hooks child_env_clear) t

run_cold : Env → Server → Option Ctx → Server
unfolding run_processor
run_cold env s none = s
run_cold env s (some x) =
    let t = call (run_hooks child_spawning) s in
    let u = call (run_hooks child_pre_reply) t in
    let r = notify_res_to_parent x (env.hook_result u.trace) u in
    let v = call (run_hooks child_post_reply) r.1 in
    let w = notify_res_to_parent x (env.hook_result t.trace) t in
    if is_done (env.hook_result t.trace)
    then run_processor env v (env.processor v.trace)
    else call (run_hooks child_env_clear) w.1

-- AppSpawnColdRun, with enough arguments.
unfoldable pub app_spawn_cold_run : Env → ColdArgs → Server → Server
unfolding run_cold
app_spawn_cold_run env a s = let r = get_app_spawning_ctx_from_arg env a s in run_cold env r.1 r.0
