-- ===== src/Spawner/Prefork.antt =====
-- Children that are forked before they are asked for: ProcessPreFork, AppSpawnProcessMsgForPrefork,
-- RunAppSpawnProcessMsg and what they call. The name that a waiting child sets is left out.
pub mod Laws
pub mod Quiet
use openharmony_mac_build.Common.{
  ℕ, zero, suc, ℤ, pos, negsuc, ◌*◌, Bool, true, false, not, ◌&&◌, List, [], Option, none, some,
  if◌then◌else◌, is_positive, minus_one,
}
use openharmony_mac_build.AppSpawn.Child as Child
use openharmony_mac_build.Spawner.State.{
  Env, Server, Ctx, Message, Content, Code, done, failed, value, fork_fail, msg_invalid, is_done,
  sigkill, call, set_content, make_pipe, close_fd, fork_child, spawn, map_memory, unmap_memory,
  unlink_memory, copy_msg, write_client, kill_process, request, notify_res_to_parent,
}
use openharmony_mac_build.Spawner.Context.{Step, init_fork_context, is_child_cold_run}

-- MAX_MEM_SIZE
abbrev pub max_mem_size : ℕ
max_mem_size = 4 * 1024

-- One end of a pipe in ClearPipeFd.
clear_fd : ℤ → Server → ℤ × Server
clear_fd fd s = if is_positive fd then (minus_one, call (close_fd fd) s) else (fd, s)

-- ClearPipeFd of both ends.
unfoldable pub clear_pipe_fd : ℤ × ℤ → Server → (ℤ × ℤ) × Server
unfolding clear_fd
clear_pipe_fd (r, w) s = let (r', t) = clear_fd r s in let (w', u) = clear_fd w t in ((r', w'), u)

clear_prefork_pipe : Server → Server
unfolding clear_pipe_fd
clear_prefork_pipe s =
    let ((r, w), t) = clear_pipe_fd (s.content.prefork_read, s.content.prefork_write) s in
    set_content (record t.content { prefork_read = r; prefork_write = w }) t

clear_parent_pipe : Server → Server
unfolding clear_pipe_fd
clear_parent_pipe s =
    let ((r, w), t) = clear_pipe_fd (s.content.pipe_read, s.content.pipe_write) s in
    set_content (record t.content { pipe_read = r; pipe_write = w }) t

-- The fork of ProcessPreFork, in the parent.
fork_reserve : Env → Server → Server
fork_reserve env s =
    let t = call fork_child s in
    set_content (record t.content { reserved_pid = env.pid_of_fork t.trace }) t

second_pipe : Env → Server → Option (ℤ × ℤ) → Server
unfolding clear_prefork_pipe fork_reserve
second_pipe env s none = clear_prefork_pipe s
second_pipe env s (some (r, w)) =
    fork_reserve env (set_content (record s.content { pipe_read = r; pipe_write = w }) s)

first_pipe : Env → Server → Option (ℤ × ℤ) → Server
unfolding clear_parent_pipe second_pipe
first_pipe env s none = s
first_pipe env s (some (r, w)) =
    let t = call make_pipe (
      clear_parent_pipe
        (set_content (record s.content { prefork_read = r; prefork_write = w }) s)) in
    second_pipe env t (env.pipe_fds t.trace)

-- ProcessPreFork, in the parent.
unfoldable pub process_pre_fork : Env → Server → Server
unfolding first_pipe
process_pre_fork env s = let t = call make_pipe s in first_pipe env t (env.pipe_fds t.trace)

-- ClearMMAP
unfoldable pub clear_mmap : ℕ → Server → Server
clear_mmap id s =
    let t = call (unlink_memory id) s in
    if t.content.property_buffer
    then set_content (record t.content { property_buffer = false })
        (call (unmap_memory max_mem_size) t)
    else t

-- The failure of WritePreforkMsg, which gives the buffer up.
drop_buffer : Env → Server → Code × Server
drop_buffer env s = (
  value env.copy_error,
  set_content (record s.content { property_buffer = false }) (call (unmap_memory max_mem_size) s),
)

-- WritePreforkMsg: two copies, of the header and of the rest.
unfoldable pub write_prefork_msg : Env → Server → Code × Server
unfolding drop_buffer
write_prefork_msg env s =
    let t = call copy_msg s in
    let u = call copy_msg t in
    if s.content.property_buffer
    then if env.copy_ok t.trace
      then (if env.copy_ok u.trace then (done, u) else drop_buffer env u)
      else drop_buffer env t
    else (failed, s)

unfoldable pub spawned : Ctx → Server → Option ℕ × Child.Trace → Step
spawned x s (none, t) = (fork_fail, x, call (spawn t) s)
spawned x s (some n, t) = (done, record x { pid = pos n }, call (spawn t) s)

-- AppSpawnProcessMsg, for a context.
unfoldable pub process_msg : Env → Ctx → Server → Step
unfolding spawned
process_msg env x s =
    spawned x s (
      Child.app_spawn_process_msg (env.child_env s.trace) env.child_content (env.child_client x) [])

-- InitForkContext and then AppSpawnProcessMsg.
unfoldable pub fork_now : Env → Step → Step
unfolding process_msg
fork_now env (done, x, s) = process_msg env x s
fork_now env (c, x, s) = (c, x, s)

-- The two calls of fcntl; the second one's result becomes that of the function.
set_nonblock : Env → Server → Code × Server
set_nonblock env s =
    let t = call (request "F_GETFD") s in
    let u = call (request "F_SETFD") t in
    if is_positive (env.fd_flags t.trace)
    then (if env.fcntl_ok u.trace then done else failed, u)
    else (done, t)

-- The reserved child is told which client it is for. The child is handed out even if fcntl fails.
hand_out : Env → Ctx → Server → Step
unfolding set_nonblock
hand_out env x s =
    let r = set_nonblock env s in
    let y = record x {
      pid = s.content.reserved_pid;
      fd_read = s.content.prefork_read;
      fd_write = s.content.prefork_write;
    } in
    let t = call (write_client x.client_id) r.1 in
    if env.client_written t.trace
    then (r.0, y, t)
    else (failed, record y { pid = pos 0 }, call (kill_process y.pid sigkill) t)

after_write : Env → Ctx → Code × Server → Step
unfolding hand_out process_pre_fork
after_write env x (done, s) = let (c, y, t) = hand_out env x s in (c, y, process_pre_fork env t)
after_write env x (c, s) = (c, x, s)

-- A child is reserved.
use_reserve : Env → Ctx → Server → Step
unfolding clear_mmap after_write write_prefork_msg
use_reserve env x s =
    let fresh = if s.content.property_buffer then clear_mmap x.client_id s else s in
    let mapped = call (map_memory max_mem_size false) fresh in
    let t = set_content (record mapped.content { property_buffer = true }) mapped in
    if env.is_mapped mapped.trace
    then after_write env x (write_prefork_msg env t)
    else (failed, x, set_content (record mapped.content { property_buffer = false }) mapped)

-- No child is reserved: one is forked, and then one more for the next request.
no_reserve : Env → Step → Step
unfolding process_msg process_pre_fork
no_reserve env (done, x, s) = let (c, y, t) = process_msg env x s in (c, y, process_pre_fork env t)
no_reserve env (c, x, s) = (c, x, s)

-- AppSpawnProcessMsgForPrefork
unfoldable pub process_msg_for_prefork : Env → Ctx → Server → Step
unfolding use_reserve no_reserve init_fork_context
process_msg_for_prefork env x s =
    if is_positive s.content.reserved_pid
    then use_reserve env x s
    else no_reserve env (init_fork_context env x s)

-- IsSupportPrefork
unfoldable pub is_support_prefork : Env → Ctx → Server → Bool
unfolding is_child_cold_run
is_support_prefork env x s =
    s.content.enable_prefork
    && s.content.app_spawn_mode
    && not (is_child_cold_run env x)
    && not (env.is_child_process x)

-- RunAppSpawnProcessMsg
unfoldable pub run_process_msg : Env → Ctx → Server → Step
unfolding process_msg_for_prefork is_support_prefork fork_now init_fork_context
run_process_msg env x s =
    if env.boot_finished s.trace && is_support_prefork env x s
    then process_msg_for_prefork env x s
    else fork_now env (init_fork_context env x s)

-- How a waiting child goes on: it exits, or it becomes the child of a client.
pub data Waited : Type 0 where
  exits : Server → Waited
  serves : Ctx → Server → Waited

msg_received : Env → Option Message → Option Message
msg_received env none = none
msg_received env (some m) =
    if is_done (env.decode_msg m) && is_done (env.check_msg m) then some m else none

-- GetAppSpawnMsg; the message is in the context where it succeeds.
unfoldable pub get_msg : Env → Ctx → Server → Bool × Ctx × Server
unfolding msg_received
get_msg env x s =
    let t = call (map_memory max_mem_size true) s in
    if env.is_mapped t.trace
    then elim (msg_received env (env.msg_in_buffer t.trace)) [
      | none ↦ (false, record x { child_msg = true; msg_size = max_mem_size }, t)
      | some m ↦ (true, record x { child_msg = true; msg_size = max_mem_size; message = some m }, t)
    ]
    else (false, x, t)

serve_client : Env → Bool × Ctx × Server → Waited
unfolding clear_mmap notify_res_to_parent
serve_client env (true, x, s) = serves x (clear_mmap x.client_id s)
serve_client env (false, x, s) =
    exits (notify_res_to_parent x msg_invalid (clear_mmap x.client_id s)).1

read_client : Env → Ctx → Server → Option (ℕ × Bool) → Waited
unfolding serve_client get_msg
read_client env x s none = exits s
read_client env x s (some (id, cold)) = serve_client env (
    get_msg env
      (record x {
        client_id = id;
        cold_start = cold;
        is_prefork = true;
        fd_read = s.content.prefork_read;
        fd_write = s.content.prefork_write;
        is_spawning = true;
      })
      s)

-- ProcessPreFork, in the child that waits.
unfoldable pub wait_for_client : Env → Ctx → Server → Waited
unfolding clear_pipe_fd read_client
wait_for_client env x s =
    let ((r, w), t) = clear_pipe_fd (x.fd_read, x.fd_write) s in
    let u = call (request "read") t in
    read_client env (record x { fd_read = r; fd_write = w }) u (env.client_read u.trace)
