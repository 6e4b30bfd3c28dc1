-- ===== src/Spawner/Reply.antt =====
-- How a child that is waited for comes to its end: ProcessChildResponse, WaitChildTimeout, WaitChildDied,
-- and the signals that tell of it in HandleDiedPid and ProcessSignal. Reports of events, times and the
-- message that debug builds keep are left out.
pub mod Laws
pub mod Crashes
use openharmony_mac_build.Common.{
  ℕ, ◌+◌, ◌%◌, ◌^◌, ℤ, pos, int_eq, Bool, true, false, ◌&&◌, Option, none, some, List, [], ◌∷◌,
  if◌then◌else◌, is_positive, leb, ◌==◌,
}
use openharmony_mac_build.Spawner.State.{
  Env, Server, Content, Ctx, App, Message, Code, done, child_crash, spawn_timeout, is_done, sigkill,
  call, set_content, read_result, remove_watcher, add_process, delete_ctx, kill_process, request,
  run_hooks, server_app_add, server_app_died, server_app_umount, parent_pre_rely, parent_post_rely,
  terminate_process, remove_process, send_response,
}
use openharmony_mac_build.Spawner.Context.{watch_child_process_fd}
use openharmony_mac_build.Spawner.Stop.{stop_app_spawn}

check_result : Env → Ctx → Option Message → Code → Server → Bool × Server
check_result env x none c s = (false, s)
check_result env x (some m) c s =
    if is_done c then (true, s) else (false, call (delete_ctx x) (send_response env m c x.pid s))

-- ProcessChildFdCheck; a context without a message is left as it is.
unfoldable pub process_child_fd_check : Env → Ctx → Server → Bool × Server
unfolding check_result
process_child_fd_check env x s =
    let t = call (read_result x.fd_read) s in
    check_result env x x.message (env.child_result t.trace) t

answer_child : Env → Ctx → Option Message → Server → Server
answer_child env x none s = s
answer_child env x (some m) s =
    call (run_hooks parent_post_rely)
      (send_response env m done x.pid (call (run_hooks parent_pre_rely) s))

child_ready : Env → Ctx → Bool × Server → Server
unfolding answer_child
child_ready env x (false, s) = s
child_ready env x (true, s) =
    let t = watch_child_process_fd env x (call (add_process x.pid (env.is_debug_app x)) s) in
    call (delete_ctx x) (answer_child env x x.message (call (run_hooks server_app_add) t))

-- ProcessChildResponse
unfoldable pub process_child_response : Env → Ctx → Server → Server
unfolding child_ready
process_child_response env x s =
    let y = record x { watcher = none } in
    child_ready env y (process_child_fd_check env y (call remove_watcher s))

-- WaitChildTimeout, for a context with a message.
unfoldable pub wait_child_timeout : Env → Ctx → Message → Server → Server
wait_child_timeout env x m s =
    let t =
      if is_positive x.pid
      then call (kill_process x.pid sigkill) (call (request "DumpSpawnStack") s)
      else s in
    call (delete_ctx x) (send_response env m spawn_timeout (pos 0) t)

-- MAX_CRASH_TIME
abbrev pub max_crash_time : ℕ
max_crash_time = 5

-- g_crashTimes and g_lastDiedAppId, both uint32_t.
unfoldable pub record_crash : ℕ → Content → Content
record_crash id c = record c {
  crash_times = if id == (c.last_died_app_id + 1) % 2 ^ 32 then (c.crash_times + 1) % 2 ^ 32 else 1;
  last_died_app_id = id;
}

unfoldable pub died_waiting : Env → Ctx → Option Message → Server → Server
died_waiting env x none s = s
died_waiting env x (some m) s =
    let t = set_content (record_crash x.client_id s.content) s in
    let u = call (delete_ctx x) (send_response env m child_crash (pos 0) t) in
    if leb max_crash_time u.content.crash_times then stop_app_spawn env u else u

unfoldable pub died_ctx : Env → Server → Option Ctx → Server
unfolding died_waiting
died_ctx env s none = s
died_ctx env s (some x) = if x.is_spawning then died_waiting env x x.message s else s

-- WaitChildDied
unfoldable pub wait_child_died : Env → ℤ → Server → Server
unfolding died_ctx
wait_child_died env pid s = died_ctx env s (env.ctx_by_pid s.trace pid)

died_app : Env → ℤ → Server → Option App → Server
died_app env pid s none = wait_child_died env pid s
died_app env pid s (some a) =
    let t = call (run_hooks server_app_umount) (call (run_hooks server_app_died) s) in
    if a.is_nwebspawn
    then stop_app_spawn env (call (remove_process a) t)
    else call (terminate_process a) t

-- HandleDiedPid
unfoldable pub handle_died_pid : Env → ℤ → Server → Server
unfolding died_app
handle_died_pid env pid s =
    let t =
      if int_eq pid s.content.reserved_pid
      then set_content (record s.content { reserved_pid = pos 0 }) s
      else s in
    died_app env pid t (env.spawned_process t.trace pid)

-- What a signal brings: for SIGCHLD the pids and the statuses that waitpid gives in turn.
pub data Notice : Type 0 where
  sigchld : List (ℤ × ℕ) → Notice
  stop_signal other_signal : Notice

handle_children : Env → List (ℤ × ℕ) → Server → Server
handle_children env [] s = s
handle_children env ((pid, status) ∷ ps) s =
    let rest = handle_children env ps (handle_died_pid env pid s) in
    if env.exit_status_ok status then rest else s

-- ProcessSignal
unfoldable pub process_signal : Env → Notice → Server → Server
unfolding handle_children
process_signal env (sigchld ps) s = handle_children env ps s
process_signal env stop_signal s = stop_app_spawn env s
process_signal env other_signal s = s
