-- ===== src/Spawner/Context.antt =====
-- The context of a child that is being spawned: InitForkContext, AddChildWatcher, WatchChildProcessFd
-- and ProcessChildProcessFd. The flags that fcntl sets on a descriptor are left out.
pub mod Laws
use openharmony_mac_build.Common.{
  ℕ, ℤ, ◌*◌, Bool, true, false, not, ◌&&◌, ◌||◌, Option, none, some, if◌then◌else◌, is_positive,
  is_negative,
}
use openharmony_mac_build.Spawner.State.{
  Env, Server, Ctx, App, Code, done, value, system_error, call, make_pipe, start_watcher,
  remove_watcher, create_timer, start_timer, stop_timer, open_pidfd, malloc_pid, close_fd,
  close_task, run_hooks, server_app_died,
}

-- What a step on a context comes to.
abbrev pub Step : Type 0
Step = Code × Ctx × Server

unfoldable pub set_pipe : Env → Ctx → Server → Option (ℤ × ℤ) → Step
set_pipe env x s none = (value (env.pipe_errno s.trace), x, s)
set_pipe env x s (some (r, w)) = (done, record x { fd_read = r; fd_write = w }, s)

-- InitForkContext
unfoldable pub init_fork_context : Env → Ctx → Server → Step
unfolding set_pipe
init_fork_context env x s = let t = call make_pipe s in set_pipe env x t (env.pipe_fds t.trace)

-- IsChildColdRun
unfoldable pub is_child_cold_run : Env → Ctx → Bool
is_child_cold_run env x = env.is_cold_app x || x.cold_start

stop_ctx_timer : Option ℕ → Server → Server
stop_ctx_timer none s = s
stop_ctx_timer (some h) s = call (stop_timer h) s

-- The end of AddChildWatcher when the timer could not be made or started.
unwatch : Ctx → Server → Step
unfolding stop_ctx_timer
unwatch x s = (
  system_error,
  record x { timer = none; watcher = none },
  call remove_watcher (stop_ctx_timer x.timer s),
)

unfoldable pub time_ctx : Env → ℕ → Ctx → Server → Option ℕ → Step
unfolding unwatch
time_ctx env timeout x s none = unwatch x s
time_ctx env timeout x s (some h) =
    let y = record x { timer = some h } in
    let t = call (start_timer (timeout * 1000)) s in
    if env.timer_ok t.trace then (done, y, t) else unwatch y t

-- AddChildWatcher
unfoldable pub add_child_watcher : Env → Ctx → Server → Step
unfolding time_ctx
add_child_watcher env x s =
    let timeout =
      env.spawn_timeout_of
        (if is_child_cold_run env x then env.cold_timeout else env.warm_timeout) in
    let t = call start_watcher s in
    let y = record x { watcher = some (env.new_watcher t.trace) } in
    let u = call create_timer t in
    if env.watch_ok t.trace
    then time_ctx env timeout y u (env.new_timer u.trace)
    else (system_error, x, t)

watch_pidfd : Env → ℤ → Server → Server
watch_pidfd env fd s =
    let t = call malloc_pid s in
    let u = call start_watcher t in
    if env.malloc_ok t.trace then (if env.watch_ok u.trace then u else call (close_fd fd) u) else t

watch_process : Env → ℤ → Server → Option App → Server
unfolding watch_pidfd
watch_process env pid s none = s
watch_process env pid s (some a) =
    let t = call (open_pidfd pid) s in
    if is_negative (env.pidfd t.trace) then t else watch_pidfd env (env.pidfd t.trace) t

-- WatchChildProcessFd
unfoldable pub watch_child_process_fd : Env → Ctx → Server → Server
unfolding watch_process
watch_child_process_fd env x s =
    if is_positive x.pid && not s.content.nweb_spawn_mode
    then watch_process env x.pid s (env.spawned_process s.trace x.pid)
    else s

process_died : Server → Option App → Server
process_died s none = s
process_died s (some a) = call close_task (call (run_hooks server_app_died) s)

-- ProcessChildProcessFd, with a context.
unfoldable pub process_child_process_fd : Env → ℤ → Server → Server
unfolding process_died
process_child_process_fd env pid s = process_died s (env.spawned_process s.trace pid)
