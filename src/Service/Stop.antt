-- ===== src/Service/Stop.antt =====
-- ServiceStop of init_common_service.c.
pub mod Laws
pub mod Live
pub mod Block
use openharmony_mac_build.Common.{
  ℕ, minus_one, Bool, true, false, Option, none, some, List, [], ◌∷◌, if◌then◌else◌, is_positive,
  ◌==◌,
}
use openharmony_mac_build.Service.Types.{
  Env, Proc, Result, ok, fails, failure, stopping, stopped, kill, close_sockets, close_files, call,
  set_attr, set_pid, run_job, notify,
}
use openharmony_mac_build.Service.Fds.{close_service_fds}
use openharmony_mac_build.Service.Timer.{service_stop_timer}

-- CloseServiceSocket, which lies elsewhere: the call, and what it leaves of the socket list.
unfoldable pub close_service_socket : Env → Proc → Proc
close_service_socket env p =
    let q = call close_sockets p in
    record q { svc = record q.svc { socket_fds = env.after_close q.svc.socket_fds } }

mark_stopping : Env → Proc → Proc
mark_stopping env p =
    let told = notify env stopping p in
    let worked = run_job told.svc.jobs.on_stop told in
    set_attr (record worked.svc.attr { need_restart = false; need_stop = true }) worked

-- What is released before the signal.
release : Env → Proc → Proc
unfolding close_service_socket
release env p =
    let closed = call close_files (close_service_socket env p) in
    let freed = if closed.svc.fd_count == 0 then closed else close_service_fds true closed in
    service_stop_timer env freed

signal : Env → Proc → Result
signal env p =
    let q = call (kill p.svc.pid (env.kill_signal p.svc.name)) p in
    if env.kill_ok q.trace then ok (notify env stopped (set_pid minus_one q)) else fails failure q

stop_marked : Env → Proc → Result
stop_marked env p = if is_positive p.svc.pid then signal env (release env p) else ok p

unfoldable pub service_stop : Env → Proc → Result
unfolding mark_stopping stop_marked release signal
service_stop env p = stop_marked env (mark_stopping env p)
