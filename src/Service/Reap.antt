-- ===== src/Service/Reap.antt =====
-- ServiceReap of init_common_service.c, ExecRestartCmd, CheckServiceSocket, CheckOndemandService and
-- the two timer callbacks: what init does when the process of a service has died.
pub mod Laws
pub mod Live
pub mod Block
use openharmony_mac_build.Common.{
  ℕ, ℤ, minus_one, String, str_eq, Bool, true, false, not, ◌&&◌, Option, none, some, List, [], ◌∷◌,
  if◌then◌else◌, is_positive,
}
use openharmony_mac_build.Service.Types.{
  Env, Proc, Result, ok, fails, fault, Cmd, Code, stopped, close_files, add_watcher, watch_console,
  do_cmd, exec_reboot, run_hook, reap_hook, call, set_attr, set_pid, run_job, notify,
}
use openharmony_mac_build.Service.Timer.{
  service_start_timer, service_restart_timer, service_stop_timer,
}
use openharmony_mac_build.Service.Crash.{calculate_crash_time, set_crashes}
use openharmony_mac_build.Service.Child.{ChildEnd}
use openharmony_mac_build.Service.Start.{Start, returns, child, service_start}
use openharmony_mac_build.Service.Stop.{close_service_socket}

-- How the reaping ends: in init, in a forked child, or by a read through a null pointer.
pub data Reaped : Type 0 where
  settled : Proc → Reaped
  in_child : ChildEnd → Reaped
  null_read : Proc → Reaped

abbrev pub def_crash_time : ℕ
def_crash_time = 240000

do_cmds : List Cmd → Proc → Proc
do_cmds [] p = p
do_cmds (c ∷ cs) p = do_cmds cs (call (do_cmd c.index c.content) p)

-- ExecRestartCmd: the commands of `restartArg`, which is then freed.
exec_cmds : Option (List Cmd) → Proc → Proc
unfolding do_cmds
exec_cmds none p = p
exec_cmds (some cs) p =
    let q = do_cmds cs p in record q { svc = record q.svc { restart_arg = none } }

-- CheckServiceSocket. A descriptor that is not positive is skipped, and the next one watched
-- unseen; after the last socket there is no next one.
unfoldable pub check_sockets : List ℤ → Proc → Reaped
check_sockets [] p = settled p
check_sockets (x ∷ []) p = if is_positive x then settled (call (add_watcher x) p) else null_read p
check_sockets (x ∷ y ∷ xs) p =
    let watched = check_sockets (y ∷ xs) (call (add_watcher x) p) in
    let skipped = check_sockets xs (call (add_watcher y) p) in
    if is_positive x then watched else skipped

watch : Env → Proc → Proc
watch env p =
    let q = call watch_console p in
    if env.watch_console_ok q.trace then q else set_attr (record q.svc.attr { invalid = true }) q

check_console : Env → Reaped → Reaped
unfolding watch
check_console env (settled p) =
    if str_eq p.svc.name "console" then settled (watch env p) else settled p
check_console env (in_child e) = in_child e
check_console env (null_read p) = null_read p

check_ondemand_service : Env → Proc → Reaped
unfolding check_sockets check_console
check_ondemand_service env p = check_console env (check_sockets p.svc.socket_fds p)

restarted : Start → Reaped
restarted (returns c p) = settled (set_attr (record p.svc.attr { need_restart = false }) p)
restarted (child e) = in_child e

-- The end of ServiceReap: the service is started again.
restart : Env → Proc → Reaped
unfolding exec_cmds restarted
restart env p =
    let q = exec_cmds p.svc.restart_arg p in
    let r = run_job q.svc.jobs.on_restart q in restarted (service_start env r.svc.path_args r)

-- A critical service that crashed too often: the hook sees the dead pid, and the system reboots.
panic : ℤ → Proc → Proc
panic dead p = call exec_reboot (set_pid minus_one (call (run_hook reap_hook) (set_pid dead p)))

reap_critical : Env → ℤ → Bool × Proc → Reaped
unfolding panic
reap_critical env dead (true, p) = restart env p
reap_critical env dead (false, p) = restart env (panic dead p)

reap_crashed : Env → Bool × Proc → Reaped
reap_crashed env (true, p) = restart env p
reap_crashed env (false, p) =
    settled (service_restart_timer env def_crash_time (set_crashes 0 p.svc.first_crash_time p))

abbrev crash : Env → Proc → Bool × Proc
crash env p = calculate_crash_time env p.svc.crash_time p.svc.crash_count p

reap_unbidden : Env → ℤ → Proc → Reaped
reap_unbidden env dead p =
    if p.svc.attr.critical
    then reap_critical env dead (crash env p)
    else (if p.svc.attr.need_restart then restart env p else reap_crashed env (crash env p))

pub reap_running : Env → ℤ → Proc → Reaped
reap_running env dead p =
    if p.svc.attr.once && not p.svc.attr.need_restart
    then settled (set_attr (record p.svc.attr { need_stop = false }) p)
    else if p.svc.attr.period
    then settled (service_start_timer env p.svc.timer_period p)
    else if env.is_on_demand p.svc.attr
    then check_ondemand_service env p
    else reap_unbidden env dead p

close_dead : Env → Proc → Proc
close_dead env p =
    call close_files (if env.is_on_demand p.svc.attr then p else close_service_socket env p)

reap_closed : Env → ℤ → Proc → Reaped
reap_closed env dead p =
    if p.svc.attr.need_stop
    then settled (
        set_crashes 0 p.svc.first_crash_time (set_attr (record p.svc.attr { need_stop = false }) p))
    else reap_running env dead p

unfoldable pub service_reap : Env → Proc → Reaped
unfolding close_dead reap_closed
service_reap env p0 =
    let dead = p0.svc.pid in
    let p = set_pid minus_one (notify env stopped p0) in
    if p.svc.attr.invalid
    then settled p
    else if env.is_timer_enabled p.svc.attr
    then settled p
    else reap_closed env dead (close_dead env p)

-- ServiceTimerStartProcess and ServiceTimerReStartProcess.
unfoldable pub timer_start_process : Env → Proc → Start
timer_start_process env p = let q = service_stop_timer env p in service_start env q.svc.path_args q

unfoldable pub timer_restart_process : Env → Proc → Start
timer_restart_process env p =
    let q = service_stop_timer env p in
    let r = run_job q.svc.jobs.on_restart q in service_start env r.svc.path_args r
