-- ===== src/Service/Child.antt =====
-- The child of a fork: RunChildProcess and InitServiceProperties of init_common_service.c, and
-- ServiceExec of standard/init_service.c. The messages to /dev/kmsg are left out, and so is the code
-- of debug builds.
pub mod Errors
use openharmony_mac_build.Common.{
  ℕ, zero, suc, ℤ, pos, String, str_eq, Bool, true, false, not, ◌&&◌, ◌||◌, Option, none, some,
  List, [], ◌∷◌, if◌then◌else◌, ◌==◌, is_empty,
}
use openharmony_mac_build.Service.Types.{
  Env, Proc, Service, Result, ok, fails, fault, Code, econtent, esandbox, eaccesstoken, esocket,
  errno_value, efile, econsole, eholder, epriority, eexec, enter, set_env, close_fd, setpriority,
  execv, write_pid_file, open_hidebug, call, check_call, set_errno, run_job, ◌>>=◌, Trace, failure,
}
use openharmony_mac_build.Service.Fds.{
  publish_hold_fds, Published, nothing_held, bad_format, out_of_bounds, set_variable,
}
use openharmony_mac_build.Service.Perms.{set_perms}

-- SetServiceEnterSandbox returns 0 before it looks at anything.
enter_sandbox : Proc → Bool
enter_sandbox p = true

-- A step whose failure is recorded and passed over.
warn_unless : Bool → Code → Proc → Proc
warn_unless done c p = if done then p else set_errno c p

set_access_token : Env → Proc → Proc
unfolding warn_unless
set_access_token env p =
    let q = call (enter "SetSelfTokenID") p in warn_unless (env.step_ok q.trace) eaccesstoken q

set_service_env : Option (List (String × String)) → Proc → Proc
set_service_env none p = p
set_service_env (some []) p = p
set_service_env (some ((k, v) ∷ vs)) p =
    set_service_env (some vs) (if str_eq k "" || str_eq v "" then p else call (set_env k v) p)

clear_environment : Proc → Proc
clear_environment p =
    if str_eq p.svc.name "appspawn" || str_eq p.svc.name "nwebspawn"
    then p
    else call (enter "sigprocmask") p

create_socket : Env → Proc → Result
create_socket env p =
    if env.is_on_demand p.svc.attr
    then ok p
    else check_call env.step_ok esocket (enter "CreateSocketForService") p

open_console : Env → Proc → Result
open_console env p =
    if p.svc.attr.console then check_call env.step_ok econsole (enter "OpenConsole") p else ok p

open_kmsg : Proc → Proc
open_kmsg p = if p.svc.attr.kmsg then call (enter "OpenKmsg") p else p

publish_fds : Published → Proc → Result
publish_fds nothing_held p = ok p
publish_fds (bad_format q) p = fails eholder q
publish_fds (out_of_bounds q) p = fault q
publish_fds (set_variable done q) p = if done then ok q else fails eholder q

bind_cpu_core : Option ℕ → Proc → Proc
bind_cpu_core none p = p
bind_cpu_core (some zero) p = p
bind_cpu_core (some (suc n)) p = call (enter "sched_setaffinity") p

write_pids : List (Option String) → Proc → Proc
write_pids [] p = p
write_pids (none ∷ fs) p = write_pids fs p
write_pids (some f ∷ fs) p = write_pids fs (call (write_pid_file f) p)

-- `service->lastErrno = code; return code`
note_errno : Result → Result
note_errno (ok p) = ok p
note_errno (fails c p) = fails c (set_errno c p)
note_errno (fault p) = fault p

prepare : Env → Proc → Proc
unfolding enter_sandbox warn_unless set_access_token set_service_env clear_environment
prepare env p =
    let tried = warn_unless (enter_sandbox p) esandbox p in
    let named = set_service_env tried.svc.env_vars (set_access_token env tried) in
    clear_environment (run_job named.svc.jobs.on_start named)

unfoldable pub init_service_properties : Env → Proc → Result
unfolding prepare create_socket open_console open_kmsg publish_fds bind_cpu_core write_pids
    note_errno
init_service_properties env p0 = do
  p1 ← note_errno (create_socket env (prepare env p0))
  p2 ← note_errno (
      check_call env.step_ok efile (enter "CreateServiceFile")
        (call (enter "SetSocketEnvForService") p1))
  p3 ← note_errno (open_console env p2)
  p4 ← note_errno (publish_fds (publish_hold_fds env (open_kmsg p3)) (open_kmsg p3))
  p5 ←
      note_errno
        (set_perms env (write_pids p4.svc.write_pid_args (bind_cpu_core p4.svc.cpu_set p4)))
  ok (call (enter "setServiceContent") p5)

abbrev is_zero : ℤ → Bool
is_zero (pos n) = n == 0
is_zero n = false

set_priority : Env → Proc → Result
set_priority env p =
    let q = call (setpriority p.svc.importance) p in
    if is_zero p.svc.importance
    then ok p
    else if env.step_ok q.trace
    then ok q
    else fails failure (set_errno epriority q)

exec_program : Env → Proc → Result
exec_program env p =
    let q = call execv (call open_hidebug p) in
    if env.step_ok q.trace
    then ok q
    else fails (errno_value (env.errno q.trace)) (set_errno eexec q)

-- ServiceExec. `ok` means that the program has taken the place of the child.
unfoldable pub service_exec : Env → List String → Proc → Result
unfolding set_priority exec_program
service_exec env [] p = fails failure p
service_exec env (a ∷ as') p = do q ← set_priority env p; exec_program env q

-- CloseOnDemandServiceFdForOtherService.
close_all : List ℤ → Proc → Proc
close_all [] p = p
close_all (x ∷ xs) p = close_all xs (call (close_fd x) p)

close_others : List (Bool × List ℤ) → Proc → Proc
unfolding close_all
close_others [] p = p
close_others ((own, xs) ∷ os) p = close_others os (if own then p else close_all xs p)

set_context : Env → Proc → Proc
unfolding warn_unless
set_context env p =
    if p.svc.main_context
    then p
    else (let q = call (enter "SetSubInitContext") p in
        warn_unless (env.step_ok q.trace) econtent q)

-- How the child ends: as the program, by `_exit` of a code, or by a fault.
pub data ChildEnd : Type 0 where
  execs : Proc → ChildEnd
  exits : Code → Proc → ChildEnd
  crashes : Proc → ChildEnd

child_end : Result → ChildEnd
child_end (ok p) = execs p
child_end (fails c p) = exits p.svc.last_errno p
child_end (fault p) = crashes p

unfoldable pub run_child_process : Env → List String → Proc → ChildEnd
unfolding set_context close_others child_end
run_child_process env args p = child_end (do
  q ← init_service_properties env (close_others env.on_demand_sockets (set_context env p))
  service_exec env args q)
