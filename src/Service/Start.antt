-- ===== src/Service/Start.antt =====
-- IsServiceInvalid and ServiceStart of init_common_service.c. The clock readings of ServiceStart feed
-- a log line alone and are left out.
pub mod Laws
pub mod Live
pub mod Block
use openharmony_mac_build.Common.{
  ℕ, ℤ, pos, negsuc, String, Bool, true, false, Option, none, some, List, [], ◌∷◌, if◌then◌else◌,
  ltb, is_positive, zero, suc,
}
use openharmony_mac_build.Service.Types.{
  Env, Proc, Service, Result, ok, fails, fault, Code, failure, efork, epath, started, fork,
  stat_path, run_hook, fork_before, fork_after, report_start, call, set_attr, set_errno, set_pid,
  run_job, notify, success,
}
use openharmony_mac_build.Service.Child.{ChildEnd, run_child_process}

-- What a call of ServiceStart comes to: a return in init, or the end of the forked child.
pub data Start : Type 0 where
  returns : Code → Proc → Start
  child : ChildEnd → Start

check_path : Env → String → Proc → Result
check_path env path p =
    let q = call stat_path p in
    if env.path_exists q.trace path
    then ok q
    else fails failure (set_errno epath (set_attr (record q.svc.attr { invalid = true }) q))

unfoldable pub is_service_invalid : Env → String → Proc → Result
unfolding check_path
is_service_invalid env path p =
    if p.svc.attr.invalid
    then fails failure p
    else check_path env path
        (set_attr (record p.svc.attr { need_restart = false; need_stop = false }) p)

report : Env → ℤ → Proc → Proc
report env n p = if env.is_on_demand p.svc.attr then p else call (report_start n) p

-- The parent's side, at the pid of the child.
forked : Env → ℤ → Proc → Proc
unfolding report
forked env n p = call (run_hook fork_after) (notify env started (set_pid n (report env n p)))

after_fork : Env → List String → ℤ → Proc → Start
unfolding forked
after_fork env args (pos zero) p = child (run_child_process env args p)
after_fork env args (pos (suc n)) p = returns success (forked env (pos (suc n)) p)
after_fork env args (negsuc n) p = returns failure (set_errno efork p)

start_valid : Env → List String → Result → Start
unfolding after_fork
start_valid env args (ok p) =
    let q = call fork (run_job p.svc.jobs.pre_start (call (run_hook fork_before) p)) in
    after_fork env args (env.fork_result q.trace) q
start_valid env args (fails c p) = returns failure p
start_valid env args (fault p) = returns failure p

-- ServiceStart. An empty list of arguments stands for a NULL one too.
unfoldable pub service_start : Env → List String → Proc → Start
unfolding is_service_invalid start_valid
service_start env [] p = if is_positive p.svc.pid then returns success p else returns failure p
service_start env (a ∷ as') p =
    if is_positive p.svc.pid
    then returns success p
    else start_valid env (a ∷ as') (is_service_invalid env a p)
