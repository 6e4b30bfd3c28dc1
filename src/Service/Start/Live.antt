-- ===== src/Service/Start/Live.antt =====
-- ServiceStart leaves no service that counts as started and has no process.
use openharmony_mac_build.Common.{
  ◌≡◌, String, Bool, true, false, not, ◌||◌, List, [], ◌∷◌, is_positive, arith, if◌then◌else◌,
}
use openharmony_mac_build.Service.Types.{
  Env, Proc, Status, started, call, fork, fork_before, run_hook, stat_path, run_job, set_attr,
  set_pid, report_start,
}
use openharmony_mac_build.Service.Frame.{notify-svc, run_job-svc}
use openharmony_mac_build.Service.Start.{Start, returns, child, service_start}

abbrev pub is_started : Status → Bool
is_started started = true
is_started s = false

-- A service whose status is `started` has a pid.
abbrev pub is_live : Proc → Bool
is_live p = not (is_started p.svc.status) || is_positive p.svc.pid

abbrev pub is_live_start : Start → Bool
is_live_start (returns c q) = is_live q
is_live_start (child e) = true

pub is_live-service_start :
    (env : Env) (args : List String) (p : Proc)
    → is_live p ≡ true
    → is_live_start (service_start env args p) ≡ true
unfolding service_start
is_live-service_start env [] p h = ground arith
is_live-service_start env (a ∷ as') p h =
    let q = set_attr (record p.svc.attr { need_restart = false; need_stop = false }) p in
    let r = call (run_hook fork_before) (call stat_path q) in
    let f = call fork (run_job r.svc.jobs.pre_start r) in
    let n = env.fork_result f.trace in
    ground (
      arith,
      run_job-svc r.svc.jobs.pre_start r,
      notify-svc env started
          (set_pid n (if env.is_on_demand f.svc.attr then f else call (report_start n) f)),
    )
