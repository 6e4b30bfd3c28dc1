-- ===== src/Service/Start/Laws.antt =====
-- When a service is started, and when it is not.
use openharmony_mac_build.Common.{
  ℕ, ◌+◌, ◌≡◌, refl, ◌⊎◌, pos, String, true, false, List, [], ◌∷◌, if◌then◌else◌, is_positive,
  arith, suc,
}
use openharmony_mac_build.Service.Types.{
  Env, Proc, Trace, started, fork, stat_path, run_hook, fork_before, success, failure, epath,
  run_job, call, set_attr, set_errno, set_pid, report_start, state_of,
}
use openharmony_mac_build.Service.Frame.{
  notify-svc, run_job-svc, forks, forks-notify, forks-run_job,
}
use openharmony_mac_build.Service.Start.{
  Start, returns, child, forked, service_start, is_service_invalid,
}

-- Starting a service that runs changes nothing and makes no call.
pub service_start_running :
    (env : Env) (args : List String) (p : Proc)
    → is_positive p.svc.pid ≡ true
    → service_start env args p ≡ returns success p
unfolding service_start
service_start_running env [] p h = ground arith
service_start_running env (a ∷ as') p h = ground arith

-- What ServiceStart promises of a return in init: on success the service has a pid, and has the
-- status `started` unless it ran before; on failure it has none.
abbrev pub Promise : Start → Proc → Type 0
Promise (returns success q) p =
    (is_positive q.svc.pid ≡ true) × ((q ≡ p) ⊎ (q.svc.status ≡ started))
Promise (returns c q) p = (q.svc.pid ≡ p.svc.pid) × (is_positive q.svc.pid ≡ false)
Promise (child e) p = Unit {0}

is_service_invalid-pid :
    (env : Env) (path : String) (p : Proc)
    → (state_of (is_service_invalid env path p)).svc.pid ≡ p.svc.pid
unfolding is_service_invalid
is_service_invalid-pid env path p = ground arith

-- ServiceStart keeps its promise, whatever the system answers: a success in init leaves a pid, and
-- the status `started` unless nothing was done; a failure leaves the pid as it was, not positive.
pub service_start-Promise :
    (env : Env) (args : List String) (p : Proc) → Promise (service_start env args p) p
unfolding service_start
service_start-Promise env [] p = ground arith
service_start-Promise env (a ∷ as') p =
    let q = set_attr (record p.svc.attr { need_restart = false; need_stop = false }) p in
    let r = call (run_hook fork_before) (call stat_path q) in
    let f = call fork (run_job r.svc.jobs.pre_start r) in
    let n = env.fork_result f.trace in
    ground (
      arith,
      run_job-svc r.svc.jobs.pre_start r,
      notify-svc env started
          (set_pid n (if env.is_on_demand f.svc.attr then f else call (report_start n) f)),
    )

-- A service that is valid and down, whose program is missing, fails to start with the code of a
-- missing path; from then on a start of the same program fails at once and changes nothing.
pub service_start_missing :
    (env : Env) (a : String) (as' : List String) (p : Proc)
    → is_positive p.svc.pid ≡ false
    → p.svc.attr.invalid ≡ false
    → env.path_exists (stat_path ∷ p.trace) a ≡ false
    → (q : Proc) × (service_start env (a ∷ as') p ≡ returns failure q)
      × (q.svc.last_errno ≡ epath)
      × (service_start env (a ∷ as') q ≡ returns failure q)
unfolding service_start
service_start_missing env a as' p down valid gone = (
  set_errno epath (
      set_attr (record p.svc.attr { need_restart = false; need_stop = false; invalid = true })
        (call stat_path p)),
  ground arith,
  refl,
  ground arith,
)

-- A valid service that is down, whose program exists, is forked once if the fork gives a pid: the
-- parent records this pid and the status `started`, and returns success.
pub service_start_records :
    (env : Env) (a : String) (as' : List String) (p : Proc) (n : ℕ)
    → is_positive p.svc.pid ≡ false
    → p.svc.attr.invalid ≡ false
    → env.path_exists (stat_path ∷ p.trace) a ≡ true
    → ((t : Trace) → env.fork_result t ≡ pos (suc n))
    → (q : Proc) × (service_start env (a ∷ as') p ≡ returns success q)
      × (q.svc.pid ≡ pos (suc n))
      × (q.svc.status ≡ started)
      × (forks q.trace ≡ forks p.trace + 1)
unfolding service_start
service_start_records env a as' p n down valid there forked_as =
    let q = set_attr (record p.svc.attr { need_restart = false; need_stop = false }) p in
    let r = call (run_hook fork_before) (call stat_path q) in
    let f = call fork (run_job r.svc.jobs.pre_start r) in
    let g =
      set_pid (pos (suc n))
        (if env.is_on_demand f.svc.attr then f else call (report_start (pos (suc n))) f) in
    (
      forked env (pos (suc n)) f,
      ground (arith, forked_as f.trace),
      ground (arith, notify-svc env started g),
      ground (arith, notify-svc env started g),
      ground (arith, forks-notify env started g, forks-run_job r.svc.jobs.pre_start r),
    )
