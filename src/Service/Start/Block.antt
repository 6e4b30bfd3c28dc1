-- ===== src/Service/Start/Block.antt =====
-- ServiceStart leaves the descriptors that init holds for a service alone.
use openharmony_mac_build.Common.{
  ◌≡◌, ℕ, ℤ, String, false, Option, List, [], ◌∷◌, arith, if◌then◌else◌,
}
use openharmony_mac_build.Service.Types.{
  Env, Proc, started, call, fork, fork_before, run_hook, stat_path, run_job, set_attr, set_pid,
  report_start,
}
use openharmony_mac_build.Service.Frame.{notify-svc, run_job-svc}
use openharmony_mac_build.Service.Start.{Start, returns, child, service_start}

-- The block behind `fds`, with the number of descriptors in it.
abbrev pub block : Proc → Option (List ℤ) × ℕ
block p = (p.svc.fds, p.svc.fd_count)

abbrev pub KeepsBlock : Start → Proc → Type 0
KeepsBlock (returns c q) p = block q ≡ block p
KeepsBlock (child e) p = Unit {0}

pub service_start-KeepsBlock :
    (env : Env) (args : List String) (p : Proc) → KeepsBlock (service_start env args p) p
unfolding service_start
service_start-KeepsBlock env [] p = ground arith
service_start-KeepsBlock env (a ∷ as') p =
    let q = set_attr (record p.svc.attr { need_restart = false; need_stop = false }) p in
    let r = call (run_hook fork_before) (call stat_path q) in
    let f = call fork (run_job r.svc.jobs.pre_start r) in
    let n = env.fork_result f.trace in
    ground (
      arith,
      run_job-svc r.svc.jobs.pre_start r,
      notify-svc env started
          (set_pid n (if env.is_on_demand f.svc.attr then f else call (report_start n) f)),
    )
