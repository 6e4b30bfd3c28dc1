-- ===== src/Service/Reap/Block.antt =====
-- ServiceReap leaves the descriptors that init holds for a service alone.
use openharmony_mac_build.Common.{
  ℕ, ◌≡◌, refl, ◌∙◌, ℤ, minus_one, Bool, true, false, Option, none, some, List, [], ◌∷◌, arith,
  String,
}
use openharmony_mac_build.Service.Types.{
  Env, Proc, Cmd, stopped, notify, call, do_cmd, set_pid, add_watcher, run_job,
}
use openharmony_mac_build.Service.Frame.{notify-svc}
use openharmony_mac_build.Service.Timer.{
  service_start_timer, service_restart_timer, service_stop_timer,
}
use openharmony_mac_build.Service.Crash.{calculate_crash_time, set_crashes}
use openharmony_mac_build.Service.Start.{Start, returns, child, service_start}
use openharmony_mac_build.Service.Start.Block.{block, KeepsBlock, service_start-KeepsBlock}
use openharmony_mac_build.Service.Stop.{close_service_socket}
use openharmony_mac_build.Service.Reap.{
  Reaped, settled, in_child, null_read, do_cmds, exec_cmds, check_sockets, watch, check_console,
  check_ondemand_service, restarted, restart, panic, reap_critical, reap_crashed, reap_unbidden,
  reap_running, close_dead, reap_closed, service_reap, def_crash_time,
}

abbrev pub ReapKeepsBlock : Reaped → Proc → Type 0
ReapKeepsBlock (settled q) p = block q ≡ block p
ReapKeepsBlock (in_child e) p = Unit {0}
ReapKeepsBlock (null_read q) p = Unit {0}

ReapKeepsBlock-trans :
    (r : Reaped) (p q : Proc) → block q ≡ block p → ReapKeepsBlock r q → ReapKeepsBlock r p
ReapKeepsBlock-trans (settled s) p q e k = k ∙ e
ReapKeepsBlock-trans (in_child s) p q e k = tt
ReapKeepsBlock-trans (null_read s) p q e k = tt

restarted-ReapKeepsBlock : (s : Start) (p : Proc) → KeepsBlock s p → ReapKeepsBlock (restarted s) p
unfolding restarted
restarted-ReapKeepsBlock (returns c q) p k = k
restarted-ReapKeepsBlock (child e) p k = tt

pub block-timers :
    (env : Env) (t : ℕ) (p : Proc)
    → (block (service_start_timer env t p) ≡ block p)
      × (block (service_restart_timer env t p) ≡ block p)
      × (block (service_stop_timer env p) ≡ block p)
unfolding service_start_timer service_restart_timer service_stop_timer
block-timers env t p = ground arith

block-do_cmds : (cs : List Cmd) (p : Proc) → block (do_cmds cs p) ≡ block p
unfolding do_cmds
block-do_cmds [] p = refl
block-do_cmds (c ∷ cs) p = block-do_cmds cs (call (do_cmd c.index c.content) p)

block-exec_cmds : (cs : Option (List Cmd)) (p : Proc) → block (exec_cmds cs p) ≡ block p
unfolding exec_cmds
block-exec_cmds none p = refl
block-exec_cmds (some cs) p = block-do_cmds cs p

pub block-run_job : (j : Option String) (p : Proc) → block (run_job j p) ≡ block p
block-run_job none p = refl
block-run_job (some j) p = refl

module _ (env : Env) where
  restart-ReapKeepsBlock : (p : Proc) → ReapKeepsBlock (restart env p) p
  unfolding restart
  restart-ReapKeepsBlock p =
      let q = exec_cmds p.svc.restart_arg p in
      let r = run_job q.svc.jobs.on_restart q in
      let s = service_start env r.svc.path_args r in
      ReapKeepsBlock-trans (restarted s) p r
        (block-run_job q.svc.jobs.on_restart q ∙ block-exec_cmds p.svc.restart_arg p)
        (restarted-ReapKeepsBlock s r (service_start-KeepsBlock env r.svc.path_args r))

  check_sockets-ReapKeepsBlock : (xs : List ℤ) (p : Proc) → ReapKeepsBlock (check_sockets xs p) p
  unfolding check_sockets
  check_sockets-ReapKeepsBlock [] p = refl
  check_sockets-ReapKeepsBlock (x ∷ []) p = ground arith
  check_sockets-ReapKeepsBlock (x ∷ y ∷ xs) p = ground (
    arith,
    check_sockets-ReapKeepsBlock (y ∷ xs) (call (add_watcher x) p),
    check_sockets-ReapKeepsBlock xs (call (add_watcher y) p),
  )

  check_console-ReapKeepsBlock :
      (r : Reaped) (p : Proc) → ReapKeepsBlock r p → ReapKeepsBlock (check_console env r) p
  unfolding check_console watch
  check_console-ReapKeepsBlock (settled q) p k = ground arith
  check_console-ReapKeepsBlock (in_child e) p k = tt
  check_console-ReapKeepsBlock (null_read q) p k = tt

  block-crash : (t c : ℕ) (p : Proc) → block (calculate_crash_time env t c p).1 ≡ block p
  unfolding calculate_crash_time
  block-crash t c p = ground arith

  reap_critical-ReapKeepsBlock :
      (dead : ℤ) (r : Bool × Proc) → ReapKeepsBlock (reap_critical env dead r) r.1
  unfolding reap_critical panic
  reap_critical-ReapKeepsBlock dead (true, p) = restart-ReapKeepsBlock p
  reap_critical-ReapKeepsBlock dead (false, p) =
      ReapKeepsBlock-trans (restart env (panic dead p)) p (panic dead p) refl
        (restart-ReapKeepsBlock (panic dead p))

  reap_crashed-ReapKeepsBlock : (r : Bool × Proc) → ReapKeepsBlock (reap_crashed env r) r.1
  unfolding reap_crashed
  reap_crashed-ReapKeepsBlock (true, p) = restart-ReapKeepsBlock p
  reap_crashed-ReapKeepsBlock (false, p) =
      (block-timers env def_crash_time (set_crashes 0 p.svc.first_crash_time p)).1

  reap_unbidden-ReapKeepsBlock : (dead : ℤ) (p : Proc) → ReapKeepsBlock (reap_unbidden env dead p) p
  unfolding reap_unbidden
  reap_unbidden-ReapKeepsBlock dead p =
      let r = calculate_crash_time env p.svc.crash_time p.svc.crash_count p in
      let e = block-crash p.svc.crash_time p.svc.crash_count p in
      ground (
        arith,
        restart-ReapKeepsBlock p,
        ReapKeepsBlock-trans (reap_critical env dead r) p r.1 e
            (reap_critical-ReapKeepsBlock dead r),
        ReapKeepsBlock-trans (reap_crashed env r) p r.1 e (reap_crashed-ReapKeepsBlock r),
      )

  reap_running-ReapKeepsBlock : (dead : ℤ) (p : Proc) → ReapKeepsBlock (reap_running env dead p) p
  unfolding reap_running check_ondemand_service
  reap_running-ReapKeepsBlock dead p = ground (
    arith,
    block-timers env p.svc.timer_period p,
    reap_unbidden-ReapKeepsBlock dead p,
    check_console-ReapKeepsBlock (check_sockets p.svc.socket_fds p) p
        (check_sockets-ReapKeepsBlock p.svc.socket_fds p),
  )

  block-close_dead : (p : Proc) → block (close_dead env p) ≡ block p
  unfolding close_dead close_service_socket
  block-close_dead p = ground arith

  reap_closed-ReapKeepsBlock : (dead : ℤ) (p : Proc) → ReapKeepsBlock (reap_closed env dead p) p
  unfolding reap_closed
  reap_closed-ReapKeepsBlock dead p = ground (arith, reap_running-ReapKeepsBlock dead p)

  pub service_reap-ReapKeepsBlock : (p : Proc) → ReapKeepsBlock (service_reap env p) p
  unfolding service_reap
  service_reap-ReapKeepsBlock p =
      let q = set_pid minus_one (notify env stopped p) in
      let e : block q ≡ block p = ground (arith, notify-svc env stopped p) in
      ground (
        arith,
        e,
        ReapKeepsBlock-trans (reap_closed env p.svc.pid (close_dead env q)) p (close_dead env q)
            (block-close_dead q ∙ e) (reap_closed-ReapKeepsBlock p.svc.pid (close_dead env q)),
      )
