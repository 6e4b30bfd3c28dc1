-- ===== src/Service/Reap/Live.antt =====
-- ServiceReap leaves no service that counts as started and has no process.
use openharmony_mac_build.Common.{
  ℕ, ◌≡◌, refl, ap, ◌∙◌, ℤ, minus_one, Bool, true, false, not, ◌||◌, Option, none, some, List, [],
  ◌∷◌, is_positive, arith,
}
use openharmony_mac_build.Service.Types.{
  Env, Proc, Cmd, stopped, notify, call, do_cmd, set_pid, add_watcher, run_job, Service,
}
use openharmony_mac_build.Service.Frame.{notify-svc}
use openharmony_mac_build.Service.Timer.{
  service_start_timer, service_restart_timer, service_stop_timer,
}
use openharmony_mac_build.Service.Crash.{calculate_crash_time, set_crashes}
use openharmony_mac_build.Service.Start.{Start, returns, child, service_start}
use openharmony_mac_build.Service.Start.Live.{
  is_started, is_live, is_live_start, is_live-service_start,
}
use openharmony_mac_build.Service.Stop.{close_service_socket}
use openharmony_mac_build.Service.Reap.{
  Reaped, settled, in_child, null_read, do_cmds, exec_cmds, check_sockets, watch, check_console,
  check_ondemand_service, restarted, restart, panic, reap_critical, reap_crashed, reap_unbidden,
  reap_running, close_dead, reap_closed, service_reap, def_crash_time,
}

abbrev pub is_live_reaped : Reaped → Bool
is_live_reaped (settled q) = is_live q
is_live_reaped (in_child e) = true
is_live_reaped (null_read q) = true

-- Arming and stopping a timer leave the status and the pid alone.
pub is_live-timers :
    (env : Env) (t : ℕ) (p : Proc)
    → (is_live (service_start_timer env t p) ≡ is_live p)
      × (is_live (service_restart_timer env t p) ≡ is_live p)
      × (is_live (service_stop_timer env p) ≡ is_live p)
unfolding service_start_timer service_restart_timer service_stop_timer
is_live-timers env t p = ground arith

do_cmds-svc : (cs : List Cmd) (p : Proc) → (do_cmds cs p).svc ≡ p.svc
unfolding do_cmds
do_cmds-svc [] p = refl
do_cmds-svc (c ∷ cs) p = do_cmds-svc cs (call (do_cmd c.index c.content) p)

is_live-exec_cmds : (cs : Option (List Cmd)) (p : Proc) → is_live (exec_cmds cs p) ≡ is_live p
unfolding exec_cmds
is_live-exec_cmds none p = refl
is_live-exec_cmds (some cs) p =
    ap (λ (s : Service). not (is_started s.status) || is_positive s.pid) (do_cmds-svc cs p)

is_live-restarted : (s : Start) → is_live_reaped (restarted s) ≡ is_live_start s
unfolding restarted
is_live-restarted (returns c p) = refl
is_live-restarted (child e) = refl

is_live-run_job : (j : Option _) (p : Proc) → is_live (run_job j p) ≡ is_live p
is_live-run_job none p = refl
is_live-run_job (some j) p = refl

module _ (env : Env) where
  is_live-restart : (p : Proc) → is_live p ≡ true → is_live_reaped (restart env p) ≡ true
  unfolding restart
  is_live-restart p h =
      let q = exec_cmds p.svc.restart_arg p in
      let r = run_job q.svc.jobs.on_restart q in
      rw (is_live-restarted (service_start env r.svc.path_args r)) (
        is_live-service_start env r.svc.path_args r
          (rw (is_live-run_job q.svc.jobs.on_restart q, is_live-exec_cmds p.svc.restart_arg p) h))

  is_live-check_sockets :
      (xs : List ℤ) (p : Proc) → is_live p ≡ true → is_live_reaped (check_sockets xs p) ≡ true
  unfolding check_sockets
  is_live-check_sockets [] p h = h
  is_live-check_sockets (x ∷ []) p h = ground arith
  is_live-check_sockets (x ∷ y ∷ xs) p h = ground (
    arith,
    is_live-check_sockets (y ∷ xs) (call (add_watcher x) p) h,
    is_live-check_sockets xs (call (add_watcher y) p) h,
  )

  is_live-check_console :
      (r : Reaped) → is_live_reaped r ≡ true → is_live_reaped (check_console env r) ≡ true
  unfolding check_console watch
  is_live-check_console (settled p) h = ground arith
  is_live-check_console (in_child e) h = refl
  is_live-check_console (null_read p) h = refl

  crash-status : (t c : ℕ) (p : Proc) → (calculate_crash_time env t c p).1.svc.status ≡ p.svc.status
  unfolding calculate_crash_time
  crash-status t c p = ground arith

  is_live-reap_critical :
      (dead : ℤ) (r : Bool × Proc)
      → is_started r.1.svc.status ≡ false
      → is_live_reaped (reap_critical env dead r) ≡ true
  unfolding reap_critical panic
  is_live-reap_critical dead (true, p) s = is_live-restart p (ground arith)
  is_live-reap_critical dead (false, p) s = is_live-restart (panic dead p) (ground arith)

  is_live-reap_crashed :
      (r : Bool × Proc)
      → is_started r.1.svc.status ≡ false
      → is_live_reaped (reap_crashed env r) ≡ true
  unfolding reap_crashed
  is_live-reap_crashed (true, p) s = is_live-restart p (ground arith)
  is_live-reap_crashed (false, p) s =
      let q = set_crashes 0 p.svc.first_crash_time p in
      ground (arith, is_live-timers env def_crash_time q)

  is_live-reap_unbidden :
      (dead : ℤ) (p : Proc)
      → is_started p.svc.status ≡ false
      → is_live_reaped (reap_unbidden env dead p) ≡ true
  unfolding reap_unbidden
  is_live-reap_unbidden dead p s =
      let r = calculate_crash_time env p.svc.crash_time p.svc.crash_count p in
      let e = ap is_started (crash-status p.svc.crash_time p.svc.crash_count p) in
      ground (
        arith,
        is_live-restart p (ground arith),
        is_live-reap_critical dead r (e ∙ s),
        is_live-reap_crashed r (e ∙ s),
      )

  is_live-reap_running :
      (dead : ℤ) (p : Proc)
      → is_started p.svc.status ≡ false
      → is_live_reaped (reap_running env dead p) ≡ true
  unfolding reap_running check_ondemand_service
  is_live-reap_running dead p s = ground (
    arith,
    is_live-timers env p.svc.timer_period p,
    is_live-reap_unbidden dead p s,
    is_live-check_console (check_sockets p.svc.socket_fds p)
        (is_live-check_sockets p.svc.socket_fds p (ground arith)),
  )

  close_dead-status : (p : Proc) → (close_dead env p).svc.status ≡ p.svc.status
  unfolding close_dead close_service_socket
  close_dead-status p = ground arith

  pub is_live-service_reap : (p : Proc) → is_live_reaped (service_reap env p) ≡ true
  unfolding service_reap reap_closed
  is_live-service_reap p =
      let q = set_pid minus_one (notify env stopped p) in
      let e = ap is_started (close_dead-status q) in
      ground (
        arith,
        notify-svc env stopped p,
        close_dead-status q,
        is_live-reap_running p.svc.pid (close_dead env q),
      )
