-- ===== src/Service/Stop/Laws.antt =====
-- What ServiceStop leaves behind.
use openharmony_mac_build.Common.{
  ◌≡◌, refl, minus_one, Bool, true, false, if◌then◌else◌, is_positive, ◌==◌, arith, Bool-cases, inl,
  inr,
}
use openharmony_mac_build.Service.Types.{
  Env, Proc, Attr, Result, ok, stopping, stopped, notify, state_of, call, set_pid, kill,
  close_files,
}
use openharmony_mac_build.Service.Frame.{
  notify-svc, forks, forks-notify, forks-run_job, run_job-svc, forks-close_service_fds,
  forks-service_stop_timer, close_service_fds-attr,
}
use openharmony_mac_build.Service.Fds.{close_service_fds}
use openharmony_mac_build.Service.Timer.{service_stop_timer}
use openharmony_mac_build.Service.Stop.{
  close_service_socket, mark_stopping, release, signal, stop_marked, service_stop,
}

-- Clearing the timer bit leaves the bits that the file names alone.
pub record KeepsBits (env : Env) : Type 0 where
  pub keeps_stop : (a : Attr) → (env.disable_timer a).need_stop ≡ a.need_stop
  pub keeps_restart : (a : Attr) → (env.disable_timer a).need_restart ≡ a.need_restart

abbrev pub is_ok : Result → Bool
is_ok (ok p) = true
is_ok r = false

-- What every return of ServiceStop has in common: the service is marked as stopped on purpose, and
-- init has not forked.
pub record IsMarked (p q : Proc) : Type 0 where
  pub stop : q.svc.attr.need_stop ≡ true
  pub no_restart : q.svc.attr.need_restart ≡ false
  pub same_forks : forks q.trace ≡ forks p.trace

module _ (env : Env) where
  mark_stopping-IsMarked : (p : Proc) → IsMarked p (mark_stopping env p)
  unfolding mark_stopping
  mark_stopping-IsMarked p =
      let told = notify env stopping p in
      ground (
        arith,
        forks-notify env stopping p,
        forks-run_job told.svc.jobs.on_stop told,
        run_job-svc told.svc.jobs.on_stop told,
      )

  service_stop_timer-bits :
      (p : Proc)
      → KeepsBits env
      → ((service_stop_timer env p).svc.attr.need_stop ≡ p.svc.attr.need_stop)
        × ((service_stop_timer env p).svc.attr.need_restart ≡ p.svc.attr.need_restart)
  unfolding service_stop_timer
  service_stop_timer-bits p k = ground (arith, k.keeps_stop p.svc.attr, k.keeps_restart p.svc.attr)

  closed_fds : Proc → Proc
  unfolding close_service_socket
  closed_fds p =
      let closed = call close_files (close_service_socket env p) in
      if closed.svc.fd_count == 0 then closed else close_service_fds true closed

  closed_fds-IsMarked : (p q : Proc) → IsMarked p q → IsMarked p (closed_fds q)
  unfolding closed_fds
  closed_fds-IsMarked p q m =
      let closed = call close_files (close_service_socket env q) in
      ground (arith, forks-close_service_fds true closed, close_service_fds-attr true closed)

  release-closed_fds : (q : Proc) → release env q ≡ service_stop_timer env (closed_fds q)
  unfolding release closed_fds
  release-closed_fds q = refl

  release-IsMarked : (p q : Proc) → KeepsBits env → IsMarked p q → IsMarked p (release env q)
  release-IsMarked p q k m = rw (release-closed_fds q) (
      ground (
        arith,
        closed_fds-IsMarked p q m,
        service_stop_timer-bits (closed_fds q) k,
        forks-service_stop_timer env (closed_fds q),
      ))

  signal-IsMarked : (p q : Proc) → IsMarked p q → IsMarked p (state_of (signal env q))
  unfolding signal
  signal-IsMarked p q m =
      let r = set_pid minus_one (call (kill q.svc.pid (env.kill_signal q.svc.name)) q) in
      ground (arith, notify-svc env stopped r, forks-notify env stopped r)

  stop_marked-IsMarked :
      (p q : Proc) → KeepsBits env → IsMarked p q → IsMarked p (state_of (stop_marked env q))
  unfolding stop_marked
  stop_marked-IsMarked p q k m = elim (Bool-cases (is_positive q.svc.pid)) [
    | inl e ↦ simp e (signal-IsMarked p (release env q) (release-IsMarked p q k m))
    | inr e ↦ simp e m
  ]

  -- Whether or not the process could be signalled, ServiceStop marks the service and does not fork.
  pub service_stop-IsMarked :
      (p : Proc) → KeepsBits env → IsMarked p (state_of (service_stop env p))
  unfolding service_stop
  service_stop-IsMarked p k =
      stop_marked-IsMarked p (mark_stopping env p) k (mark_stopping-IsMarked p)

  signal-down :
      (q : Proc)
      → is_ok (signal env q) ≡ true
      → ((state_of (signal env q)).svc.pid ≡ minus_one)
        × ((state_of (signal env q)).svc.status ≡ stopped)
  unfolding signal
  signal-down q h =
      let r = set_pid minus_one (call (kill q.svc.pid (env.kill_signal q.svc.name)) q) in
      ground (arith, notify-svc env stopped r)

  stop_marked-down :
      (q : Proc)
      → is_ok (stop_marked env q) ≡ true
      → is_positive (state_of (stop_marked env q)).svc.pid ≡ false
  unfolding stop_marked
  stop_marked-down q h = ground (arith, signal-down (release env q))

  -- After a stop that succeeds the service has no positive pid.
  pub service_stop_down :
      (p : Proc)
      → is_ok (service_stop env p) ≡ true
      → is_positive (state_of (service_stop env p)).svc.pid ≡ false
  unfolding service_stop
  service_stop_down p h = stop_marked-down (mark_stopping env p) h
