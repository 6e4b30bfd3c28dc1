-- ===== src/Service/Stop/Live.antt =====
-- ServiceStop leaves no service that counts as started and has no process.
use openharmony_mac_build.Common.{◌≡◌, ◌∙◌, ap, true, false, ◌==◌, arith, if◌then◌else◌, minus_one}
use openharmony_mac_build.Service.Types.{
  Env, Proc, stopping, stopped, notify, call, set_pid, kill, state_of, close_files,
}
use openharmony_mac_build.Service.Frame.{notify-svc, run_job-svc}
use openharmony_mac_build.Service.Fds.{close_service_fds}
use openharmony_mac_build.Service.Timer.{service_stop_timer}
use openharmony_mac_build.Service.Start.Live.{is_started, is_live}
use openharmony_mac_build.Service.Stop.{
  close_service_socket, mark_stopping, release, signal, stop_marked, service_stop,
}

module _ (env : Env) where
  mark_stopping-status : (p : Proc) → is_started (mark_stopping env p).svc.status ≡ false
  unfolding mark_stopping
  mark_stopping-status p =
      let told = notify env stopping p in
      ground (arith, notify-svc env stopping p, run_job-svc told.svc.jobs.on_stop told)

  is_live-signal :
      (p : Proc) → is_started p.svc.status ≡ false → is_live (state_of (signal env p)) ≡ true
  unfolding signal
  is_live-signal p s =
      let r = set_pid minus_one (call (kill p.svc.pid (env.kill_signal p.svc.name)) p) in
      ground (arith, notify-svc env stopped r)

  close_service_fds-status : (p : Proc) → (close_service_fds true p).svc.status ≡ p.svc.status
  unfolding close_service_fds
  close_service_fds-status p = ground arith

  service_stop_timer-status : (p : Proc) → (service_stop_timer env p).svc.status ≡ p.svc.status
  unfolding service_stop_timer
  service_stop_timer-status p = ground arith

  release-status : (p : Proc) → (release env p).svc.status ≡ p.svc.status
  unfolding release close_service_socket
  release-status p =
      let closed = call close_files (close_service_socket env p) in
      let freed = if closed.svc.fd_count == 0 then closed else close_service_fds true closed in
      service_stop_timer-status freed ∙ ground (arith, close_service_fds-status closed)

  pub is_live-service_stop : (p : Proc) → is_live (state_of (service_stop env p)) ≡ true
  unfolding service_stop stop_marked
  is_live-service_stop p =
      let q = mark_stopping env p in
      ground (
        arith,
        mark_stopping-status p,
        is_live-signal (release env q) (ap is_started (release-status q) ∙ mark_stopping-status p),
      )
