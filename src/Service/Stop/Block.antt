-- ===== src/Service/Stop/Block.antt =====
-- ServiceStop keeps the block of descriptors that init holds for a service sound.
use openharmony_mac_build.Common.{
  ◌≡◌, ap, true, ◌==◌, arith, if◌then◌else◌, minus_one, is_positive, inl, inr, Bool-cases,
}
use openharmony_mac_build.Service.Types.{
  Env, Proc, stopping, stopped, notify, call, set_pid, kill, state_of, close_files,
}
use openharmony_mac_build.Service.Frame.{notify-svc, run_job-svc}
use openharmony_mac_build.Service.Fds.{close_service_fds}
use openharmony_mac_build.Service.Fds.Held.{IsSound, close_service_fds_lem}
use openharmony_mac_build.Service.Timer.{service_stop_timer}
use openharmony_mac_build.Service.Start.Block.{block}
use openharmony_mac_build.Service.Stop.{
  close_service_socket, mark_stopping, release, signal, stop_marked, service_stop,
}

pub IsSound-block : (p q : Proc) → block q ≡ block p → IsSound p.svc → IsSound q.svc
IsSound-block p q e s =
    let f : q.svc.fds ≡ p.svc.fds = ap (λ b. b.0) e in
    let n : q.svc.fd_count ≡ p.svc.fd_count = ap (λ b. b.1) e in ground (arith, f, n)

module _ (env : Env) where
  block-mark_stopping : (p : Proc) → block (mark_stopping env p) ≡ block p
  unfolding mark_stopping
  block-mark_stopping p =
      let told = notify env stopping p in
      ground (arith, notify-svc env stopping p, run_job-svc told.svc.jobs.on_stop told)

  block-signal : (p : Proc) → block (state_of (signal env p)) ≡ block p
  unfolding signal
  block-signal p =
      let r = set_pid minus_one (call (kill p.svc.pid (env.kill_signal p.svc.name)) p) in
      ground (arith, notify-svc env stopped r)

  block-service_stop_timer : (p : Proc) → block (service_stop_timer env p) ≡ block p
  unfolding service_stop_timer
  block-service_stop_timer p = ground arith

  release-IsSound : (p : Proc) → IsSound p.svc → IsSound (release env p).svc
  unfolding release close_service_socket
  release-IsSound p s =
      let closed = call close_files (close_service_socket env p) in
      let freed = if closed.svc.fd_count == 0 then closed else close_service_fds true closed in
      IsSound-block freed (service_stop_timer env freed) (block-service_stop_timer freed)
        (elim (Bool-cases (closed.svc.fd_count == 0)) [
          | inl e ↦ simp e s
          | inr e ↦ simp e (close_service_fds_lem true closed s).2
        ])

  pub service_stop-IsSound :
      (p : Proc) → IsSound p.svc → IsSound (state_of (service_stop env p)).svc
  unfolding service_stop stop_marked
  service_stop-IsSound p s =
      let q = mark_stopping env p in
      let t = IsSound-block p q (block-mark_stopping p) s in
      elim (Bool-cases (is_positive q.svc.pid)) [
        | inr e ↦ simp e t
        | inl e ↦ simp e (
            IsSound-block (release env q) (state_of (signal env (release env q)))
              (block-signal (release env q)) (release-IsSound q t))
      ]
