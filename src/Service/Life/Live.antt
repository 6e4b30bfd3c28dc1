-- ===== src/Service/Life/Live.antt =====
-- Through its whole life, a service that counts as started has a pid.
use openharmony_mac_build.Common.{
  ℤ, ◌≡◌, ◌∙◌, refl, ap, sym, [], Bool, true, Option, none, some, List, length, arith,
}
use openharmony_mac_build.Service.Types.{Env, Proc, run_job}
use openharmony_mac_build.Service.Frame.{run_job-svc}
use openharmony_mac_build.Service.Fds.{update_service_fds, close_service_fds}
use openharmony_mac_build.Service.Timer.{service_stop_timer}
use openharmony_mac_build.Service.Start.{Start, returns, child, service_start}
use openharmony_mac_build.Service.Start.Live.{is_live, is_live_start, is_live-service_start}
use openharmony_mac_build.Service.Stop.Live.{is_live-service_stop}
use openharmony_mac_build.Service.Reap.{
  Reaped, settled, in_child, null_read, service_reap, timer_start_process, timer_restart_process,
}
use openharmony_mac_build.Service.Reap.Live.{is_live_reaped, is_live-service_reap, is_live-timers}
use openharmony_mac_build.Service.Life.{
  Event, start, stop, dies, start_fires, restart_fires, cancel, start_in, restart_in, hold_fds,
  drop_fds, after_start, after_reap, handle, Reach, here, next,
}

abbrev is_live_option : Option Proc → Bool
is_live_option none = true
is_live_option (some p) = is_live p

is_live-after_start : (s : Start) → is_live_option (after_start s) ≡ is_live_start s
unfolding after_start
is_live-after_start (returns c p) = refl
is_live-after_start (child e) = refl

is_live-after_reap : (r : Reaped) → is_live_option (after_reap r) ≡ is_live_reaped r
unfolding after_reap
is_live-after_reap (settled p) = refl
is_live-after_reap (in_child e) = refl
is_live-after_reap (null_read p) = refl

module _ (env : Env) where
  is_live-fds :
      (ys : List ℤ) (b : Bool) (p : Proc)
      → (is_live (update_service_fds env (some ys) (length ys) p).1 ≡ is_live p)
        × (is_live (close_service_fds b p) ≡ is_live p)
  unfolding update_service_fds close_service_fds
  is_live-fds ys b p = ground arith

  is_live-timer_start :
      (p : Proc) → is_live p ≡ true → is_live_start (timer_start_process env p) ≡ true
  unfolding timer_start_process
  is_live-timer_start p h =
      let q = service_stop_timer env p in
      is_live-service_start env q.svc.path_args q ((is_live-timers env 0 p).2 ∙ h)

  is_live-timer_restart :
      (p : Proc) → is_live p ≡ true → is_live_start (timer_restart_process env p) ≡ true
  unfolding timer_restart_process
  is_live-timer_restart p h =
      let q = service_stop_timer env p in
      let r = run_job q.svc.jobs.on_restart q in
      is_live-service_start env r.svc.path_args r
        (ground (arith, run_job-svc q.svc.jobs.on_restart q, is_live-timers env 0 p))

  is_live-handle :
      (e : Event) (p : Proc) → is_live p ≡ true → is_live_option (handle env e p) ≡ true
  unfolding handle
  is_live-handle (start args) p h =
      is_live-after_start (service_start env args p) ∙ is_live-service_start env args p h
  is_live-handle stop p h = is_live-service_stop env p
  is_live-handle dies p h = is_live-after_reap (service_reap env p) ∙ is_live-service_reap env p
  is_live-handle start_fires p h =
      is_live-after_start (timer_start_process env p) ∙ is_live-timer_start p h
  is_live-handle restart_fires p h =
      is_live-after_start (timer_restart_process env p) ∙ is_live-timer_restart p h
  is_live-handle cancel p h = (is_live-timers env 0 p).2 ∙ h
  is_live-handle (start_in t) p h = (is_live-timers env t p).0 ∙ h
  is_live-handle (restart_in t) p h = (is_live-timers env t p).1 ∙ h
  is_live-handle (hold_fds ys) p h = (is_live-fds ys true p).0 ∙ h
  is_live-handle (drop_fds b) p h = (is_live-fds [] b p).1 ∙ h

-- From a service that has a pid if its status is `started`, every sequence of operations, under any
-- answers of the system, leads to a service of which this holds too.
pub is_live-Reach : {p q : Proc} → is_live p ≡ true → Reach p q → is_live q ≡ true
is_live-Reach h here = h
is_live-Reach h (next {p} env e r d) =
    sym (ap is_live_option d) ∙ is_live-handle env e p (is_live-Reach h r)
