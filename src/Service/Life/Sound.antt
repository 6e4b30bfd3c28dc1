-- ===== src/Service/Life/Sound.antt =====
-- Through its whole life, the descriptors that init holds for a service stand in a sound block.
use openharmony_mac_build.Common.{◌≡◌, ◌∙◌, refl, subst, Option, none, some}
use openharmony_mac_build.Service.Types.{Env, Proc, run_job}
use openharmony_mac_build.Service.Timer.{
  service_start_timer, service_restart_timer, service_stop_timer,
}
use openharmony_mac_build.Service.Start.{Start, returns, child, service_start}
use openharmony_mac_build.Service.Reap.{
  Reaped, settled, in_child, null_read, service_reap, timer_start_process, timer_restart_process,
}
use openharmony_mac_build.Service.Fds.Held.{
  IsSound, close_service_fds_lem, update_service_fds-IsSound,
}
use openharmony_mac_build.Service.Start.Block.{block, KeepsBlock, service_start-KeepsBlock}
use openharmony_mac_build.Service.Stop.Block.{IsSound-block, service_stop-IsSound}
use openharmony_mac_build.Service.Reap.Block.{
  ReapKeepsBlock, service_reap-ReapKeepsBlock, block-timers, block-run_job,
}
use openharmony_mac_build.Service.Life.{
  Event, start, stop, dies, start_fires, restart_fires, cancel, start_in, restart_in, hold_fds,
  drop_fds, after_start, after_reap, handle, Reach, here, next,
}

abbrev AllSound : Option Proc → Type 0
AllSound none = Unit {0}
AllSound (some p) = IsSound p.svc

after_start-AllSound :
    (s : Start) (p q : Proc)
    → KeepsBlock s q
    → block q ≡ block p
    → IsSound p.svc
    → AllSound (after_start s)
unfolding after_start
after_start-AllSound (returns c r) p q k e s = IsSound-block p r (k ∙ e) s
after_start-AllSound (child c) p q k e s = tt

after_reap-AllSound :
    (r : Reaped) (p : Proc) → ReapKeepsBlock r p → IsSound p.svc → AllSound (after_reap r)
unfolding after_reap
after_reap-AllSound (settled q) p k s = IsSound-block p q k s
after_reap-AllSound (in_child e) p k s = tt
after_reap-AllSound (null_read q) p k s = tt

module _ (env : Env) where
  timer_start-AllSound :
      (p : Proc) → IsSound p.svc → AllSound (after_start (timer_start_process env p))
  unfolding timer_start_process
  timer_start-AllSound p s =
      let q = service_stop_timer env p in
      after_start-AllSound (service_start env q.svc.path_args q) p q
        (service_start-KeepsBlock env q.svc.path_args q) (block-timers env 0 p).2 s

  timer_restart-AllSound :
      (p : Proc) → IsSound p.svc → AllSound (after_start (timer_restart_process env p))
  unfolding timer_restart_process
  timer_restart-AllSound p s =
      let q = service_stop_timer env p in
      let r = run_job q.svc.jobs.on_restart q in
      after_start-AllSound (service_start env r.svc.path_args r) p r
        (service_start-KeepsBlock env r.svc.path_args r)
        (block-run_job q.svc.jobs.on_restart q ∙ (block-timers env 0 p).2) s

  handle-AllSound : (e : Event) (p : Proc) → IsSound p.svc → AllSound (handle env e p)
  unfolding handle
  handle-AllSound (start args) p s =
      after_start-AllSound (service_start env args p) p p (service_start-KeepsBlock env args p) refl
        s
  handle-AllSound stop p s = service_stop-IsSound env p s
  handle-AllSound dies p s =
      after_reap-AllSound (service_reap env p) p (service_reap-ReapKeepsBlock env p) s
  handle-AllSound start_fires p s = timer_start-AllSound p s
  handle-AllSound restart_fires p s = timer_restart-AllSound p s
  handle-AllSound cancel p s = IsSound-block p (service_stop_timer env p) (block-timers env 0 p).2 s
  handle-AllSound (start_in t) p s =
      IsSound-block p (service_start_timer env t p) (block-timers env t p).0 s
  handle-AllSound (restart_in t) p s =
      IsSound-block p (service_restart_timer env t p) (block-timers env t p).1 s
  handle-AllSound (hold_fds ys) p s = update_service_fds-IsSound env ys p s
  handle-AllSound (drop_fds b) p s = (close_service_fds_lem b p s).2

-- If the descriptors held for a service stand in a block with one cell to spare, this stays so under
-- every sequence of operations and any answers of the system, failed updates included.
pub Reach-IsSound : {p q : Proc} → IsSound p.svc → Reach p q → IsSound q.svc
Reach-IsSound s here = s
Reach-IsSound s (next {p} env e r d) =
    subst AllSound d (handle-AllSound env e p (Reach-IsSound s r))
