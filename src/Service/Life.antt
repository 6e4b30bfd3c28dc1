-- ===== src/Service/Life.antt =====
-- The life of a service as init sees it: any sequence of the operations of init_common_service.c, in any
-- order, until init itself forks away or faults.
pub mod Live
pub mod Sound
use openharmony_mac_build.Common.{ℕ, ℤ, ◌≡◌, String, Bool, Option, none, some, List, length}
use openharmony_mac_build.Service.Types.{Env, Proc, state_of}
use openharmony_mac_build.Service.Fds.{update_service_fds, close_service_fds}
use openharmony_mac_build.Service.Timer.{
  service_start_timer, service_restart_timer, service_stop_timer,
}
use openharmony_mac_build.Service.Start.{Start, returns, child, service_start}
use openharmony_mac_build.Service.Stop.{service_stop}
use openharmony_mac_build.Service.Reap.{
  Reaped, settled, in_child, null_read, service_reap, timer_start_process, timer_restart_process,
}

-- What can happen to a service: a request, the death of its process, or a timer that fires.
pub data Event : Type 0 where
  start : List String → Event
  stop dies start_fires restart_fires cancel : Event
  start_in restart_in : ℕ → Event
  hold_fds : List ℤ → Event
  drop_fds : Bool → Event

unfoldable pub after_start : Start → Option Proc
after_start (returns c p) = some p
after_start (child e) = none

after_reap : Reaped → Option Proc
after_reap (settled p) = some p
after_reap (in_child e) = none
after_reap (null_read p) = none

-- The operation that an event calls; `none` where the caller is no longer init.
unfoldable pub handle : Env → Event → Proc → Option Proc
unfolding after_start after_reap
handle env (start args) p = after_start (service_start env args p)
handle env stop p = some (state_of (service_stop env p))
handle env dies p = after_reap (service_reap env p)
handle env start_fires p = after_start (timer_start_process env p)
handle env restart_fires p = after_start (timer_restart_process env p)
handle env cancel p = some (service_stop_timer env p)
handle env (start_in t) p = some (service_start_timer env t p)
handle env (restart_in t) p = some (service_restart_timer env t p)
handle env (hold_fds ys) p = some (update_service_fds env (some ys) (length ys) p).1
handle env (drop_fds free_it) p = some (close_service_fds free_it p)

-- What a service can become. The system may answer differently at each event.
pub data Reach (src : Proc) : Proc → Type 0 where
  here : Reach src src
  next : {p q : Proc} (env : Env) (e : Event) → Reach src p → handle env e p ≡ some q → Reach src q
