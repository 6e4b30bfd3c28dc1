-- ===== src/Service/Timer.antt =====
-- The timer of a service: ServiceStopTimer, ServiceStartTimer and ServiceReStartTimer of
-- init_common_service.c. The timer bit of `attribute` is read and written by macros of a header.
pub mod Laws
use openharmony_mac_build.Common.{ℕ, Bool, true, false, Option, none, some, if◌then◌else◌}
use openharmony_mac_build.Service.Types.{
  Env, Proc, Service, TimerKind, start_timer, restart_timer, create_timer, start_timer_for,
  stop_timer, call, set_attr,
}

abbrev set_timer : Option ℕ → Proc → Proc
set_timer t p = record p { svc = record p.svc { timer = t } }

stop_handle : Option ℕ → Proc → Proc
stop_handle none p = p
stop_handle (some h) p = call (stop_timer h) p

unfoldable pub service_stop_timer : Env → Proc → Proc
unfolding stop_handle
service_stop_timer env p =
    if env.is_timer_enabled p.svc.attr
    then set_attr (env.disable_timer p.svc.attr) (set_timer none (stop_handle p.svc.timer p))
    else p

-- After LE_CreateTimer, with what it made.
started_timer : Env → ℕ → Option ℕ → Proc → Proc
started_timer env timeout none p = p
started_timer env timeout (some h) p =
    let q = call (start_timer_for h timeout) (set_timer (some h) p) in
    if env.start_timer_ok q.trace then set_attr (env.enable_timer q.svc.attr) q else q

-- The body that both functions share; they differ in the callback alone.
arm_timer : Env → TimerKind → ℕ → Proc → Proc
unfolding service_stop_timer started_timer
arm_timer env kind timeout p =
    let q = call (create_timer kind) (service_stop_timer env p) in
    started_timer env timeout (env.new_timer q.trace) q

unfoldable pub service_start_timer : Env → ℕ → Proc → Proc
unfolding arm_timer
service_start_timer env timeout p = arm_timer env start_timer timeout p

unfoldable pub service_restart_timer : Env → ℕ → Proc → Proc
unfolding arm_timer
service_restart_timer env timeout p = arm_timer env restart_timer timeout p
