-- ===== src/Service/Timer/Laws.antt =====
-- What arming and stopping do to the timer of a service.
use openharmony_mac_build.Common.{
  ℕ, ◌≡◌, Bool, not, ◌||◌, true, false, none, some, ◌∷◌, is_some, count_if, arith,
}
use openharmony_mac_build.Service.Types.{
  Env, Proc, Attr, Call, create_timer, start_timer_for, stop_timer, start_timer,
}
use openharmony_mac_build.Service.Timer.{
  service_stop_timer, service_start_timer, service_restart_timer,
}

-- What the macros on the timer bit are documented to do.
pub record TimerBit (env : Env) : Type 0 where
  pub enabled : (a : Attr) → env.is_timer_enabled (env.enable_timer a) ≡ true
  pub disabled : (a : Attr) → env.is_timer_enabled (env.disable_timer a) ≡ false

-- An enabled timer has a handle.
abbrev pub IsArmed : Env → Proc → Type 0
IsArmed env p = (not (env.is_timer_enabled p.svc.attr) || is_some p.svc.timer) ≡ true

-- After ServiceStopTimer no timer is enabled; one that was is stopped and forgotten, and is stopped
-- just once.
pub service_stop_timer_off :
    (env : Env) (p : Proc) (h : ℕ)
    → TimerBit env
    → env.is_timer_enabled p.svc.attr ≡ true
    → p.svc.timer ≡ some h
    → (env.is_timer_enabled (service_stop_timer env p).svc.attr ≡ false)
      × ((service_stop_timer env p).svc.timer ≡ none)
      × ((service_stop_timer env p).trace ≡ stop_timer h ∷ p.trace)
unfolding service_stop_timer
service_stop_timer_off env p h b on has = ground (arith, b.disabled p.svc.attr)

-- If a timer is enabled and the new one can be made and started, the old one is stopped first, and
-- the new one is the timer of the service and is enabled.
pub service_start_timer_replaces :
    (env : Env) (p : Proc) (timeout old new : ℕ)
    → TimerBit env
    → env.is_timer_enabled p.svc.attr ≡ true
    → p.svc.timer ≡ some old
    → env.new_timer (create_timer start_timer ∷ stop_timer old ∷ p.trace) ≡ some new
    → env.start_timer_ok
        (start_timer_for new timeout ∷ create_timer start_timer ∷ stop_timer old ∷ p.trace)
      ≡ true
    → let q = service_start_timer env timeout p in
      (q.svc.timer ≡ some new)
      × (env.is_timer_enabled q.svc.attr ≡ true)
      × (q.trace
          ≡ start_timer_for new timeout ∷ create_timer start_timer ∷ stop_timer old ∷ p.trace)
unfolding service_start_timer service_stop_timer
service_start_timer_replaces env p timeout old new b on has made runs =
    ground (arith, b.enabled (env.disable_timer p.svc.attr))

-- ServiceStartTimer, ServiceReStartTimer and ServiceStopTimer keep it true that an enabled timer
-- has a handle, whatever fails on the way.
pub service_start_timer-IsArmed :
    (env : Env) (p : Proc) (timeout : ℕ)
    → TimerBit env
    → IsArmed env p
    → IsArmed env (service_start_timer env timeout p)
      × IsArmed env (service_restart_timer env timeout p)
      × IsArmed env (service_stop_timer env p)
unfolding service_start_timer service_restart_timer service_stop_timer
service_start_timer-IsArmed env p timeout b h = ground (arith, b.disabled p.svc.attr)

abbrev pub is_stop : Call → Bool
is_stop (stop_timer h) = true
is_stop c = false

-- If no timer is enabled, and one is made and cannot be started, the next request puts a new timer
-- in its place, and neither request stops one.
pub service_start_timer_leaks :
    (env : Env) (p : Proc) (timeout lost new : ℕ)
    → env.is_timer_enabled p.svc.attr ≡ false
    → env.new_timer (create_timer start_timer ∷ p.trace) ≡ some lost
    → env.start_timer_ok (start_timer_for lost timeout ∷ create_timer start_timer ∷ p.trace) ≡ false
    → env.new_timer (create_timer start_timer ∷ (service_start_timer env timeout p).trace)
      ≡ some new
    → let q = service_start_timer env timeout p in
      let r = service_start_timer env timeout q in
      (q.svc.timer ≡ some lost)
      × (r.svc.timer ≡ some new)
      × (count_if is_stop r.trace ≡ count_if is_stop p.trace)
unfolding service_start_timer service_stop_timer
service_start_timer_leaks env p timeout lost new off made fails again = ground arith
