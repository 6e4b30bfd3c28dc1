-- ===== src/Hdf/Power.antt =====
-- DevmgrServicePowerStateChange: every host that is attached is told of a change, in the order of the
-- list when waking and in the opposite order when suspending.
pub mod Laws
use mathlib.Core.List.{reverse}
use openharmony_mac_build.Common.{
  ℕ, Bool, true, false, Option, none, some, List, [], ◌∷◌, if◌then◌else◌, is_some,
}
use openharmony_mac_build.Hdf.Types.{
  Env, Host, Manager, Trace, Code, success, failure, invalid_param, is_success, pm_notify,
}

-- The loop body; the result stays a failure once one host has failed.
notify_one : Env → ℕ → Host → Code × Trace → Code × Trace
notify_one env state h (result, t) =
    let told = pm_notify h.host_id state ∷ t in
    if is_some h.host_service
    then (if is_success (env.notify_result told) then result else failure, told)
    else (result, t)

unfoldable pub notify_hosts : Env → ℕ → List Host → Code × Trace → Code × Trace
unfolding notify_one
notify_hosts env state [] r = r
notify_hosts env state (h ∷ hs) r = notify_hosts env state hs (notify_one env state h r)

after_notify : Manager → Code × Trace → Code × Manager
after_notify m (result, t) = (result, record m { trace = t })

unfoldable pub power_state_change : Env → ℕ → Manager → Code × Manager
unfolding after_notify
power_state_change env state m =
    if env.is_valid_power state
    then after_notify m (
        notify_hosts env state (if env.is_power_wake state then m.hosts else reverse m.hosts)
          (success, m.trace))
    else (invalid_param, m)
