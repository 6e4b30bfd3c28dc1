-- ===== src/Hdf/Device.antt =====
-- DevmgrServiceDynamicDevInfoFound, DevmgrServiceLoadDevice and DevmgrServiceUnloadDevice: devices
-- that are loaded on demand. Each is one step: the mutex of a
-- host keeps others out of it, but for the sleeps of a start.
pub mod Laws
pub mod Unload
mod Tests
use openharmony_mac_build.Common.{
  ℕ, ℤ, minus_one, String, str_eq, Bool, true, false, not, ◌&&◌, Option, none, some, List, [], ◌∷◌,
  ◌++◌, if◌then◌else◌, is_empty, is_negative,
}
use openharmony_mac_build.Hdf.Types.{
  Env, Host, HostService, DeviceInfo, Preload, disable, Manager, Trace, Code, success, failure,
  invalid_param, no_device, norange, is_success, add_device, del_device, Split, split_first,
  put_back,
}
use openharmony_mac_build.Hdf.Process.{start_host_process, stop_host}

-- A host, and one of its dynamic devices, with their surroundings.
pub record Found : Type 0 where
  pub hosts : Split Host
  pub infos : Split DeviceInfo

abbrev pub serves : String → DeviceInfo → Bool
serves name d = str_eq d.svc_name name

later_host : Host → Option Found → Option Found
later_host h none = none
later_host h (some f) = some (record f { hosts = record f.hosts { before = h ∷ f.hosts.before } })

found_in : Host → List Host → Option (Split DeviceInfo) → Option Found → Option Found
unfolding later_host
found_in h hs none rest = later_host h rest
found_in h hs (some s) rest =
    some (record { hosts = record { before = []; item = h; after = hs }; infos = s })

-- DevmgrServiceDynamicDevInfoFound.
unfoldable pub dynamic_dev_info_found : String → List Host → Option Found
unfolding found_in split_first
dynamic_dev_info_found name [] = none
dynamic_dev_info_found name (h ∷ hs) =
    found_in h hs (split_first (serves name) h.dynamic_dev_infos) (dynamic_dev_info_found name hs)

abbrev pub is_disable : Preload → Bool
is_disable disable = true
is_disable _ = false

-- The manager after the found host and device have become `h` and `d`.
abbrev pub replace : Found → Host → DeviceInfo → Trace → Manager
replace f h d t = record {
  hosts = put_back f.hosts (record h { dynamic_dev_infos = put_back f.infos d });
  trace = t;
}

-- The call of AddDevice, under the lock.
add_to : Env → Found → Host → Option HostService → Trace → Code × Manager
add_to env f h none t = (failure, replace f h f.infos.item t)
add_to env f h (some s) t =
    let asked = add_device f.infos.item.device_id ∷ t in
    let h' = record h { devices = env.devices_after asked h.devices } in
    let code = env.add_result asked in
    if s.has_add_device
    then (
      code,
      replace f h' (if is_success code then record f.infos.item { usable = true } else f.infos.item)
          asked,
    )
    else (failure, replace f h f.infos.item t)

after_start : Env → Found → Code × Host × Trace → Code × Manager
after_start env f (code, h, t) =
    if is_success code
    then add_to env f h h.host_service t
    else (failure, replace f h f.infos.item t)

load_found : Env → Manager → Option Found → Code × Manager
load_found env m none = (no_device, m)
load_found env m (some f) =
    let h = f.hosts.item in
    let dynamic = is_empty h.unload_dev_infos && not (is_empty h.dynamic_dev_infos) in
    if is_disable f.infos.item.preload
    then if is_negative h.host_pid
      then after_start env f (start_host_process env h true dynamic m.trace)
      else add_to env f h h.host_service m.trace
    else (norange, m)

pub load_device : Env → Option String → Manager → Code × Manager
unfolding load_found
load_device env none m = (invalid_param, m)
load_device env (some name) m = load_found env m (dynamic_dev_info_found name m.hosts)

-- After a stop of the host.
stopped : Found → DeviceInfo → Code × Host × Trace → Code × Manager
stopped f d (code, h, t) = (code, replace f h d t)

-- The device is gone: a host that has no other, and that was not started with the system, is stopped.
del_done : Env → Found → Host → Trace → Code × Manager
unfolding stopped
del_done env f h t =
    let d = record f.infos.item { usable = false } in
    if is_empty h.devices && is_empty h.unload_dev_infos
    then stopped f d
        (stop_host env (record h { host_pid = minus_one; host_service = none; devices = [] }) t)
    else (success, replace f h d t)

del_from : Env → Found → Host → Option HostService → Trace → Code × Manager
del_from env f h none t = (failure, replace f h f.infos.item t)
del_from env f h (some s) t =
    let asked = del_device f.infos.item.device_id ∷ t in
    let h' = record h { devices = env.devices_after asked h.devices } in
    let code = env.del_result asked in
    if s.has_del_device
    then (if is_success code
        then del_done env f h' asked
        else (code, replace f h' f.infos.item asked))
    else (failure, replace f h f.infos.item t)

unload_found : Env → Manager → Option Found → Code × Manager
unload_found env m none = (no_device, m)
unload_found env m (some f) =
    if is_disable f.infos.item.preload
    then del_from env f f.hosts.item f.hosts.item.host_service m.trace
    else (no_device, m)

pub unload_device : Env → Option String → Manager → Code × Manager
unfolding unload_found
unload_device env none m = (invalid_param, m)
unload_device env (some name) m = unload_found env m (dynamic_dev_info_found name m.hosts)
