-- ===== src/Hdf/Hosts.antt =====
-- DevmgrServiceAttachDeviceHost, DevmgrServiceStartDeviceHost, DevmgrServiceStartDeviceHosts and
-- DevmgrServiceStartService: how the hosts come up.
pub mod Laws
use openharmony_mac_build.Common.{
  ℕ, Bool, true, false, Option, none, some, List, [], ◌∷◌, ◌++◌, if◌then◌else◌, is_empty,
}
use openharmony_mac_build.Hdf.Types.{
  Env, Host, HostInfo, HostService, Manager, Trace, Call, Code, success, failure, is_success,
  install_driver, new_host, free_host, start_service, Split, put_back,
}
use openharmony_mac_build.Hdf.Token.{find_device_host}
use openharmony_mac_build.Hdf.Process.{start_host_process}

-- The drivers of the host are installed once the host has its service.
install : Env → Manager → Split Host → HostService → Code × Manager
install env m s svc =
    let asked = install_driver s.item.host_id ∷ m.trace in
    let (code, h) = env.installed asked (record s.item { host_service = some svc }) in
    (code, record { hosts = put_back s h; trace = asked })

attach_host : Env → Option HostService → Manager → Option (Split Host) → Code × Manager
unfolding install
attach_host env svc m none = (failure, m)
attach_host env none m (some s) = (failure, m)
attach_host env (some svc) m (some s) = install env m s svc

unfoldable pub attach_device_host : Env → ℕ → Option HostService → Manager → Code × Manager
unfolding attach_host
attach_device_host env id svc m = attach_host env svc m (find_device_host m.hosts id)

-- The last part: the host is in the list, and its process is started if it has static devices.
run_host : Manager → Code × Host × Trace → Code × Manager
run_host m (code, h, t) =
    if is_success code
    then (success, record { hosts = m.hosts ++ h ∷ []; trace = t })
    else (failure, record m { trace = free_host h.host_id ∷ t })

insert_host : Env → Manager → Host → Code × Manager
unfolding run_host
insert_host env m h =
    if is_empty h.unload_dev_infos
    then (success, record m { hosts = m.hosts ++ h ∷ [] })
    else run_host m (start_host_process env h false false m.trace)

fill_host : Env → Manager → Option Host → Code × Manager
fill_host env m none = (failure, m)
fill_host env m (some h) = insert_host env m h

new_instance : Env → Manager → Option Host → Code × Manager
unfolding fill_host
new_instance env m none = (failure, m)
new_instance env m (some h) =
    fill_host env (record m { trace = new_host h.host_id ∷ m.trace }) (env.device_list h)

pub start_device_host : Env → HostInfo → Manager → Code × Manager
unfolding new_instance
start_device_host env info m = new_instance env m (env.make_host info)

-- The loop over the configured hosts passes over those that fail.
unfoldable pub start_each : Env → List HostInfo → Manager → Manager
start_each env [] m = m
start_each env (i ∷ is') m = start_each env is' (start_device_host env i m).1

start_list : Env → Option (List HostInfo) → Manager → Manager
start_list env none m = m
start_list env (some is') m = start_each env is' m

pub start_device_hosts : Env → Manager → Code × Manager
unfolding start_list
start_device_hosts env m = (success, start_list env env.host_list m)

unfoldable pub devmgr_start_service : Env → Manager → Code × Manager
devmgr_start_service env m =
    let (code, m') = start_device_hosts env m in
    (code, record m' { trace = start_service ∷ m'.trace })
