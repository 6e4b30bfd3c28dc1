-- ===== src/Hdf/Device/Tests.antt =====
-- The theorems on loading and unloading at one host with one device.
use openharmony_mac_build.Common.{refl, some}
use openharmony_mac_build.Hdf.Process.{start_host_process, start_host_process_for, wait_attach}
use openharmony_mac_build.Hdf.Device.{dynamic_dev_info_found, load_device, after_start, add_to}
use openharmony_mac_build.Hdf.Device.Laws.{IsUsable, load_device-IsUsable}
use openharmony_mac_build.Hdf.Tests.{fine_env, manager}
use openharmony_mac_build.Hdf.Types.{Host, Manager}
use openharmony_mac_build.Hdf.Process.{stop_host}
use openharmony_mac_build.Hdf.Device.{unload_device, unload_found, del_from, del_done}
use openharmony_mac_build.Hdf.Device.Unload.{IsUnloaded, unload_device-IsUnloaded}
use openharmony_mac_build.Hdf.Tests.{service, lamp, light_host}
use openharmony_mac_build.Common.{pos, true, ◌∷◌, []}

load_device-IsUsable_example : IsUsable "lamp" (load_device fine_env (some "lamp") manager).1.hosts
unfolding load_device dynamic_dev_info_found after_start add_to start_host_process
    start_host_process_for wait_attach
load_device-IsUsable_example = load_device-IsUsable fine_env "lamp" manager refl

abbrev loaded_host : Host
loaded_host = record light_host {
  host_pid = pos 77;
  host_service = some service;
  dynamic_dev_infos = record lamp { usable = true } ∷ [];
}

abbrev loaded : Manager
loaded = record { hosts = loaded_host ∷ []; trace = [] }

unload_device-IsUnloaded_example :
    IsUnloaded fine_env "lamp" loaded (unload_device fine_env (some "lamp") loaded).1
unfolding unload_device dynamic_dev_info_found unload_found del_from del_done stop_host
unload_device-IsUnloaded_example = unload_device-IsUnloaded fine_env "lamp" loaded refl
