-- ===== src/Hdf/Tests.antt =====
-- The theorems on the device manager at concrete hosts.
use openharmony_mac_build.Common.{
  ◌≡◌, refl, pos, minus_one, true, false, if◌then◌else◌, none, some, [], ◌∷◌, ◌==◌, arith,
}
use openharmony_mac_build.Hdf.Types.{
  Env, Host, HostService, DeviceInfo, enable_step2, disable, TokenIf, Manager, success, timeout,
  pm_notify,
}
use openharmony_mac_build.Hdf.Process.{start_host_process_for}
use openharmony_mac_build.Hdf.Process.Wait.{
  Started, sleeps, start_host_process_for-Started, start_host_process_for_late,
}
use openharmony_mac_build.Hdf.Token.{attach_device, detach_device, find_device_host}
use openharmony_mac_build.Hdf.Token.Laws.{ListAdd, detach_device-attach_device}
use openharmony_mac_build.Hdf.Hosts.{start_device_hosts}
use openharmony_mac_build.Hdf.Hosts.Laws.{IsBalanced, start_device_hosts-IsBalanced}
use openharmony_mac_build.Hdf.Power.{power_state_change}
use openharmony_mac_build.Hdf.Power.Laws.{power_state_change-trace}
use openharmony_mac_build.Hdf.Left.{load_left_driver}
use openharmony_mac_build.Hdf.Left.Laws.{LeavesNone, load_left_driver-LeavesNone}
use openharmony_mac_build.Hdf.Reply.{list_all_device}
use openharmony_mac_build.Hdf.Reply.Parse.{read_hosts, view_hosts, read_hosts-list_all_device}

abbrev pub service : HostService
service = record { has_add_device = true; has_del_device = true }

abbrev pub lamp : DeviceInfo
lamp = record { device_id = 65; svc_name = "lamp"; preload = disable; usable = false }

abbrev pub late : DeviceInfo
late = record { device_id = 66; svc_name = "late"; preload = enable_step2; usable = false }

abbrev pub light_host : Host
light_host = record {
  host_id = 1;
  host_name = "light_host";
  host_pid = minus_one;
  host_service = none;
  devices = [];
  unload_dev_infos = [];
  dynamic_dev_infos = lamp ∷ [];
  stop_flag = false;
}

abbrev pub step2_host : Host
step2_host = record light_host {
  host_id = 2;
  host_name = "step2_host";
  host_pid = pos 30;
  host_service = some service;
  unload_dev_infos = late ∷ [];
  dynamic_dev_infos = [];
}

-- A system where a host attaches in the second sleep and all goes well.
abbrev pub fine_env : Env
fine_env = record {
  has_start = true;
  has_stop = true;
  started_pid = λ t. pos 77;
  attached = λ t. if sleeps t == 2 then some service else none;
  add_result = λ t. success;
  del_result = λ t. success;
  devices_after = λ t ds. ds;
  installed = λ t h. (success, h);
  host_of = λ d. 1;
  new_token = λ t. true;
  list_add = λ t ts. t ∷ ts;
  make_host = λ i. some (record light_host { host_id = i.id; host_name = i.name });
  device_list = λ h. some h;
  host_list = some (record { id = 1; name = "light_host" } ∷ record { id = 2; name = "x" } ∷ []);
  is_valid_power = λ s. true;
  is_power_wake = λ s. s == 1;
  notify_result = λ t. success;
}

abbrev pub manager : Manager
manager = record { hosts = light_host ∷ step2_host ∷ []; trace = [] }

start_host_process_for-Started_example :
    Started fine_env 5 light_host true []
      (start_host_process_for 5 fine_env light_host true true [])
start_host_process_for-Started_example =
    start_host_process_for-Started fine_env 5 light_host true []

start_host_process_for_late_example :
    let (code, h', t') = start_host_process_for 2 fine_env light_host true true [] in
    (code ≡ timeout) × (h'.host_service ≡ some service) × (h'.host_pid ≡ minus_one)
start_host_process_for_late_example =
    start_host_process_for_late fine_env 1 light_host true [] service refl refl refl
      (λ u l. ground arith) (λ u l. ground arith)

abbrev token : TokenIf
token = record { devid = 300; device_name = some "lamp"; serv_name = none }

fine-ListAdd : ListAdd fine_env
fine-ListAdd = record {
  prefix = λ t ts. [];
  suffix = λ t ts. ts;
  linked = λ t ts. refl;
  kept = λ t ts. refl;
}

detach_device-attach_device_example :
    ((attach_device fine_env (some token) manager).0 ≡ success)
    × (detach_device fine_env 300 (attach_device fine_env (some token) manager).1
        ≡ (success, manager))
unfolding find_device_host
detach_device-attach_device_example =
    detach_device-attach_device fine_env token manager
      (record { before = []; item = light_host; after = step2_host ∷ [] }) fine-ListAdd refl tt refl

start_device_hosts-IsBalanced_example : IsBalanced manager (start_device_hosts fine_env manager).1
start_device_hosts-IsBalanced_example = start_device_hosts-IsBalanced fine_env manager (λ h. refl)

power_state_change-trace_example :
    (power_state_change fine_env 0 manager).1.trace ≡ pm_notify 2 0 ∷ []
power_state_change-trace_example = power_state_change-trace fine_env 0 manager refl

load_left_driver-LeavesNone_example : LeavesNone (load_left_driver fine_env manager)
load_left_driver-LeavesNone_example =
    load_left_driver-LeavesNone fine_env manager (refl, (refl, tt)) (λ u. refl)

abbrev detached : Manager
detached = record { hosts = record step2_host { host_service = none } ∷ []; trace = [] }

abbrev listed : Manager
listed = record {
  hosts = record light_host { devices = some token ∷ [] } ∷ step2_host ∷ [];
  trace = [];
}

read_hosts-list_all_device_example :
    let r = list_all_device (λ reply w. true) listed [] in
    (r.0 ≡ success) × (read_hosts 2 r.1 ≡ some (view_hosts listed.hosts))
read_hosts-list_all_device_example =
    read_hosts-list_all_device (λ reply w. true) listed (λ reply w. refl) ((refl, tt), (tt, tt))

abbrev no_list_env : Env
no_list_env = record fine_env { device_list = λ h. none }
