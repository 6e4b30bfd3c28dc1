-- ===== src/Hdf/Device/Unload.antt =====
-- What a successful unload of a device does: DevmgrServiceUnloadDevice.
use openharmony_mac_build.Common.{
  ◌≡◌, refl, sym, Bool, Option, if◌then◌else◌, inl, inr, minus_one, String, true, false, ◌&&◌, none,
  some, [], ◌∷◌, is_empty, arith, Option-cases, Bool-cases,
}
use openharmony_mac_build.Hdf.Types.{
  Env, HostService, Manager, Trace, success, is_success, put_back, stop_device_host, del_device,
}
use openharmony_mac_build.Hdf.Process.{stop_host}
use openharmony_mac_build.Hdf.Device.{
  Found, unload_found, dynamic_dev_info_found, is_disable, del_from, del_done, unload_device,
}
use openharmony_mac_build.Hdf.Device.Laws.{found_cases, replace-found}

-- What an unload of a name leaves, from the host and device that a search found before: the search finds
-- the device again, not usable. The host was asked to remove the device, and nothing else was called,
-- if the host has another device or was started with the system; if not, it is then stopped, and has
-- no process and no service left.
pub record IsUnloaded (env : Env) (name : String) (m n : Manager) : Type 0 where
  pub old : Found
  pub new : Found
  pub was_there : dynamic_dev_info_found name m.hosts ≡ some old
  pub is_there : dynamic_dev_info_found name n.hosts ≡ some new
  pub unusable : new.infos.item.usable ≡ false
  pub ends : Bool
  pub asked : Trace
  pub asks : asked ≡ del_device old.infos.item.device_id ∷ m.trace
  pub last : ends ≡ (
      is_empty (env.devices_after asked old.hosts.item.devices)
      && is_empty old.hosts.item.unload_dev_infos)
  pub trace : n.trace ≡ (if ends then stop_device_host old.hosts.item.host_id ∷ asked else asked)
  pub pid : new.hosts.item.host_pid ≡ (if ends then minus_one else old.hosts.item.host_pid)
  pub service : new.hosts.item.host_service ≡ (if ends then none else old.hosts.item.host_service)

module _ (env : Env) (name : String) (m : Manager) (f : Found)
    (n : dynamic_dev_info_found name m.hosts ≡ some f) where
  del_done-IsUnloaded :
      (let asked = del_device f.infos.item.device_id ∷ m.trace in
        let h = record f.hosts.item { devices = env.devices_after asked f.hosts.item.devices } in
        (del_done env f h asked).0 ≡ success → IsUnloaded env name m (del_done env f h asked).1)
  unfolding del_done stop_host
  del_done-IsUnloaded e =
      let i = found_cases name m.hosts f n in
      let t = del_device f.infos.item.device_id ∷ m.trace in
      let d = record f.infos.item { usable = false } in
      let h = record f.hosts.item { devices = env.devices_after t f.hosts.item.devices } in
      let gone = record h {
        host_pid = minus_one;
        host_service = none;
        devices = [];
        stop_flag = true;
      } in
      let u = stop_device_host f.hosts.item.host_id ∷ t in
      elim (Bool-cases (is_empty h.devices && is_empty h.unload_dev_infos)) [
        | inr b ↦ record {
          old = f;
          new = record {
            hosts = record f.hosts { item = record h { dynamic_dev_infos = put_back f.infos d } };
            infos = record f.infos { item = d };
          };
          was_there = n;
          is_there = simp b (replace-found name m.hosts f h d t i i.info_there.passes);
          unusable = refl;
          ends = false;
          asked = t;
          asks = refl;
          last = sym b;
          trace = simp b refl;
          pid = refl;
          service = refl;
        }
        | inl b ↦ elim (Bool-cases env.has_stop) [
          | inr c ↦ absurd (ground (arith, b, c, e))
          | inl c ↦ record {
            old = f;
            new = record {
              hosts = record f.hosts {
                item = record gone { dynamic_dev_infos = put_back f.infos d };
              };
              infos = record f.infos { item = d };
            };
            was_there = n;
            is_there = simp (b, c) (replace-found name m.hosts f gone d u i i.info_there.passes);
            unusable = refl;
            ends = true;
            asked = t;
            asks = refl;
            last = sym b;
            trace = simp (b, c) refl;
            pid = refl;
            service = refl;
          }
        ]
      ]

  del_from-IsUnloaded :
      (o : Option HostService)
      → (del_from env f f.hosts.item o m.trace).0 ≡ success
      → IsUnloaded env name m (del_from env f f.hosts.item o m.trace).1
  unfolding del_from
  del_from-IsUnloaded none e = absurd (ground arith)
  del_from-IsUnloaded (some s) e =
      let t = del_device f.infos.item.device_id ∷ m.trace in
      elim (Bool-cases s.has_del_device) [
        | inr b ↦ absurd (ground (arith, b, e))
        | inl b ↦ elim (Bool-cases (is_success (env.del_result t))) [
          | inr c ↦ absurd (ground (arith, b, c, e))
          | inl c ↦ simp (b, c) (del_done-IsUnloaded (simp (b, c) at e))
        ]
      ]

  unload_found-IsUnloaded :
      (unload_found env m (some f)).0 ≡ success
      → IsUnloaded env name m (unload_found env m (some f)).1
  unfolding unload_found
  unload_found-IsUnloaded e = elim (Bool-cases (is_disable f.infos.item.preload)) [
    | inr b ↦ absurd (ground (arith, b, e))
    | inl b ↦ simp b (del_from-IsUnloaded f.hosts.item.host_service (simp b at e))
  ]

-- Whenever an unload succeeds, a search for the name found a device before, and finds it not usable
-- after; the host was asked to remove it, and the host is stopped then, and left without process and
-- service, exactly if it has no other device and was not started with the system.
pub unload_device-IsUnloaded :
    (env : Env) (name : String) (m : Manager)
    → (unload_device env (some name) m).0 ≡ success
    → IsUnloaded env name m (unload_device env (some name) m).1
unfolding unload_device
unload_device-IsUnloaded env name m e = elim (Option-cases (dynamic_dev_info_found name m.hosts)) [
  | inl n ↦ absurd (ground (arith, n))
  | inr (f, n) ↦ simp n (unload_found-IsUnloaded env name m f n (simp n at e))
]
