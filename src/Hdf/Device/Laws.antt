-- ===== src/Hdf/Device/Laws.antt =====
-- What loading and unloading a device change, and what they refuse.
use openharmony_mac_build.Common.{
  ◌≡◌, refl, inl, inr, String, true, false, not, ◌&&◌, none, some, List, [], ◌∷◌, ◌++◌, is_empty,
  is_negative, is_some, All, arith, Option-cases, Bool-cases,
}
use openharmony_mac_build.Hdf.Types.{
  Env, Host, DeviceInfo, Manager, Trace, Code, success, no_device, norange, is_success, Split,
  split_first, put_back, add_device,
}
use openharmony_mac_build.Hdf.Split.{Finds, split_first-Finds, split_first-append}
use openharmony_mac_build.Hdf.Process.{start_host_process}
use openharmony_mac_build.Hdf.Device.{
  Found, serves, dynamic_dev_info_found, is_disable, replace, add_to, after_start, load_found,
  load_device, unload_device,
}

-- The host and the device that a search found, and no other host serves the name before it.
pub record IsFound (name : String) (hosts : List Host) (f : Found) : Type 0 where
  pub host_there : hosts ≡ put_back f.hosts f.hosts.item
  pub info_there : Finds (serves name) f.hosts.item.dynamic_dev_infos f.infos
  pub earlier : All (λ h. split_first (serves name) h.dynamic_dev_infos ≡ none) f.hosts.before

pub found_cases :
    (name : String) (hosts : List Host) (f : Found)
    → dynamic_dev_info_found name hosts ≡ some f
    → IsFound name hosts f
unfolding dynamic_dev_info_found
found_cases name [] f e = cc
found_cases name (h ∷ hs) f e =
    elim (Option-cases (split_first (serves name) h.dynamic_dev_infos)) [
      | inr (s, m) ↦ ground (arith, m, split_first-Finds (serves name) h.dynamic_dev_infos s m)
      | inl m ↦ elim (Option-cases (dynamic_dev_info_found name hs)) [
        | inl k ↦ absurd (ground (arith, m, k))
        | inr (r, k) ↦ ground (arith, m, k, found_cases name hs r k)
      ]
    ]

-- The search after a change finds the changed host and device again.
found_again :
    (name : String) (before after : List Host) (h : Host) (s : Split DeviceInfo)
    → All (λ g. split_first (serves name) g.dynamic_dev_infos ≡ none) before
    → split_first (serves name) h.dynamic_dev_infos ≡ some s
    → dynamic_dev_info_found name (before ++ h ∷ after)
      ≡ some (record { hosts = record { before = before; item = h; after = after }; infos = s })
unfolding dynamic_dev_info_found
found_again name [] after h s a e = ground (arith, e)
found_again name (g ∷ gs) after h s a e = ground (arith, found_again name gs after h s a.1 e, a.0)

-- After `replace` the search gives the new host and the new device.
pub replace-found :
    (name : String) (hosts : List Host) (f : Found) (h : Host) (d : DeviceInfo) (t : Trace)
    → IsFound name hosts f
    → serves name d ≡ true
    → dynamic_dev_info_found name (replace f h d t).hosts
      ≡ some (record {
        hosts = record f.hosts { item = record h { dynamic_dev_infos = put_back f.infos d } };
        infos = record f.infos { item = d };
      })
replace-found name hosts f h d t i p =
    found_again name f.hosts.before f.hosts.after
      (record h { dynamic_dev_infos = put_back f.infos d }) (record f.infos { item = d }) i.earlier
      (split_first-append (serves name) f.infos.before d f.infos.after i.info_there.first p)

-- The device of that name is usable, and its host is attached.
abbrev pub IsUsable : String → List Host → Type 0
IsUsable name hosts =
    (f : Found) × (dynamic_dev_info_found name hosts ≡ some f)
    × (f.infos.item.usable ≡ true)
    × (is_some f.hosts.item.host_service ≡ true)

module _ (env : Env) (name : String) (hosts : List Host) (f : Found)
    (i : IsFound name hosts f) where
  add_to-IsUsable :
      (h : Host) (t : Trace)
      → (add_to env f h h.host_service t).0 ≡ success
      → IsUsable name (add_to env f h h.host_service t).1.hosts
  unfolding add_to
  add_to-IsUsable h t e = elim (Option-cases h.host_service) [
    | inl n ↦ absurd (ground (arith, n))
    | inr (s, n) ↦
        let asked = add_device f.infos.item.device_id ∷ t in
        let h' = record h { devices = env.devices_after asked h.devices } in
        let d = record f.infos.item { usable = true } in
        (
          record {
            hosts = record f.hosts { item = record h' { dynamic_dev_infos = put_back f.infos d } };
            infos = record f.infos { item = d };
          },
          ground (arith, n, replace-found name hosts f h' d asked i i.info_there.passes),
          refl,
          ground (arith, n),
        )
  ]

  after_start-IsUsable :
      (r : Code × Host × Trace)
      → (after_start env f r).0 ≡ success
      → IsUsable name (after_start env f r).1.hosts
  unfolding after_start
  after_start-IsUsable (code, h, t) e = elim (Bool-cases (is_success code)) [
    | inl b ↦ rw b (add_to-IsUsable h t (rw b at e))
    | inr b ↦ absurd (ground (arith, b))
  ]

-- After a load that succeeds, a search for the name finds the device usable, in a host that is
-- attached.
pub load_device-IsUsable :
    (env : Env) (name : String) (m : Manager)
    → (load_device env (some name) m).0 ≡ success
    → IsUsable name (load_device env (some name) m).1.hosts
unfolding load_device
load_device-IsUsable env name m e = elim (Option-cases (dynamic_dev_info_found name m.hosts)) [
  | inl n ↦ absurd (ground (arith, n))
  | inr (f, n) ↦ simp n (found_load f n (simp n at e))
]
  where
    found_load :
        (f : Found)
        → dynamic_dev_info_found name m.hosts ≡ some f
        → (load_found env m (some f)).0 ≡ success
        → IsUsable name (load_found env m (some f)).1.hosts
    found_load f n e' =
        let i = found_cases name m.hosts f n in
        let h = f.hosts.item in
        let dynamic = is_empty h.unload_dev_infos && not (is_empty h.dynamic_dev_infos) in
        let started = start_host_process env h true dynamic m.trace in
        elim (Bool-cases (is_disable f.infos.item.preload)) [
          | inr b ↦ absurd (ground (arith, b))
          | inl b ↦ elim (Bool-cases (is_negative h.host_pid)) [
            | inl c ↦
                simp (b, c) (after_start-IsUsable env name m.hosts f i started (simp (b, c) at e'))
            | inr c ↦
                simp (b, c) (add_to-IsUsable env name m.hosts f i h m.trace (simp (b, c) at e'))
          ]
        ]

-- A name that no host has configured is refused by both, and nothing changes.
pub load_device_unknown :
    (env : Env) (name : String) (m : Manager)
    → dynamic_dev_info_found name m.hosts ≡ none
    → (load_device env (some name) m ≡ (no_device, m))
      × (unload_device env (some name) m ≡ (no_device, m))
unfolding load_device unload_device
load_device_unknown env name m n = (ground (arith, n), ground (arith, n))

-- So is a device that is not loaded on demand, under different codes.
pub load_device_static :
    (env : Env) (name : String) (m : Manager) (f : Found)
    → dynamic_dev_info_found name m.hosts ≡ some f
    → is_disable f.infos.item.preload ≡ false
    → (load_device env (some name) m ≡ (norange, m))
      × (unload_device env (some name) m ≡ (no_device, m))
unfolding load_device unload_device
load_device_static env name m f n d = (ground (arith, n, d), ground (arith, n, d))
