-- ===== src/Hdf/Left/Laws.antt =====
-- When the second preload step is safe, and what it leaves.
use openharmony_mac_build.Common.{
  ◌≡◌, refl, Bool, true, false, not, ◌&&◌, ◌||◌, Option, none, some, List, [], ◌∷◌, All, arith,
  Option-cases, inl, inr, is_some,
}
use openharmony_mac_build.Hdf.Types.{
  Env, Host, HostService, DeviceInfo, Manager, Trace, Code, success, add_device,
}
use openharmony_mac_build.Hdf.Left.{is_step2, left_infos, left_hosts, load_left_driver}

-- Whether any device of a list is due.
abbrev pub any_due : List DeviceInfo → Bool
any_due [] = false
any_due (d ∷ ds) = is_step2 d.preload || any_due ds

abbrev pub can_add : Option HostService → Bool
can_add none = false
can_add (some s) = s.has_add_device

-- Every host with a device that is due is attached.
abbrev pub IsReady : List Host → Type 0
IsReady hosts = All (λ h. (not (any_due h.unload_dev_infos) || can_add h.host_service) ≡ true) hosts

-- Whether any device of any host is still due.
abbrev pub left_due : List Host → Bool
left_due [] = false
left_due (h ∷ hs) = any_due h.unload_dev_infos || left_due hs

-- How the walk over a list of devices can end, if all that are due are accepted.
abbrev AllLoaded : Option (List DeviceInfo × Trace) → Type 0
AllLoaded none = ⊥
AllLoaded (some (ds, t)) = any_due ds ≡ false

left_infos-AllLoaded :
    (env : Env) (s : Option HostService) (ds : List DeviceInfo) (t : Trace)
    → (not (any_due ds) || can_add s) ≡ true
    → ((u : Trace) → env.add_result u ≡ success)
    → AllLoaded (left_infos env s ds t)
unfolding left_infos
left_infos-AllLoaded env s [] t r a = refl
left_infos-AllLoaded env s (d ∷ ds) t r a =
    let asked = add_device d.device_id ∷ t in
    ground (arith, a asked, left_infos-AllLoaded env s ds t, left_infos-AllLoaded env s ds asked)

left_infos_fault :
    (env : Env) (ds : List DeviceInfo) (t : Trace)
    → any_due ds ≡ true
    → left_infos env none ds t ≡ none
unfolding left_infos
left_infos_fault env [] t a = cc
left_infos_fault env (d ∷ ds) t a = ground (arith, left_infos_fault env ds t)

abbrev HostsLoaded : Option (List Host × Trace) → Type 0
HostsLoaded none = ⊥
HostsLoaded (some (hs, t)) = left_due hs ≡ false

left_hosts-HostsLoaded :
    (env : Env) (hs : List Host) (t : Trace)
    → IsReady hs
    → ((u : Trace) → env.add_result u ≡ success)
    → HostsLoaded (left_hosts env hs t)
unfolding left_hosts
left_hosts-HostsLoaded env [] t r a = refl
left_hosts-HostsLoaded env (h ∷ hs) t r a =
    elim (Option-cases (left_infos env h.host_service h.unload_dev_infos t)) [
      | inl e ↦
          absurd
            (ground (arith, e, left_infos-AllLoaded env h.host_service h.unload_dev_infos t r.0 a))
      | inr ((ds, u), e) ↦ ground (
        arith,
        e,
        left_infos-AllLoaded env h.host_service h.unload_dev_infos t r.0 a,
        left_hosts-HostsLoaded env hs u r.1 a,
      )
    ]

-- What the second preload step comes to when no call is made through a null pointer: no device that was
-- due is left.
abbrev pub LeavesNone : Option (Code × Manager) → Type 0
LeavesNone none = ⊥
LeavesNone (some (c, m)) = (c ≡ success) × (left_due m.hosts ≡ false)

-- If every host with a device that is due is attached, and accepts its devices, the second preload step
-- ends well and leaves none of them.
pub load_left_driver-LeavesNone :
    (env : Env) (m : Manager)
    → IsReady m.hosts
    → ((u : Trace) → env.add_result u ≡ success)
    → LeavesNone (load_left_driver env m)
unfolding load_left_driver
load_left_driver-LeavesNone env m r a =
    ground (arith, left_hosts-HostsLoaded env m.hosts m.trace r a)

-- Whether some host has a device that is due and is not attached.
abbrev pub any_unattached : List Host → Bool
any_unattached [] = false
any_unattached (h ∷ hs) =
    (any_due h.unload_dev_infos && not (is_some h.host_service)) || any_unattached hs

left_hosts_fault :
    (env : Env) (hs : List Host) (t : Trace) → any_unattached hs ≡ true → left_hosts env hs t ≡ none
unfolding left_hosts
left_hosts_fault env [] t a = cc
left_hosts_fault env (h ∷ hs) t a =
    elim (Option-cases (left_infos env h.host_service h.unload_dev_infos t)) [
      | inl e ↦ ground (arith, e)
      | inr ((ds, u), e) ↦
          ground (arith, e, left_infos_fault env h.unload_dev_infos t, left_hosts_fault env hs u)
    ]

-- If some host with a device that is due has not attached yet, the second preload step calls a
-- method through a null pointer.
pub load_left_driver_fault :
    (env : Env) (m : Manager) → any_unattached m.hosts ≡ true → load_left_driver env m ≡ none
unfolding load_left_driver
load_left_driver_fault env m a = ground (arith, left_hosts_fault env m.hosts m.trace a)
