-- ===== src/Hdf/Left.antt =====
-- DevmgrServiceLoadLeftDriver: the devices of the second preload step.
pub mod Laws
use openharmony_mac_build.Common.{
  ℕ, zero, suc, ◌+◌, ◌≡◌, refl, ap, Bool, true, false, Option, none, some, List, [], ◌∷◌,
  if◌then◌else◌, All, arith, Bool-cases, inl, inr,
}
use openharmony_mac_build.Hdf.Types.{
  Env, Host, HostService, DeviceInfo, TokenIf, Preload, enable_step2, Manager, Trace, Code, success,
  is_success, add_device,
}

abbrev pub is_step2 : Preload → Bool
is_step2 enable_step2 = true
is_step2 _ = false

-- One device that is due: whether it was loaded, or `none` for a call through a null pointer.
add_left : Env → Option HostService → DeviceInfo → Trace → Option (Bool × Trace)
add_left env none d t = none
add_left env (some s) d t =
    let asked = add_device d.device_id ∷ t in
    if s.has_add_device then some (is_success (env.add_result asked), asked) else none

-- The walk over the list of one host that keeps what was not loaded. The tokens that the host
-- attaches meanwhile are in its other list.
keep_info : DeviceInfo → Option (List DeviceInfo × Trace) → Option (List DeviceInfo × Trace)
keep_info d none = none
keep_info d (some (ds, t)) = some (d ∷ ds, t)

left_step :
    Env
    → Option HostService
    → DeviceInfo
    → Option (Bool × Trace)
    → (Trace → Option (List DeviceInfo × Trace))
    → Option (List DeviceInfo × Trace)
unfolding keep_info
left_step env s d none rest = none
left_step env s d (some (true, t)) rest = rest t
left_step env s d (some (false, t)) rest = keep_info d (rest t)

unfoldable pub left_infos :
    Env → Option HostService → List DeviceInfo → Trace → Option (List DeviceInfo × Trace)
unfolding add_left keep_info left_step
left_infos env s [] t = some ([], t)
left_infos env s (d ∷ ds) t =
    let rest = left_infos env s ds in
    if is_step2 d.preload then left_step env s d (add_left env s d t) rest else keep_info d (rest t)

left_hosts_after :
    Host
    → Option (List DeviceInfo × Trace)
    → (Trace → Option (List Host × Trace))
    → Option (List Host × Trace)
left_hosts_after h none rest = none
left_hosts_after h (some (ds, t)) rest = elim (rest t) [
  | none ↦ none
  | some (hs, u) ↦ some (record h { unload_dev_infos = ds } ∷ hs, u)
]

unfoldable pub left_hosts : Env → List Host → Trace → Option (List Host × Trace)
unfolding left_hosts_after
left_hosts env [] t = some ([], t)
left_hosts env (h ∷ hs) t =
    left_hosts_after h (left_infos env h.host_service h.unload_dev_infos t) (left_hosts env hs)

loaded : Option (List Host × Trace) → Option (Code × Manager)
loaded none = none
loaded (some (hs, t)) = some (success, record { hosts = hs; trace = t })

-- `none` is the call of AddDevice through a null pointer.
unfoldable pub load_left_driver : Env → Manager → Option (Code × Manager)
unfolding loaded
load_left_driver env m = loaded (left_hosts env m.hosts m.trace)
