-- ===== src/Hdf/Token.antt =====
-- DevmgrServiceFindDeviceHost, DevmgrServiceAttachDevice and DevmgrServiceDetachDevice: the devices
-- that a host has published.
pub mod Laws
use openharmony_mac_build.Common.{
  ℕ, Bool, true, false, Option, none, some, List, [], ◌∷◌, ◌++◌, if◌then◌else◌, ◌==◌,
}
use openharmony_mac_build.Hdf.Types.{
  Env, Host, TokenIf, Manager, Trace, Code, success, failure, no_device, Split, split_first,
  put_back,
}

abbrev pub has_id : ℕ → Host → Bool
has_id id h = h.host_id == id

-- DevmgrServiceFindDeviceHost.
unfoldable pub find_device_host : List Host → ℕ → Option (Split Host)
unfolding split_first
find_device_host hosts id = split_first (has_id id) hosts

-- HdfSListHostSearchDeviceTokenComparer, which reads through `tokenIf`: a NULL one, which
-- DevmgrServiceAttachDevice never puts in a list, is passed over here.
abbrev pub has_devid : ℕ → Option TokenIf → Bool
has_devid d none = false
has_devid d (some t) = t.devid == d

set_devices : Manager → Split Host → List (Option TokenIf) → Manager
set_devices m s ds = record m { hosts = put_back s (record s.item { devices = ds }) }

attach_to : Env → TokenIf → Manager → Option (Split Host) → Code × Manager
unfolding set_devices
attach_to env token m none = (failure, m)
attach_to env token m (some s) =
    if env.new_token m.trace
    then (success, set_devices m s (env.list_add (some token) s.item.devices))
    else (failure, m)

-- A token that is NULL is `none`.
unfoldable pub attach_device : Env → Option TokenIf → Manager → Code × Manager
unfolding attach_to
attach_device env none m = (failure, m)
attach_device env (some token) m =
    attach_to env token m (find_device_host m.hosts (env.host_of token.devid))

remove_token : Manager → Split Host → Option (Split (Option TokenIf)) → Code × Manager
unfolding set_devices
remove_token m s none = (no_device, m)
remove_token m s (some d) = (success, set_devices m s (d.before ++ d.after))

detach_from : ℕ → Manager → Option (Split Host) → Code × Manager
unfolding remove_token
detach_from devid m none = (failure, m)
detach_from devid m (some s) = remove_token m s (split_first (has_devid devid) s.item.devices)

unfoldable pub detach_device : Env → ℕ → Manager → Code × Manager
unfolding detach_from
detach_device env devid m = detach_from devid m (find_device_host m.hosts (env.host_of devid))
