-- ===== src/Hdf/Types.antt =====
-- The state of the device manager: its hosts, and the calls that it makes to them and to the
-- installer. Lists stand for the linked lists of the source, in their order.
use openharmony_mac_build.Common.{
  ℕ, ℤ, String, Bool, true, false, Option, none, some, List, [], ◌∷◌, ◌++◌, if◌then◌else◌,
}

-- HDF_SUCCESS and the error codes; `other` is any further code that a host answers.
pub data Code : Type 0 where
  success failure timeout invalid_param invalid_object no_device norange : Code
  other : ℕ → Code

abbrev pub is_success : Code → Bool
is_success success = true
is_success _ = false

-- DEVICE_PRELOAD_ENABLE, _ENABLE_STEP2, _DISABLE and any other value.
pub data Preload : Type 0 where
  enable enable_step2 disable unknown : Preload

-- HdfDeviceInfo; `usable` says whether `status` is HDF_SERVICE_USABLE.
pub record DeviceInfo : Type 0 where
  pub device_id : ℕ
  pub svc_name : String
  pub preload : Preload
  pub usable : Bool

-- IHdfDeviceToken.
pub record TokenIf : Type 0 where
  pub devid : ℕ
  pub device_name : Option String
  pub serv_name : Option String

-- IDevHostService: which of its two methods are set.
pub record HostService : Type 0 where
  pub has_add_device : Bool
  pub has_del_device : Bool

-- DevHostServiceClnt. A device token is `none` where `tokenIf` is NULL.
pub record Host : Type 0 where
  pub host_id : ℕ
  pub host_name : String
  pub host_pid : ℤ
  pub host_service : Option HostService
  pub devices : List (Option TokenIf)
  pub unload_dev_infos : List DeviceInfo
  pub dynamic_dev_infos : List DeviceInfo
  pub stop_flag : Bool

pub data Call : Type 0 where
  start_device_host : ℕ → Bool → Call
  stop_device_host : ℕ → Call
  msleep : Call
  add_device : ℕ → Call
  del_device : ℕ → Call
  install_driver : ℕ → Call
  new_host : ℕ → Call
  free_host : ℕ → Call
  pm_notify : ℕ → ℕ → Call
  start_service : Call

-- The newest call first.
abbrev pub Trace : Type 0
Trace = List Call

-- HdfHostInfo.
pub record HostInfo : Type 0 where
  pub id : ℕ
  pub name : String

-- What lies outside the file. An answer may depend on all calls made before it.
pub record Env : Type 0 where
  pub has_start : Bool  -- the installer is there and has StartDeviceHost
  pub has_stop : Bool  -- the installer is there and has StopDeviceHost
  pub started_pid : Trace → ℤ
  pub attached : Trace → Option HostService  -- attached by another thread during the last sleep
  pub add_result : Trace → Code
  pub del_result : Trace → Code
  pub devices_after : Trace → List (Option TokenIf) → List (Option TokenIf)
  pub installed : Trace → Host → Code × Host
  pub host_of : ℕ → ℕ  -- HOSTID
  pub new_token : Trace → Bool  -- whether DeviceTokenClntNewInstance has memory
  pub list_add : Option TokenIf → List (Option TokenIf) → List (Option TokenIf)  -- HdfSListAdd
  pub make_host : HostInfo → Option Host  -- DevHostServiceClntNewInstance
  pub device_list : Host → Option Host  -- HdfAttributeManagerGetDeviceList
  pub host_list : Option (List HostInfo)  -- HdfAttributeManagerGetHostList
  pub is_valid_power : ℕ → Bool
  pub is_power_wake : ℕ → Bool
  pub notify_result : Trace → Code

-- DevmgrService.
pub record Manager : Type 0 where
  pub hosts : List Host
  pub trace : Trace

-- The first element that passes a test, between what stands before and after it.
pub record Split {ℓ} (A : Type ℓ) : Type ℓ where
  pub before : List A
  pub item : A
  pub after : List A

module _ {ℓ} {A : Type ℓ} where
  abbrev push_front : A → Option (Split A) → Option (Split A)
  push_front x none = none
  push_front x (some s) = some (record s { before = x ∷ s.before })

  unfoldable pub split_first : (A → Bool) → List A → Option (Split A)
  split_first test [] = none
  split_first test (x ∷ xs) =
      if test x
      then some (record { before = []; item = x; after = xs })
      else push_front x (split_first test xs)

  abbrev pub put_back : Split A → A → List A
  put_back s x = s.before ++ x ∷ s.after
