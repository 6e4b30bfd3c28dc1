-- ===== src/Spawner/Debug.antt =====
-- What debug messages ask for: AppspawpnDevicedebugKill, AppspawnDevicedebugDeal,
-- ProcessAppSpawnDeviceDebugMsg, ProcessAppSpawnLockStatusMsg and ProcessUninstallDebugHap.
pub mod Laws
use openharmony_mac_build.Common.{
  ℤ, pos, String, str_eq, Bool, true, false, not, ◌&&◌, ◌||◌, Option, none, some, if◌then◌else◌,
  int_less,
}
use openharmony_mac_build.Spawner.State.{
  Env, Server, Ctx, App, Message, Code, done, failed, system_error, app_not_exist,
  app_not_debuggable, signal, call, Json, kill_process, create_ctx, delete_ctx, delete_msg, request,
  run_hooks, parent_uninstall, server_lock, set_param, send_response,
}

unfoldable pub kill_debuggable : Env → ℤ → ℤ → Server → Option App → Code × Server
kill_debuggable env pid n s none = (app_not_exist, s)
kill_debuggable env pid n s (some a) =
    let t = call (kill_process pid (signal n)) s in
    if not a.is_debuggable
    then (app_not_debuggable, s)
    else (if env.kill_ok t.trace then (done, t) else (failed, t))

-- AppspawpnDevicedebugKill, on the number "signal" of the arguments.
unfoldable pub appspawpn_devicedebug_kill : Env → ℤ → Option ℤ → Server → Code × Server
unfolding kill_debuggable
appspawpn_devicedebug_kill env pid none s = (failed, s)
appspawpn_devicedebug_kill env pid (some n) s =
    kill_debuggable env pid n s (env.spawned_process s.trace pid)

-- AppspawnDevicedebugDeal
unfoldable pub appspawn_devicedebug_deal : Env → String → ℤ → Option ℤ → Server → Code × Server
appspawn_devicedebug_deal env op pid args s =
    if str_eq op "kill" then appspawpn_devicedebug_kill env pid args s else (failed, s)

-- The items, in the order in which they are asked for.
unfoldable pub deal_json :
    Env → Option ℤ → Option String → Option (Option ℤ) → Server → Code × Server
deal_json env none op args s = (failed, s)
deal_json env (some p) none args s = (failed, s)
deal_json env (some p) (some op) none s = (failed, s)
deal_json env (some p) (some op) (some n) s = appspawn_devicedebug_deal env op p n s

unfoldable pub parsed_json : Env → Server → Option Json → Code × Server
unfolding deal_json
parsed_json env s none = (failed, s)
parsed_json env s (some j) =
    let r = deal_json env j.app j.op j.args s in (r.0, call (request "cJSON_Delete") r.1)

unfoldable pub parse_json : Env → Server → Option String → Code × Server
unfolding parsed_json
parse_json env s none = (failed, s)
parse_json env s (some text) = parsed_json env (call (request "cJSON_Parse") s) (env.json text)

-- ProcessAppSpawnDeviceDebugMsg
unfoldable pub process_app_spawn_device_debug_msg : Env → Message → Server → Code × Server
unfolding parse_json
process_app_spawn_device_debug_msg env m s = parse_json env s (env.ext_info m "devicedebug")

-- USER_ID_MIN_VALUE and USER_ID_MAX_VALUE
abbrev pub user_id_min_value : ℤ
user_id_min_value = pos 100

abbrev pub user_id_max_value : ℤ
user_id_max_value = pos 10736

set_lock : Env → ℤ → String → Server → Server
set_lock env user status s =
    let t = call (set_param (env.param_of_user user) status) s in
    if (int_less user user_id_min_value || int_less user_id_max_value user)
      || (not (str_eq status "0") && not (str_eq status "1"))
    then s
    else (if env.param_ok t.trace && str_eq status "0" then call (run_hooks server_lock) t else t)

split_lock : Env → Server → Option (String × String) → Server
unfolding set_lock
split_lock env s none = s
split_lock env s (some (user, status)) = set_lock env (env.to_int user) status s

lock_info : Env → Server → Option String → Server
unfolding split_lock
lock_info env s none = s
lock_info env s (some text) = split_lock env s (env.at_colon text)

-- ProcessAppSpawnLockStatusMsg, without APPSPAWN_SANDBOX_NEW.
unfoldable pub process_app_spawn_lock_status_msg : Env → Message → Server → Server
unfolding lock_info
process_app_spawn_lock_status_msg env m s = lock_info env s (env.ext_info m "lockstatus")

unfoldable pub uninstall : Env → Message → Server → Option Ctx → Server
uninstall env m s none = call (delete_msg m) (send_response env m system_error (pos 0) s)
uninstall env m s (some x) =
    let y = record x { message = some m } in
    let t = call (run_hooks parent_uninstall) s in
    call (delete_ctx y) (send_response env m (env.hook_result t.trace) (pos 0) t)

-- ProcessUninstallDebugHap
unfoldable pub process_uninstall_debug_hap : Env → Message → Server → Server
unfolding uninstall
process_uninstall_debug_hap env m s =
    let t = call create_ctx s in uninstall env m t (env.created_ctx t.trace)
