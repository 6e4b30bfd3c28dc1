-- ===== src/Spawner/Start.antt =====
-- The life of the server: CreateAppSpawnServer, AppSpawnCreateContent, StartSpawnService, AppSpawnRun,
-- AppSpawnDestroyContent, AppSpawnClearEnv and IsEnablePrefork.
pub mod Laws
use openharmony_mac_build.Common.{
  ℤ, pos, int_eq, String, str_eq, Bool, true, false, not, ◌&&◌, Option, none, some, if◌then◌else◌,
  is_positive, minus_one,
}
use openharmony_mac_build.Spawner.State.{
  Env, Server, Content, Ctx, Code, done, failed, is_done, call, set_content, close_fd, close_signal,
  close_stream, delete_ctx, stop_loop, close_loop, run_loop, run_hooks, server_preload, server_exit,
  set_param, add_process, request,
}

close_end : ℤ → Server → Server
close_end fd s = if is_positive fd then call (close_fd fd) s else s

abbrev closed : ℤ → ℤ
closed fd = if is_positive fd then minus_one else fd

-- AppSpawnDestroyContent; in a child the tasks of the service are left alone.
unfoldable pub app_spawn_destroy_content : Server → Server
unfolding close_end
app_spawn_destroy_content s =
    let c = s.content in
    let t = close_end c.pipe_write (close_end c.pipe_read s) in
    let u = if c.sig_handler && c.own_process then call close_signal t else t in
    let v = if c.server_task && c.own_process then call close_stream u else u in
    let d = record c {
      pipe_read = closed c.pipe_read;
      pipe_write = closed c.pipe_write;
      server_task = c.server_task && not c.own_process;
    } in
    set_content d (call close_loop (call stop_loop (call (request "DeleteAppSpawnMgr") v)))

-- AppSpawnClearEnv
unfoldable pub app_spawn_clear_env : Ctx → Server → Server
app_spawn_clear_env x s = app_spawn_destroy_content (call (delete_ctx x) s)

-- AppSpawnRun
unfoldable pub app_spawn_run : Env → Server → Server
app_spawn_run env s =
    let t = call (request "LE_CreateSignalTask") s in
    let u =
      if env.signal_task_ok t.trace
      then set_content (record t.content { sig_handler = true })
          (call (request "LE_AddSignal SIGTERM") (call (request "LE_AddSignal SIGCHLD") t))
      else t in
    let v = if u.content.app_spawn_mode then call (request "sched_setscheduler") u else u in
    app_spawn_destroy_content (call (run_hooks server_exit) (call run_loop v))

-- IsEnablePrefork
unfoldable pub is_enable_prefork : Env → Server → Bool
is_enable_prefork env s = str_eq (env.prefork_param s.trace) "true"

-- CreateAppSpawnServer
unfoldable pub create_app_spawn_server : Env → Server → Code × Server
create_app_spawn_server env s =
    let t =
      call (request "LE_CreateStreamServer")
        (call (request "MakeDirRec") (call (request "GetControlSocket") s)) in
    if env.stream_server_ok t.trace
    then (
      done,
      set_content (record t.content { server_task = true }) (call (request "SetFdCtrl") t),
    )
    else (failed, t)

abbrev with_prefork : Env → Server → Server
with_prefork env s = set_content (record s.content { enable_prefork = is_enable_prefork env s }) s

fill_content : Env → Server → Option Content → Option Server × Server
fill_content env s none = (none, s)
fill_content env s (some c) =
    let t = set_content c s in
    let r = create_app_spawn_server env t in
    if c.cold_run_mode
    then (some (with_prefork env t), with_prefork env t)
    else (if is_done r.0
        then (some (with_prefork env r.1), with_prefork env r.1)
        else (none, app_spawn_destroy_content r.1))

-- AppSpawnCreateContent: the content, if there is one, and the server that is left.
unfoldable pub app_spawn_create_content : Env → Server → Option Server × Server
unfolding fill_content
app_spawn_create_content env s =
    let t = call (request "CreateAppSpawnMgr") s in fill_content env t (env.mgr t.trace)

pub data Mode : Type 0 where
  for_app_spawn for_nweb_spawn for_other : Mode

-- AppSpawnStartArg
pub record StartArg : Type 0 where
  pub mode : Mode
  pub socket_name : String
  pub service_name : String
  pub module_type : String
  pub init_arg : Bool

-- What the child that becomes the server of nweb starts with.
abbrev pub nweb_arg : StartArg
nweb_arg = record {
  mode = for_nweb_spawn;
  socket_name = "NWEBSPAWN_SOCKET_NAME";
  service_name = "NWEBSPAWN_SERVER_NAME";
  module_type = "MODULE_NWEBSPAWN";
  init_arg = true;
}

-- The start: who this process is, and for a parent the pid of the server of nweb.
unfoldable pub launch : Env → StartArg → Mode → Server → ℤ × StartArg × Server
launch env a for_app_spawn s =
    let t = call (request "NWebSpawnLaunch") s in
    let pid = env.launched t.trace in (pid, if int_eq pid (pos 0) then nweb_arg else a, t)
launch env a for_nweb_spawn s =
    (pos 0, a, if env.is_root then call (request "NWebSpawnInit") s else s)
launch env a for_other s = (pos 0, a, s)

announce : ℤ → Mode → Server → Server
announce pid for_app_spawn s =
    call (set_param "bootevent.appspawn.started" "true") (call (add_process pid false) s)
announce pid m s = s

-- The content is there: its modules, its preparation, and what stands for its children.
prepared : Env → ℤ → StartArg → Option Server × Server → Option Server × Server
unfolding announce
prepared env pid a (none, s) = (none, s)
prepared env pid a (some c, s) =
    let t = call (run_hooks server_preload) (call (request a.module_type) s) in
    let u = announce pid a.mode (call (request "AddAppSpawnHook AppSpawnClearEnv") t) in
    if not (is_done (env.hook_result t.trace))
    then (none, app_spawn_destroy_content t)
    else elim (env.processor t.trace) [
      | none ↦ (none, app_spawn_destroy_content t)
      | some r ↦ (some u, u)
    ]

unfoldable pub after_launch : Env → ℤ × StartArg × Server → Option Server × Server
unfolding prepared
after_launch env (pid, a, t) =
    let u = call (request "AppSpawnModuleMgrInstall") (call (request "MODULE_COMMON") t) in
    if a.init_arg && not (env.title_ok t.trace)
    then (none, t)
    else (if env.loop_ok then prepared env pid a (app_spawn_create_content env u) else (none, u))

-- StartSpawnService
unfoldable pub start_spawn_service : Env → StartArg → Server → Option Server × Server
start_spawn_service env arg s = after_launch env (launch env arg arg.mode s)
