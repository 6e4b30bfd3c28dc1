-- ===== src/AppSpawn/Hooks.antt =====
-- The hook stages of appspawn_modulemgr.c: who may add and run hooks at which stage, the spawn times,
-- and what the run of a stage reports.
pub mod Laws
use openharmony_mac_build.Common.{
  ℕ, Bool, true, false, not, ◌&&◌, Option, none, some, List, [], ◌∷◌, if◌then◌else◌, ltb, leb,
}

-- What HookMgrExecute returns: 0, ERR_NO_HOOK_STAGE or another code; and APPSPAWN_ARG_INVALID.
pub data Code : Type 0 where
  done no_hook_stage arg_invalid : Code
  code : ℕ → Code

-- The stages are consecutive numbers in a header. Three ranges of them are named by their ends.
pub record Stages : Type 0 where
  pub server_preload : ℕ
  pub server_exit : ℕ
  pub server_app_add : ℕ
  pub server_app_umount : ℕ
  pub parent_pre_fork : ℕ
  pub child_pre_run : ℕ
  pub child_pre_coldboot : ℕ
  pub child_execute : ℕ
  pub child_pre_rely : ℕ
  pub child_post_rely : ℕ
  pub traverse_stop_when_error : ℕ
  pub hook_stop_when_error : ℕ

pub data Call : Type 0 where
  execute : ℕ → ℕ → Call  -- HookMgrExecute of a stage, with flags
  add : ℕ → ℕ → Call  -- HookMgrAddEx at a stage, with a priority

-- The newest call first.
abbrev pub Trace : Type 0
Trace = List Call

pub record Env : Type 0 where
  pub stages : Stages
  pub open stages use *
  pub executed : Trace → Code
  pub added : Trace → Code

abbrev pub within : ℕ → ℕ → ℕ → Bool
within low high stage = leb low stage && leb stage high

-- A stage with no hooks is not a failure.
abbrev pub no_hooks_fine : Code → Code
no_hooks_fine no_hook_stage = done
no_hooks_fine c = c

execute_in : Env → Bool → ℕ → ℕ → Trace → Code × Trace
execute_in env fits stage flags t =
    let u = execute stage flags ∷ t in
    if fits then (no_hooks_fine (env.executed u), u) else (arg_invalid, t)

-- ServerStageHookExecute; whether content is there is the first test.
unfoldable pub server_stage_hook_execute : Env → Bool → ℕ → Trace → Code × Trace
unfolding execute_in
server_stage_hook_execute env content stage t =
    execute_in env (content && within env.server_preload env.server_exit stage) stage
      env.traverse_stop_when_error t

-- AppSpawnHookExecute; whether content and client are there are the first two tests.
unfoldable pub app_spawn_hook_execute : Env → Bool → Bool → ℕ → ℕ → Trace → Code × Trace
unfolding execute_in
app_spawn_hook_execute env content client stage flags t =
    if content && client
    then execute_in env (within env.parent_pre_fork env.child_pre_run stage) stage flags t
    else (arg_invalid, t)

-- The five stages of a child, for content and client that are there: AppSpawnExecuteClearEnvHook and
-- those after it.
unfoldable pub execute_clear_env_hook : Env → Trace → Code × Trace
execute_clear_env_hook env t =
    app_spawn_hook_execute env true true env.child_pre_coldboot env.hook_stop_when_error t

unfoldable pub execute_spawning_hook : Env → Trace → Code × Trace
execute_spawning_hook env t =
    app_spawn_hook_execute env true true env.child_execute env.hook_stop_when_error t

unfoldable pub execute_post_reply_hook : Env → Trace → Code × Trace
execute_post_reply_hook env t =
    app_spawn_hook_execute env true true env.child_post_rely env.hook_stop_when_error t

unfoldable pub execute_pre_reply_hook : Env → Trace → Code × Trace
execute_pre_reply_hook env t =
    app_spawn_hook_execute env true true env.child_pre_rely env.hook_stop_when_error t

unfoldable pub env_clear : Env → Trace → Trace
env_clear env t = (app_spawn_hook_execute env true true env.child_pre_run 0 t).1

-- ProcessMgrHookExecute
unfoldable pub process_mgr_hook_execute : Env → Bool → Bool → ℕ → Trace → Code × Trace
unfolding execute_in
process_mgr_hook_execute env content app_info stage t =
    if content && app_info
    then execute_in env (within env.server_app_add env.server_app_umount stage) stage 0 t
    else (arg_invalid, t)

add_in : Env → Bool → Bool → ℕ → ℕ → Trace → Code × Trace
add_in env hook fits stage prio t =
    let u = add stage prio ∷ t in if hook && fits then (env.added u, u) else (arg_invalid, t)

-- AddServerStageHook, AddAppSpawnHook and AddProcessMgrHook.
unfoldable pub add_server_stage_hook : Env → Bool → ℕ → ℕ → Trace → Code × Trace
unfolding add_in
add_server_stage_hook env hook stage prio t =
    add_in env hook (within env.server_preload env.server_exit stage) stage prio t

unfoldable pub add_app_spawn_hook : Env → Bool → ℕ → ℕ → Trace → Code × Trace
unfolding add_in
add_app_spawn_hook env hook stage prio t =
    add_in env hook (within env.parent_pre_fork env.child_pre_run stage) stage prio t

unfoldable pub add_process_mgr_hook : Env → Bool → ℕ → ℕ → Trace → Code × Trace
unfolding add_in
add_process_mgr_hook env hook stage prio t =
    add_in env hook (within env.server_app_add env.server_app_umount stage) stage prio t

-- spawnTime
pub record SpawnTime : Type 0 where
  pub min_time : ℕ
  pub max_time : ℕ

-- UpdateAppSpawnTime, for a time that is not negative.
unfoldable pub update_app_spawn_time : ℕ → SpawnTime → SpawnTime
update_app_spawn_time used s =
    let low = if ltb used s.min_time then record s { min_time = used } else s in
    if ltb low.max_time used then record low { max_time = used } else low
