-- ===== src/AppSpawn/Child.antt =====
-- AppSpawnChild and AppSpawnProcessMsg of appspawn_server.c: the order in which a spawned child sets
-- itself up and answers its parent, and how the parent makes it.
pub mod Laws
use openharmony_mac_build.Common.{
  ℕ, ℤ, pos, negsuc, Bool, true, false, Option, none, some, List, [], ◌∷◌, if◌then◌else◌, ◌&&◌,
}

-- The stages at which a child runs hooks, through AppSpawnExecuteClearEnvHook and the others.
pub data Stage : Type 0 where
  clear_env spawning pre_reply post_reply env_clear : Stage

-- 0, or the code of a failure.
pub data Result : Type 0 where
  zero_result : Result
  error : ℕ → Result

abbrev pub is_ok : Result → Bool
is_ok zero_result = true
is_ok (error n) = false

pub data Call : Type 0 where
  hooks : Stage → Call
  notify : Result → Call
  cold_start : Call
  run_child : Call
  fork : Call
  clone_new_net : Call
  clone_sandbox : ℕ → Call

-- The newest call first.
abbrev pub Trace : Type 0
Trace = List Call

-- AppSpawnContent, with which of its function pointers are set.
pub record Content : Type 0 where
  pub can_notify : Bool
  pub can_cold_start : Bool
  pub can_run_child : Bool
  pub is_nweb : Bool  -- MODE_FOR_NWEB_SPAWN
  pub sandbox_ns_flags : ℕ

pub record Client : Type 0 where
  pub is_cold_start : Bool  -- APP_COLD_START
  pub process_type : Option Bool  -- the process type in the message, and whether it is "gpu"

pub record Env : Type 0 where
  pub hook_result : Trace → Result
  pub cold_started : Trace → Bool
  pub run_result : Trace → Result
  pub forked : Trace → ℤ

notify_res_to_parent : Content → Result → Trace → Trace
notify_res_to_parent c r t = if c.can_notify then notify r ∷ t else t

abbrev env_clear_hook : Trace → Trace
env_clear_hook t = hooks env_clear ∷ t

-- A failure before the answer: the parent is told, and the environment cleared.
give_up : Content → Result → Trace → Trace
unfolding notify_res_to_parent
give_up c r t = env_clear_hook (notify_res_to_parent c r t)

clear_unless : Result → Trace → Trace
clear_unless zero_result t = t
clear_unless (error n) t = env_clear_hook t

run_processor : Env → Content → Trace → Trace
unfolding clear_unless
run_processor env c t =
    let u = run_child ∷ t in if c.can_run_child then clear_unless (env.run_result u) u else t

-- After the three stages that can fail.
answered : Env → Content → Trace → Trace
unfolding notify_res_to_parent run_processor
answered env c t = run_processor env c (hooks post_reply ∷ notify_res_to_parent c zero_result t)

after_pre_reply : Env → Content → Result → Trace → Trace
unfolding answered give_up
after_pre_reply env c zero_result t = answered env c t
after_pre_reply env c (error n) t = give_up c (error n) t

after_spawning : Env → Content → Result → Trace → Trace
unfolding after_pre_reply give_up
after_spawning env c zero_result t =
    let u = hooks pre_reply ∷ t in after_pre_reply env c (env.hook_result u) u
after_spawning env c (error n) t = give_up c (error n) t

set_up : Env → Content → Trace → Trace
unfolding after_spawning
set_up env c t = let u = hooks spawning ∷ t in after_spawning env c (env.hook_result u) u

-- A cold start that works takes the place of the rest; one that fails falls back to it.
after_clear_env : Env → Content → Client → Result → Trace → Trace
unfolding set_up give_up
after_clear_env env c l (error n) t = give_up c (error n) t
after_clear_env env c l zero_result t =
    let u = cold_start ∷ t in
    if l.is_cold_start && c.can_cold_start
    then (if env.cold_started u then u else set_up env c u)
    else set_up env c t

-- AppSpawnChild, with content and client; it always returns 0.
unfoldable pub app_spawn_child : Env → Content → Client → Trace → Trace
unfolding after_clear_env
app_spawn_child env c l t =
    let u = hooks clear_env ∷ t in after_clear_env env c l (env.hook_result u) u

-- NwebSpawnCloneChildProcess: the pid, which stays 0 where the message names no process type.
nweb_clone : Env → Content → Option Bool → Trace → ℤ × Trace
nweb_clone env c none t = (pos 0, t)
nweb_clone env c (some gpu) t =
    let u = (if gpu then clone_new_net else clone_sandbox c.sandbox_ns_flags) ∷ t in
    (env.forked u, u)

unfoldable pub fork_child : Env → Trace → ℤ × Trace
fork_child env t = let u = fork ∷ t in (env.forked u, u)

-- The end of AppSpawnProcessMsg: the pid for the caller, or `none` for APPSPAWN_FORK_FAIL.
unfoldable pub child_pid : ℤ × Trace → Option ℕ × Trace
child_pid (pos n, t) = (some n, t)
child_pid (negsuc n, t) = (none, t)

-- AppSpawnProcessMsg, seen from the parent: a forked or cloned child leaves through ProcessExit.
unfoldable pub app_spawn_process_msg : Env → Content → Client → Trace → Option ℕ × Trace
unfolding nweb_clone fork_child child_pid
app_spawn_process_msg env c l t =
    child_pid (if c.is_nweb then nweb_clone env c l.process_type t else fork_child env t)
