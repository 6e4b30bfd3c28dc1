-- ===== src/Spawner/Start/Laws.antt =====
-- What is closed at the end of a server, and what a start leaves.
use openharmony_mac_build.Common.{
  ℕ, suc, ◌+◌, ℤ, pos, ◌≡◌, ◌∙◌, refl, ap, false, ◌&&◌, Option, none, some, [], ◌∷◌, if◌then◌else◌,
  arith, is_positive, int_eq,
}
use openharmony_mac_build.Spawner.State.{
  Env, Server, Content, Trace, call, close_fd, close_signal, close_stream, set_param, add_process,
  request, run_hooks, server_preload,
}
use openharmony_mac_build.Spawner.Start.{
  close_end, app_spawn_destroy_content, create_app_spawn_server, fill_content,
  app_spawn_create_content, StartArg, Mode, for_app_spawn, for_nweb_spawn, nweb_arg, launch,
  announce, prepared, after_launch, start_spawn_service,
}

-- How many descriptors have been closed.
abbrev pub closes : Trace → ℕ
closes [] = 0
closes (close_fd fd ∷ t) = suc (closes t)
closes (c ∷ t) = closes t

-- How many tasks of the loop have been closed.
abbrev pub task_ends : Trace → ℕ
task_ends [] = 0
task_ends (close_signal ∷ t) = suc (task_ends t)
task_ends (close_stream ∷ t) = suc (task_ends t)
task_ends (c ∷ t) = task_ends t

closes-app_spawn_destroy_content :
    (s : Server)
    → closes (app_spawn_destroy_content s).trace
      ≡ (if is_positive s.content.pipe_read then 1 else 0)
        + (if is_positive s.content.pipe_write then 1 else 0)
        + closes s.trace
unfolding app_spawn_destroy_content close_end
closes-app_spawn_destroy_content s = ground arith

app_spawn_destroy_content-down :
    (s : Server)
    → (is_positive (app_spawn_destroy_content s).content.pipe_read ≡ false)
      × (is_positive (app_spawn_destroy_content s).content.pipe_write ≡ false)
unfolding app_spawn_destroy_content
app_spawn_destroy_content-down s = (ground arith, ground arith)

task_ends-app_spawn_destroy_content :
    (s : Server)
    → task_ends (app_spawn_destroy_content s).trace
      ≡ (if s.content.own_process && s.content.sig_handler then 1 else 0)
        + (if s.content.own_process && s.content.server_task then 1 else 0)
        + task_ends s.trace
unfolding app_spawn_destroy_content close_end
task_ends-app_spawn_destroy_content s = ground arith

-- AppSpawnDestroyContent closes each end of the pipe that is open, a second call closes none again, and
-- the two tasks of the service, where they are set, are closed only in the process of the service.
pub app_spawn_destroy_content-closes :
    (s : Server)
    → let t = app_spawn_destroy_content s in
      (closes t.trace
        ≡ (if is_positive s.content.pipe_read then 1 else 0)
          + (if is_positive s.content.pipe_write then 1 else 0)
          + closes s.trace)
      × (closes (app_spawn_destroy_content t).trace ≡ closes t.trace)
      × (task_ends t.trace
          ≡ (if s.content.own_process && s.content.sig_handler then 1 else 0)
            + (if s.content.own_process && s.content.server_task then 1 else 0)
            + task_ends s.trace)
app_spawn_destroy_content-closes s =
    let t = app_spawn_destroy_content s in
    (
      closes-app_spawn_destroy_content s,
      ground (arith, closes-app_spawn_destroy_content t, app_spawn_destroy_content-down s),
      task_ends-app_spawn_destroy_content s,
    )

-- How often the start of appspawn has been announced, and a process has been recorded.
abbrev pub announced : Trace → ℕ
announced [] = 0
announced (set_param k v ∷ t) = suc (announced t)
announced (add_process p d ∷ t) = suc (announced t)
announced (c ∷ t) = announced t

announced-app_spawn_destroy_content :
    (s : Server) → announced (app_spawn_destroy_content s).trace ≡ announced s.trace
unfolding app_spawn_destroy_content close_end
announced-app_spawn_destroy_content s = ground arith

announced-create_app_spawn_server :
    (env : Env) (s : Server) → announced (create_app_spawn_server env s).1.trace ≡ announced s.trace
unfolding create_app_spawn_server
announced-create_app_spawn_server env s = ground arith

announced-fill_content :
    (env : Env) (s : Server) (o : Option Content)
    → announced (fill_content env s o).1.trace ≡ announced s.trace
unfolding fill_content
announced-fill_content env s none = refl
announced-fill_content env s (some c) =
    let r = create_app_spawn_server env (record s { content = c }) in
    ground (
      arith,
      announced-create_app_spawn_server env (record s { content = c }),
      announced-app_spawn_destroy_content r.1,
    )

announced-app_spawn_create_content :
    (env : Env) (s : Server)
    → announced (app_spawn_create_content env s).1.trace ≡ announced s.trace
unfolding app_spawn_create_content
announced-app_spawn_create_content env s =
    let t = call (request "CreateAppSpawnMgr") s in announced-fill_content env t (env.mgr t.trace)

announced-prepared :
    (env : Env) (pid : ℤ) (a : StartArg) (r : Option Server × Server)
    → a.mode ≡ for_nweb_spawn
    → announced (prepared env pid a r).1.trace ≡ announced r.1.trace
unfolding prepared announce
announced-prepared env pid a (none, s) e = refl
announced-prepared env pid a (some c, s) e =
    let t = call (run_hooks server_preload) (call (request a.module_type) s) in
    ground (arith, announced-app_spawn_destroy_content t)

announced-after_launch :
    (env : Env) (pid : ℤ) (a : StartArg) (t : Server)
    → a.mode ≡ for_nweb_spawn
    → announced (after_launch env (pid, a, t)).1.trace ≡ announced t.trace
unfolding after_launch
announced-after_launch env pid a t e =
    let u = call (request "AppSpawnModuleMgrInstall") (call (request "MODULE_COMMON") t) in
    let r = app_spawn_create_content env u in
    ground (arith, announced-prepared env pid a r e, announced-app_spawn_create_content env u)

-- The trace of a start, by the pid of the server of nweb.
abbrev launched_as : Env → StartArg → Server → ℤ → ℕ
launched_as env arg t pid =
    announced (after_launch env (pid, if int_eq pid (pos 0) then nweb_arg else arg, t)).1.trace

-- The child that is started to be the server of nweb, whose pid is 0, neither announces the start of
-- appspawn nor records a process, whatever fails.
pub start_spawn_service_child :
    (env : Env) (arg : StartArg) (s : Server)
    → arg.mode ≡ for_app_spawn
    → ((t : Trace) → env.launched t ≡ pos 0)
    → announced (start_spawn_service env arg s).1.trace ≡ announced s.trace
unfolding start_spawn_service launch
start_spawn_service_child env arg s e p =
    let t = call (request "NWebSpawnLaunch") s in
    ap (λ (m : Mode). announced (after_launch env (launch env arg m s)).1.trace) e
    ∙ ap (launched_as env arg t) (p t.trace)
    ∙ announced-after_launch env (pos 0) nweb_arg t refl
