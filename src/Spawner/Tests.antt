-- ===== src/Spawner/Tests.antt =====
-- The theorems on the server of appspawn at a concrete server, context and message.
mod Requests
mod Others
use openharmony_mac_build.Common.{pos, true, false, none, some, [], ◌∷◌, leb, length}
use openharmony_mac_build.AppSpawn.Child as Child
use openharmony_mac_build.Spawner.State.{
  Env, Server, Content, Ctx, App, Message, app_spawn, Code, done, msg_invalid, broken, Json,
}

abbrev pub content : Content
content = record {
  reserved_pid = pos 31;
  property_buffer = true;
  prefork_read = pos 5;
  prefork_write = pos 6;
  pipe_read = pos 7;
  pipe_write = pos 8;
  enable_prefork = true;
  app_spawn_mode = true;
  nweb_spawn_mode = false;
  cold_run_mode = false;
  sig_handler = true;
  server_task = true;
  own_process = true;
  last_died_app_id = 3;
  crash_times = 1;
}

abbrev pub server : Server
server = record { content = content; trace = [] }

abbrev pub ctx : Ctx
ctx = record {
  handle = 1;
  client_id = 40;
  cold_start = false;
  pid = pos 0;
  is_spawning = false;
  is_prefork = false;
  message = none;
  fd_read = pos 0;
  fd_write = pos 0;
  timer = none;
  watcher = none;
  msg_size = 0;
  child_msg = false;
}

abbrev pub message : Message
message = record { node = 77; msg_type = app_spawn; msg_id = 1; msg_len = 300; connection = none }

abbrev pub app : App
app = record { app_pid = pos 91; is_nwebspawn = false; is_debuggable = true }

abbrev child_env : Child.Env
child_env = record {
  hook_result = λ t. Child.zero_result;
  cold_started = λ t. true;
  run_result = λ t. Child.zero_result;
  forked = λ t. pos 90;
}

-- All goes well: the child has the pid 90, and every process is debuggable.
abbrev pub env : Env
env = record {
  copy_ok = λ t. true;
  created_ctx = λ t. some ctx;
  spawned_process = λ t p. some app;
  nweb_process = λ t. none;
  native_process = λ t. none;
  processes = λ t. app ∷ [];
  contexts = λ t. ctx ∷ [];
  ctx_by_pid = λ t p. none;
  pipe_fds = λ t. some (pos 10, pos 11);
  pipe_errno = λ t. 24;
  pid_of_fork = λ t. pos 32;
  child_env = λ t. child_env;
  child_content = record {
    can_notify = true;
    can_cold_start = true;
    can_run_child = true;
    is_nweb = false;
    sandbox_ns_flags = 0;
  };
  child_client = λ x. record { is_cold_start = false; process_type = none };
  is_mapped = λ t. true;
  client_written = λ t. true;
  client_read = λ t. none;
  msg_in_buffer = λ t. none;
  copy_error = 34;
  child_result = λ t. done;
  watch_ok = λ t. true;
  new_watcher = λ t. 500;
  new_timer = λ t. some 600;
  timer_ok = λ t. true;
  pidfd = λ t. pos 12;
  malloc_ok = λ t. true;
  hook_result = λ t. done;
  check_msg = λ m. done;
  decode_msg = λ m. done;
  developer_mode = true;
  hnp_enabled = λ t. false;
  boot_finished = λ t. false;
  is_cold_app = λ x. false;
  is_child_process = λ x. false;
  is_debug_app = λ x. false;
  exit_status_ok = λ n. true;
  cold_timeout = 5;
  warm_timeout = 3;
  spawn_timeout_of = λ n. n;
  kill_ok = λ t. true;
  ext_info = λ m k. some "{}";
  json = λ t. some (record { app = some (pos 91); op = some "kill"; args = some (some (pos 9)) });
  to_int = λ t. pos 91;
  at_colon = λ t. none;
  param_of_user = λ u. "startup.appspawn.lockstatus_100";
  param_ok = λ t. true;
  rebuilt = λ t m a. some (record message { node = 78 });
  termination = λ t. (done, done, pos 0);
  spawn_times = λ t. (1, pos 2);
  install_path = λ t. b'/' ∷ b'w' ∷ b'/' ∷ b'a' ∷ [];
  dir = λ t p. some ((b'1' ∷ []) ∷ []);
  mount_errno = λ t. 0;
  control_socket = λ t. pos 13;
  from_buffer = λ t o n m k. broken msg_invalid none;
  recv_msg = λ t. (pos 0, []);
  app_max_fd_count = 16;
  peer_uid = λ t. some 5523;
  shell_uid = 2000;
  max_wait_msg = 5000;
  max_msg_total = 65536;
  beget_pid = λ m. some "91";
  accept_ok = λ t. true;
  mapped_len = λ t. 300;
  processor = λ t. some done;
  signal_task_ok = λ t. true;
  stream_server_ok = λ t. true;
  prefork_param = λ t. "true";
  mgr = λ t. some content;
  launched = λ t. pos 0;
  is_root = true;
  title_ok = λ t. true;
  loop_ok = true;
  path_fits = λ p. leb (length p) 255;
  fcntl_ok = λ t. true;
  fd_flags = λ t. pos 1;
}
