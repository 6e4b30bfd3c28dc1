-- ===== src/Spawner/State.antt =====
-- What appspawn keeps while it runs: the messages of its clients, the contexts of the children that
-- are being spawned, and the calls that it makes. The queues of contexts and of processes belong to
-- appspawn_manager.c, which lies elsewhere: here they are calls and answers.
use openharmony_mac_build.Common.{
  ℕ, ℤ, String, Bool, true, false, Option, List, ◌∷◌, if◌then◌else◌, minus_one, is_negative,
}
use openharmony_mac_build.AppSpawn.Child as Child

-- The types of messages; `other` is any number that the file does not name.
pub data MsgType : Type 0 where
  get_render_termination_status spawn_native_process app_spawn dump beget_cmd : MsgType
  beget_spawntime update_mount_points restart_spawner device_debug : MsgType
  uninstall_debug_hap lock_status other : MsgType

-- AppSpawnMsgNode: its address, and what the file reads of its header. `connection` is set once the
-- message belongs to a context.
pub record Message : Type 0 where
  pub node : ℕ
  pub msg_type : MsgType
  pub msg_id : ℕ
  pub msg_len : ℕ
  pub connection : Option ℕ

-- Results: 0, -1, the APPSPAWN codes that the file names, and any other value.
pub data Code : Type 0 where
  done failed : Code
  system_error msg_invalid debug_mode_not_support child_crash spawn_timeout : Code
  fork_fail app_not_exist app_not_debuggable : Code
  value : ℕ → Code

abbrev pub is_done : Code → Bool
is_done done = true
is_done c = false

-- AppSpawningCtx, with its AppSpawnClient and its forkCtx. A timer and a watcher are their handles.
pub record Ctx : Type 0 where
  pub handle : ℕ
  pub client_id : ℕ
  pub cold_start : Bool  -- APP_COLD_START in the flags of the client
  pub pid : ℤ
  pub is_spawning : Bool  -- APP_STATE_SPAWNING
  pub is_prefork : Bool
  pub message : Option Message
  pub fd_read : ℤ
  pub fd_write : ℤ
  pub timer : Option ℕ
  pub watcher : Option ℕ
  pub msg_size : ℕ
  pub child_msg : Bool  -- whether `childMsg` is set

-- AppSpawnedProcess, and whether its name is that of the nwebspawn server.
pub record App : Type 0 where
  pub app_pid : ℤ
  pub is_nwebspawn : Bool
  pub is_debuggable : Bool

pub data Signal : Type 0 where
  sigkill sigterm : Signal
  signal : ℤ → Signal

pub data Stage : Type 0 where
  parent_pre_fork parent_post_fork parent_pre_rely parent_post_rely parent_uninstall : Stage
  server_app_add server_app_died server_app_umount : Stage
  server_preload server_exit server_lock : Stage
  child_spawning child_pre_reply child_post_reply child_env_clear : Stage

pub data Call : Type 0 where
  send : Message → Code → ℤ → Call
  create_buffer free_buffer : Call
  delete_msg : Message → Call
  create_ctx : Call
  delete_ctx : Ctx → Call
  add_process : ℤ → Bool → Call
  terminate_process : App → Call
  remove_process : App → Call
  kill_process : ℤ → Signal → Call
  kill_and_wait : ℤ → Call
  run_hooks : Stage → Call
  write_result : ℤ → Code → Call
  close_fd : ℤ → Call
  make_pipe : Call
  fork_child : Call
  spawn : Child.Trace → Call  -- what AppSpawnProcessMsg called
  map_memory : ℕ → Bool → Call
  unmap_memory : ℕ → Call
  unlink_memory : ℕ → Call
  copy_msg : Call
  write_client : ℕ → Call
  read_result : ℤ → Call
  start_watcher : Call
  remove_watcher : Call
  create_timer : Call
  start_timer : ℕ → Call
  stop_timer : ℕ → Call
  open_pidfd : ℤ → Call
  malloc_pid : Call
  close_task close_stream close_signal : Call
  stop_loop close_loop run_loop : Call
  set_param : String → String → Call
  bind_mount : List ℕ → List ℕ → Call
  share_mount detach_mount : List ℕ → Call
  exec_path : Call
  accept_client : Call
  read_msg : ℕ → ℕ → Call  -- GetAppSpawnMsgFromBuffer at an offset, with a length
  request : String → Call  -- another call, by its name

-- The newest call first.
abbrev pub Trace : Type 0
Trace = List Call

-- AppSpawnContent, with the statics of the file.
pub record Content : Type 0 where
  pub reserved_pid : ℤ
  pub property_buffer : Bool  -- whether `propertyBuffer` is set
  pub prefork_read : ℤ
  pub prefork_write : ℤ
  pub pipe_read : ℤ  -- parentToChildFd
  pub pipe_write : ℤ
  pub enable_prefork : Bool
  pub app_spawn_mode : Bool  -- MODE_FOR_APP_SPAWN
  pub nweb_spawn_mode : Bool
  pub cold_run_mode : Bool
  pub sig_handler : Bool  -- whether `sigHandler` and `server` are set
  pub server_task : Bool
  pub own_process : Bool  -- whether `servicePid` is the pid of this process
  pub last_died_app_id : ℕ  -- g_lastDiedAppId
  pub crash_times : ℕ  -- g_crashTimes

pub record Server : Type 0 where
  pub content : Content
  pub trace : Trace

abbrev pub call : Call → Server → Server
call c s = record s { trace = c ∷ s.trace }

abbrev pub set_content : Content → Server → Server
set_content c s = record s { content = c }

-- What GetAppSpawnMsgFromBuffer comes to: an error, with the message that it has begun, or the message,
-- how much of it is there, and how much of the buffer remains.
pub data Received : Type 0 where
  broken : Code → Option Message → Received
  read : Message → ℕ → ℕ → Received

-- A control message of recvmsg: whether it passes descriptors (SCM_RIGHTS), and which.
pub record Control : Type 0 where
  pub is_rights : Bool
  pub passed : List ℤ

-- What the file asks of the cJSON object of a debug message: an item is there if it has the type asked
-- for. `args` is the object of the arguments, with its number "signal".
pub record Json : Type 0 where
  pub app : Option ℤ
  pub op : Option String
  pub args : Option (Option ℤ)

-- What lies outside the file. An answer may depend on all calls made before it.
pub record Env : Type 0 where
  pub copy_ok : Trace → Bool  -- memcpy_s
  pub created_ctx : Trace → Option Ctx
  pub spawned_process : Trace → ℤ → Option App  -- GetSpawnedProcess
  pub nweb_process : Trace → Option App  -- GetSpawnedProcessByName of the two servers
  pub native_process : Trace → Option App
  pub processes : Trace → List App  -- what TraversalSpawnedProcess visits
  pub contexts : Trace → List Ctx  -- what AppSpawningCtxTraversal visits
  pub ctx_by_pid : Trace → ℤ → Option Ctx
  pub pipe_fds : Trace → Option (ℤ × ℤ)
  pub pipe_errno : Trace → ℕ
  pub pid_of_fork : Trace → ℤ
  pub child_env : Trace → Child.Env  -- what AppSpawnProcessMsg runs on
  pub child_content : Child.Content
  pub child_client : Ctx → Child.Client
  pub is_mapped : Trace → Bool
  pub client_written : Trace → Bool
  pub client_read : Trace → Option (ℕ × Bool)  -- a whole AppSpawnClient: its id, and APP_COLD_START
  pub msg_in_buffer : Trace → Option Message  -- GetAppSpawnMsgFromBuffer of the mapped memory
  pub copy_error : ℕ
  pub child_result : Trace → Code
  pub watch_ok : Trace → Bool
  pub new_watcher : Trace → ℕ
  pub new_timer : Trace → Option ℕ
  pub timer_ok : Trace → Bool
  pub pidfd : Trace → ℤ
  pub malloc_ok : Trace → Bool
  pub hook_result : Trace → Code
  pub check_msg : Message → Code  -- CheckAppSpawnMsg
  pub decode_msg : Message → Code  -- DecodeAppSpawnMsg
  pub developer_mode : Bool
  pub hnp_enabled : Trace → Bool
  pub boot_finished : Trace → Bool
  pub is_cold_app : Ctx → Bool  -- one of the sanitizer flags of the message
  pub is_child_process : Ctx → Bool
  pub is_debug_app : Ctx → Bool
  pub exit_status_ok : ℕ → Bool  -- WIFSIGNALED or WIFEXITED
  pub cold_timeout : ℕ
  pub warm_timeout : ℕ
  pub spawn_timeout_of : ℕ → ℕ
  pub kill_ok : Trace → Bool
  pub ext_info : Message → String → Option String  -- GetAppSpawnMsgExtInfo, if it is not empty
  pub json : String → Option Json  -- cJSON_Parse
  pub to_int : String → ℤ  -- atoi
  pub at_colon : String → Option (String × String)  -- strtok_r
  pub param_of_user : ℤ → String  -- startup.appspawn.lockstatus_%d
  pub param_ok : Trace → Bool  -- SetParameter
  pub rebuilt : Trace → Message → App → Option Message  -- RebuildAppSpawnMsgNode
  pub termination : Trace → Code × Code × ℤ  -- ProcessTerminationStatusMsg, and what it finds
  pub spawn_times : Trace → ℕ × ℤ  -- minAppspawnTime and maxAppspawnTime
  pub install_path : Trace → List ℕ  -- the parameter of the web core, as characters
  pub dir : Trace → List ℕ → Option (List (List ℕ))  -- opendir, and the names readdir gives
  pub mount_errno : Trace → ℕ  -- 0 if mount succeeds
  pub control_socket : Trace → ℤ  -- GetControlSocket
  pub from_buffer : Trace → ℕ → ℕ → Option Message → ℕ → Received  -- at an offset, with a length
  pub recv_msg : Trace → ℤ × List Control  -- recvmsg: its result, and its control messages
  pub app_max_fd_count : ℕ  -- APP_MAX_FD_COUNT
  pub peer_uid : Trace → Option ℕ  -- getsockopt SO_PEERCRED
  pub shell_uid : ℕ  -- DecodeUid("shell")
  pub max_wait_msg : ℕ  -- MAX_WAIT_MSG_COMPLETE
  pub max_msg_total : ℕ  -- MAX_MSG_TOTAL_LENGTH
  pub beget_pid : Message → Option String  -- GetAppSpawnMsgExtInfo of MSG_EXT_NAME_BEGET_PID
  pub accept_ok : Trace → Bool  -- LE_AcceptStreamClient
  pub mapped_len : Trace → ℕ  -- msgLen of the mapped message
  pub processor : Trace → Option Code  -- runChildProcessor, if it is set, and its result
  pub signal_task_ok : Trace → Bool
  pub stream_server_ok : Trace → Bool
  pub prefork_param : Trace → String  -- persist.sys.prefork.enable
  pub mgr : Trace → Option Content  -- CreateAppSpawnMgr
  pub launched : Trace → ℤ  -- NWebSpawnLaunch
  pub is_root : Bool
  pub title_ok : Trace → Bool  -- memset_s and strncpy_s of argv[0]
  pub loop_ok : Bool  -- LE_GetDefaultLoop
  pub path_fits : List ℕ → Bool  -- snprintf_s into PATH_SIZE
  pub fcntl_ok : Trace → Bool  -- the F_SETFD just made
  pub fd_flags : Trace → ℤ  -- fcntl F_GETFD

-- SendResponse; the buffer that it made is freed if the message does not fit.
unfoldable pub send_response : Env → Message → Code → ℤ → Server → Server
send_response env m c pid s =
    let made = call create_buffer s in
    if env.copy_ok made.trace then call (send m c pid) made else call free_buffer made

-- NotifyResToParent: the result goes through the pipe once, and the pipe is closed.
unfoldable pub notify_res_to_parent : Ctx → Code → Server → Ctx × Server
notify_res_to_parent x c s = if is_negative x.fd_write then (x, s) else (
  record x { fd_write = minus_one },
  call (close_fd x.fd_write) (call (write_result x.fd_write c) s),
)
