-- ===== src/Service/Types.antt =====
-- The state of a service, the calls that init makes on its behalf, and what those calls answer.
-- The fields of `Service` are the members that init_common_service.c reads or writes.
use openharmony_mac_build.Common.{
  ℕ, ℤ, String, Bool, Option, none, some, List, ◌∷◌, if◌then◌else◌, ltb, ◌+◌, ◌&&◌, pos, negsuc,
  zero,
}

-- SERVICE_SUCCESS, SERVICE_FAILURE and the INIT_E codes; their numbers are in a header elsewhere.
pub data Code : Type 0 where
  success failure efork epath econtent esandbox eaccesstoken esocket efile econsole eholder : Code
  ewritepid ekeepcap egidset eseccomp euidset ecap epriority eexec eparameter eformat : Code
  errno_value : ℕ → Code  -- an errno returned as it is

-- SERVICE_STARTED, SERVICE_STOPPING, SERVICE_STOPPED; `idle` is SERVICE_IDLE.
pub data Status : Type 0 where
  idle started stopping stopped : Status

-- The bits of `attribute` that the file names. `rest` holds the bits that only the macros of other
-- files read: the timer bit and the on-demand bit.
pub record Attr : Type 0 where
  pub invalid : Bool
  pub need_restart : Bool
  pub need_stop : Bool
  pub once : Bool
  pub period : Bool
  pub critical : Bool
  pub console : Bool
  pub kmsg : Bool
  pub rest : ℕ

-- serviceJobs.jobsName, at JOB_ON_START, JOB_PRE_START, JOB_ON_STOP and JOB_ON_RESTART.
pub record Jobs : Type 0 where
  pub on_start : Option String
  pub pre_start : Option String
  pub on_stop : Option String
  pub on_restart : Option String

-- servPerm.
pub record Perm : Type 0 where
  pub uid : ℕ
  pub gids : List ℕ
  pub caps : List ℕ

pub record Cmd : Type 0 where
  pub index : ℕ
  pub content : String

pub record Timespec : Type 0 where
  pub sec : ℕ
  pub nsec : ℕ

pub record Service : Type 0 where
  pub name : String
  pub pid : ℤ
  pub status : Status
  pub attr : Attr
  pub last_errno : Code
  pub path_args : List String
  pub importance : ℤ
  pub main_context : Bool  -- context.type is INIT_CONTEXT_MAIN
  pub perm : Perm
  pub jobs : Jobs
  pub write_pid_args : List (Option String)
  pub env_vars : Option (List (String × String))
  pub socket_fds : List ℤ  -- socketCfg, the descriptors along its `next` links
  pub fds : Option (List ℤ)  -- the block behind `fds`, with its spare last cell
  pub fd_count : ℕ
  pub cpu_set : Option ℕ  -- CPU_COUNT of the set, if there is one
  pub restart_arg : Option (List Cmd)
  pub timer : Option ℕ
  pub timer_period : ℕ
  pub crash_cnt : ℕ
  pub first_crash_time : ℕ  -- uint32_t
  pub crash_time : ℕ  -- a negative limit is 0: only `> 0` and a cast read it
  pub crash_count : ℕ

pub data Hook : Type 0 where
  fork_before fork_after set_perms_before set_perms reap_hook : Hook

pub data TimerKind : Type 0 where
  start_timer restart_timer : TimerKind

-- Calls with an effect outside the service, in the words of the source.
pub data Call : Type 0 where
  write_status : String → Status → Call
  write_pid : String → ℤ → Call
  oom_open : ℤ → Call
  oom_write : Call
  oom_close : Call
  do_job : String → Call
  run_hook : Hook → Call
  clock_gettime : Call
  fork : Call
  report_start : ℤ → Call
  close_sockets : Call
  close_files : Call
  close_fd : ℤ → Call
  dup : ℤ → Call
  set_fd_env : List ℤ → Call
  kill : ℤ → ℕ → Call
  do_cmd : ℕ → String → Call
  write_pid_file : String → Call
  open_hidebug : Call
  exec_reboot : Call
  add_watcher : ℤ → Call
  watch_console : Call
  create_timer : TimerKind → Call
  start_timer_for : ℕ → ℕ → Call
  stop_timer : ℕ → Call
  stat_path : Call
  enter : String → Call  -- a named step of the child that only its result matters of
  set_env : String → String → Call
  setgid : ℕ → Call
  setgroups : List ℕ → Call
  setuid : ℕ → Call
  drop_cap : ℕ → Call
  capset : List ℕ → Call
  set_ambient : ℕ → Call
  setpriority : ℤ → Call
  execv : Call

-- The newest call first.
abbrev pub Trace : Type 0
Trace = List Call

-- What lies outside these files. A result may depend on all calls made before it.
pub record Env : Type 0 where
  pub is_timer_enabled : Attr → Bool
  pub enable_timer : Attr → Attr
  pub disable_timer : Attr → Attr
  pub is_on_demand : Attr → Bool
  pub param_name_fits : String → Bool
  pub pid_name_fits : String → Bool
  pub oom_open_ok : Trace → Bool
  pub path_exists : Trace → String → Bool
  pub fork_result : Trace → ℤ
  pub kill_ok : Trace → Bool
  pub kill_signal : String → ℕ
  pub now : Trace → Timespec
  pub interval_time : Timespec → Timespec → ℕ
  pub new_timer : Trace → Option ℕ
  pub start_timer_ok : Trace → Bool
  pub watch_console_ok : Trace → Bool
  pub after_close : List ℤ → List ℤ  -- what CloseServiceSocket leaves of the socket list
  pub step_ok : Trace → Bool  -- whether the call of the child just made succeeded
  pub errno : Trace → ℕ
  pub on_demand_sockets : List (Bool × List ℤ)  -- per owner: whether it is this service; its sockets
  pub with_seccomp : Bool  -- WITH_SECCOMP
  pub cmd_fits : String → String → Bool  -- "name argv0" fits in MAX_CMD_CONTENT_LEN
  pub cap_num : ℕ  -- CAP_NUM
  pub cap_to_index : ℕ → ℕ
  pub cap_to_mask : ℕ → ℕ
  pub alloc_ok : Bool
  pub last_cap : ℕ  -- CAP_LAST_CAP
  pub full_cap : ℕ  -- FULL_CAP
  pub max_hold_fds : ℕ  -- MAX_HOLD_FDS
  pub memcpy_ok : Bool
  pub dup_result : Trace → ℤ → ℤ
  pub env_name_fits : String → Bool
  pub printed_len : ℤ → ℕ  -- how many characters "%d " takes
  pub max_fd_buffer : ℕ  -- MAX_FD_HOLDER_BUFFER
  pub setenv_ok : Trace → Bool

-- A service, with the calls made so far.
pub record Proc : Type 0 where
  pub svc : Service
  pub trace : Trace

abbrev pub call : Call → Proc → Proc
call c p = record p { trace = c ∷ p.trace }

pub data Result : Type 0 where
  ok : Proc → Result
  fails : Code → Proc → Result
  fault : Proc → Result  -- an access outside an array

infixl 5 ◌>>=◌
abbrev pub ◌>>=◌ : Result → (Proc → Result) → Result
ok p >>= f = f p
fails c p >>= f = fails c p
fault p >>= f = fault p

abbrev pub state_of : Result → Proc
state_of (ok p) = p
state_of (fails c p) = p
state_of (fault p) = p

-- `INIT_ERROR_CHECK(call() == 0, return code, …)`
abbrev pub check_call : (Trace → Bool) → Code → Call → Proc → Result
check_call test c x p = let q = call x p in if test q.trace then ok q else fails c q

abbrev pub set_attr : Attr → Proc → Proc
set_attr a p = record p { svc = record p.svc { attr = a } }

abbrev pub set_errno : Code → Proc → Proc
set_errno c p = record p { svc = record p.svc { last_errno = c } }

abbrev pub set_pid : ℤ → Proc → Proc
set_pid n p = record p { svc = record p.svc { pid = n } }

abbrev pub run_job : Option String → Proc → Proc
run_job none p = p
run_job (some j) p = call (do_job j) p

-- "/proc/%d/oom_score_adj" with its end in 30 characters.
oom_path_fits : ℤ → Bool
oom_path_fits (pos n) = ltb n 1000000000
oom_path_fits (negsuc n) = ltb (n + 1) 100000000

oom_opened : Env → Proc → Proc
oom_opened env p = if env.oom_open_ok p.trace then call oom_close (call oom_write p) else p

-- WriteOomScoreAdjToService.
write_oom_score : Env → Proc → Proc
unfolding oom_path_fits oom_opened
write_oom_score env p =
    if env.is_on_demand p.svc.attr && oom_path_fits p.svc.pid
    then oom_opened env (call (oom_open p.svc.pid) p)
    else p

published_pid : ℤ → ℤ
published_pid (negsuc zero) = pos 0
published_pid n = n

oom_on_start : Env → Status → Proc → Proc
unfolding write_oom_score
oom_on_start env started p = write_oom_score env p
oom_on_start env _ p = p

publish_pid : Env → Status → Proc → Proc
unfolding oom_on_start published_pid
publish_pid env s p =
    if env.pid_name_fits p.svc.name
    then call (write_pid p.svc.name (published_pid p.svc.pid)) (oom_on_start env s p)
    else p

publish : Env → Status → Proc → Proc
unfolding publish_pid
publish env idle p = p
publish env s p =
    if env.param_name_fits p.svc.name
    then publish_pid env s (call (write_status p.svc.name s) p)
    else p

-- NotifyServiceChange: the new status, and after it the pid, become system parameters.
unfoldable pub notify : Env → Status → Proc → Proc
unfolding publish
notify env s p = publish env s (record p { svc = record p.svc { status = s } })
