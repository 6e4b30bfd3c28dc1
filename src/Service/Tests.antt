-- ===== src/Service/Tests.antt =====
-- The theorems on services at concrete services and answers of the system.
mod Resources
use openharmony_mac_build.Common.{
  ℕ, zero, suc, ◌+◌, ◌-◌, ◌≡◌, ap, refl, inr, inl, ℤ, pos, negsuc, minus_one, String, Bool, true,
  false, not, Option, none, some, List, [], ◌∷◌, ◌++◌, ◌==◌, is_positive, length, arith, ◌⊎◌,
}
use openharmony_mac_build.Service.Types.{
  Env, Service, Attr, Jobs, Perm, Timespec, Proc, Trace, Result, idle, started, success, failure,
  epath, fault, state_of, stat_path, create_timer, start_timer_for, stop_timer, start_timer, dup,
  notify,
}
use openharmony_mac_build.Service.Reap.{service_reap, check_sockets, null_read}
use openharmony_mac_build.Service.Reap.Laws.{
  StaysDown, service_reap-service_stop, service_reap_once, check_sockets_watches,
  check_sockets_null,
}
use openharmony_mac_build.Service.Stop.{service_stop}
use openharmony_mac_build.Service.Stop.Laws.{KeepsBits}
use openharmony_mac_build.Service.Start.{service_start, returns}
use openharmony_mac_build.Service.Start.Laws.{
  Promise, service_start-Promise, service_start_records, service_start_missing,
}
use openharmony_mac_build.Service.Frame.{forks}
use openharmony_mac_build.Service.Crash.Window.{crashes, crashes_in_window, crashes_spread}
use openharmony_mac_build.Service.Perms.{set_perms}
use openharmony_mac_build.Service.Perms.Order.{InOrder, set_perms-InOrder}
use openharmony_mac_build.Service.Child.{run_child_process}
use openharmony_mac_build.Service.Child.Errors.{Ends, run_child_process-Ends}
use openharmony_mac_build.Service.Timer.Laws.{TimerBit}
use openharmony_mac_build.Service.Start.Live.{is_live}
use openharmony_mac_build.Service.Life.{Reach, here, next, start, stop, handle, after_start}
use openharmony_mac_build.Service.Life.Live.{is_live-Reach}
use openharmony_mac_build.Service.Life.Sound.{Reach-IsSound}
use openharmony_mac_build.Service.Fds.Held.{IsSound}

-- A system where all goes well. The timer bit is the one in `rest`.
abbrev pub fine_env : Env
fine_env = record {
  is_timer_enabled = λ a. a.rest == 1;
  enable_timer = λ a. record a { rest = 1 };
  disable_timer = λ a. record a { rest = 0 };
  is_on_demand = λ a. false;
  param_name_fits = λ s. true;
  pid_name_fits = λ s. true;
  oom_open_ok = λ t. true;
  path_exists = λ t s. true;
  fork_result = λ t. pos 42;
  kill_ok = λ t. true;
  kill_signal = λ s. 15;
  now = λ t. record { sec = 7; nsec = 0 };
  interval_time = λ s e. e.sec - s.sec;
  new_timer = λ t. some 3;
  start_timer_ok = λ t. true;
  watch_console_ok = λ t. true;
  after_close = λ xs. [];
  step_ok = λ t. true;
  errno = λ t. 2;
  on_demand_sockets = [];
  with_seccomp = true;
  cmd_fits = λ s a. true;
  cap_num = 2;
  cap_to_index = λ c. 0;
  cap_to_mask = λ c. 1;
  alloc_ok = true;
  last_cap = 3;
  full_cap = 9;
  max_hold_fds = 4;
  memcpy_ok = true;
  dup_result = λ t x. x;
  env_name_fits = λ s. true;
  printed_len = λ x. 3;
  max_fd_buffer = 40;
  setenv_ok = λ t. true;
}

abbrev pub plain_attr : Attr
plain_attr = record {
  invalid = false;
  need_restart = false;
  need_stop = false;
  once = true;
  period = false;
  critical = false;
  console = false;
  kmsg = false;
  rest = 0;
}

abbrev pub plain_service : Service
plain_service = record {
  name = "samgr";
  pid = minus_one;
  status = idle;
  attr = plain_attr;
  last_errno = success;
  path_args = "/system/bin/samgr" ∷ [];
  importance = pos 0;
  main_context = true;
  perm = record { uid = 1000; gids = 1000 ∷ 3009 ∷ []; caps = 1 ∷ [] };
  jobs = record { on_start = none; pre_start = some "pre"; on_stop = none; on_restart = none };
  write_pid_args = [];
  env_vars = none;
  socket_fds = [];
  fds = some (pos 5 ∷ pos 6 ∷ pos 0 ∷ []);
  fd_count = 2;
  cpu_set = none;
  restart_arg = none;
  timer = none;
  timer_period = 0;
  crash_cnt = 0;
  first_crash_time = 0;
  crash_time = 20;
  crash_count = 4;
}

abbrev pub down : Proc
down = record { svc = plain_service; trace = [] }

abbrev pub running : Proc
running = record { svc = record plain_service { pid = pos 17 }; trace = [] }

fine-KeepsBits : KeepsBits fine_env
fine-KeepsBits = record { keeps_stop = λ a. refl; keeps_restart = λ a. refl }

pub fine-TimerBit : TimerBit fine_env
fine-TimerBit = record { enabled = λ a. ground arith; disabled = λ a. ground arith }

service_reap-service_stop_example :
    StaysDown (service_reap fine_env (state_of (service_stop fine_env running))) running
service_reap-service_stop_example = service_reap-service_stop fine_env running fine-KeepsBits

service_start-Promise_example :
    Promise (service_start fine_env ("/system/bin/samgr" ∷ []) down) down
service_start-Promise_example = service_start-Promise fine_env ("/system/bin/samgr" ∷ []) down

run_child_process-Ends_example :
    Ends fine_env (run_child_process fine_env ("/system/bin/samgr" ∷ []) down)
run_child_process-Ends_example = run_child_process-Ends fine_env "/system/bin/samgr" [] down

set_perms-InOrder_example : InOrder (set_perms fine_env down)
set_perms-InOrder_example = set_perms-InOrder fine_env down tt

abbrev at_second : ℕ → Timespec
at_second s = record { sec = s; nsec = 0 }

crashes_in_window_example :
    (crashes fine_env 20 3 (at_second 5 ∷ at_second 8 ∷ at_second 21 ∷ []) down).0 ≡ 2
crashes_in_window_example =
    crashes_in_window fine_env 20 3 (at_second 5) (at_second 8 ∷ at_second 21 ∷ []) down refl
      (omega arith) (omega arith, (omega arith, tt)) (omega arith)

abbrev crashed_once : Proc
crashed_once = record down { svc = record plain_service { crash_cnt = 1 } }

abbrev empty_env : Env
empty_env = record fine_env { path_exists = λ t s. false }

-- The service after a start, and its start as a run of one event.
abbrev started_up : Proc
started_up =
    (service_start_records fine_env "/system/bin/samgr" [] down 41 refl refl refl (λ t. refl)).0

started_up-Reach : Reach down started_up
unfolding handle after_start
started_up-Reach = next fine_env (start ("/system/bin/samgr" ∷ [])) here (
    ap after_start
      (service_start_records fine_env "/system/bin/samgr" [] down 41 refl refl refl (λ t. refl)).1)

stopped_again-Reach : Reach down (state_of (service_stop fine_env started_up))
unfolding handle
stopped_again-Reach = next fine_env stop started_up-Reach refl

is_live-Reach_example : is_live (state_of (service_stop fine_env started_up)) ≡ true
is_live-Reach_example = is_live-Reach refl stopped_again-Reach

Reach-IsSound_example : IsSound (state_of (service_stop fine_env started_up)).svc
Reach-IsSound_example = Reach-IsSound (inr refl) stopped_again-Reach
