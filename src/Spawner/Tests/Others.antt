-- ===== src/Spawner/Tests/Others.antt =====
-- The theorems on connections, signals, debug messages, mounts and cold children.
use openharmony_mac_build.Common.{
  ℕ, ℤ, ◌+◌, ◌%◌, ◌^◌, ◌≡◌, refl, subst, Option, true, false, not, ◌||◌, none, some, pos, List, [],
  ◌∷◌, ◌==◌, if◌then◌else◌, is_positive, All, arith,
}
use openharmony_mac_build.Spawner.State.{Env, Ctx, done, read, call, read_msg, Trace, stop_loop}
use openharmony_mac_build.Spawner.Stop.{stop_app_spawn}
use openharmony_mac_build.Spawner.Stop.Laws.{killed, stop_app_spawn_kills}
use openharmony_mac_build.Spawner.Reply.Crashes.{deaths, is_stopped, AreWaited, deaths_stop}
use openharmony_mac_build.Spawner.Connection.{on_connection, Conn, on_close, msg_devicedebug_check}
use openharmony_mac_build.Spawner.Connection.Laws.{
  deleted, on_close-deleted, is_closed, new_conn, on_connection_lem,
}
use openharmony_mac_build.Spawner.Receive.{ended, receive}
use openharmony_mac_build.Spawner.Receive.Laws.{Accepts, taken, receive_two, receive_three}
use openharmony_mac_build.Spawner.Debug.{
  process_app_spawn_device_debug_msg, parse_json, parsed_json, deal_json, appspawn_devicedebug_deal,
  appspawpn_devicedebug_kill, kill_debuggable,
}
use openharmony_mac_build.Spawner.Debug.Laws.{
  KillsDebuggable, process_app_spawn_device_debug_msg-KillsDebuggable,
}
use openharmony_mac_build.Spawner.Remount.{process_spawn_remount_msg}
use openharmony_mac_build.Spawner.Remount.Sandboxes.{
  AreNames, ReadsNames, InSandboxes, process_spawn_remount_msg-InSandboxes,
}
use openharmony_mac_build.Spawner.Cold.{ColdArgs, app_spawn_cold_run}
use openharmony_mac_build.Spawner.Cold.Laws.{told, told-app_spawn_cold_run}
use openharmony_mac_build.Spawner.Tests.{server, ctx, message, app, env}

stop_app_spawn_kills_example :
    let r = stop_app_spawn env server in
    All (λ a. (not (is_positive a.app_pid) || killed a.app_pid r.trace) ≡ true) (app ∷ [])
    × (killed (pos 31) r.trace ≡ true)
    × (is_positive r.content.reserved_pid ≡ false)
    × ((t : Trace) × (r.trace ≡ stop_loop ∷ t))
stop_app_spawn_kills_example = stop_app_spawn_kills env server (app ∷ []) (λ t. refl)

-- The contexts of the clients from 40 on, and their children, with the pids from 0 on.
abbrev waited : ℕ → Ctx
waited i = record ctx { client_id = (40 + i) % 2 ^ 32; is_spawning = true; message = some message }

abbrev waited_at : ℤ → Option Ctx
waited_at (pos n) = some (waited n)
waited_at n = none

abbrev dying_env : Env
dying_env = record env { ctx_by_pid = λ t p. waited_at p }

dying-AreWaited : AreWaited dying_env (λ i. pos i) 40 server
dying-AreWaited = record {
  contexts = waited;
  messages = λ i. message;
  found = λ i. refl;
  spawning = λ i. refl;
  asked_by = λ i. refl;
  clients = λ i. refl;
}

deaths_stop_example :
    ((deaths dying_env (λ i. pos i) 5 server).content.crash_times ≡ 5)
    × (is_stopped (deaths dying_env (λ i. pos i) 5 server).trace ≡ true)
deaths_stop_example =
    deaths_stop dying_env (λ i. pos i) 40 server 4 dying-AreWaited (omega arith) refl

abbrev conn : Conn
conn = record {
  conn_id = 5;
  fds = [];
  fd_count = 0;
  incomplete = some message;
  check_timer = some 3;
  recv_len = 0;
  next_id = 1;
}

-- The queue has one context of this connection and one of another.
abbrev mine : Ctx
mine = record ctx { message = some (record message { connection = some 5 }) }

abbrev two_ctxs : List Ctx
two_ctxs = ctx ∷ mine ∷ []

abbrev queue_env : Env
queue_env = record env { contexts = λ t. two_ctxs }

on_close-deleted_example :
    (deleted (on_close queue_env conn server).1.trace ≡ mine ∷ [])
    × ((on_close queue_env conn server).0.check_timer ≡ none)
    × ((on_close queue_env conn server).0.incomplete ≡ none)
on_close-deleted_example = on_close-deleted queue_env conn server two_ctxs (λ t. refl)

-- A buffer of 900 bytes with a message of 300 bytes and one of 600 after it.
abbrev two_msgs : Env
two_msgs = record env {
  from_buffer = λ t o n m k. if o == 0 then read message 300 600 else read message 300 0;
}

two_msgs-Accepts : Accepts two_msgs
unfolding msg_devicedebug_check
two_msgs-Accepts = record { decodes = λ m. refl; allows = λ m s. refl }

receive_two_example :
    let p1 = taken two_msgs conn message (call (read_msg 0 900) server) in
    let p2 = taken two_msgs p1.0 message (call (read_msg 300 600) p1.1) in
    receive 3 two_msgs 900 0 none conn server ≡ some (ended done none p2.0 p2.1)
receive_two_example =
    receive_two two_msgs two_msgs-Accepts 1 900 300 message message conn server (omega arith)
      (omega arith) refl (λ t. refl) (λ t. refl)

-- The same with three messages of 300 bytes.
abbrev three_msgs : Env
three_msgs = record env {
  from_buffer = λ t o n m k. if o == 0 then read message 300 600 else read message 300 300;
}

three_msgs-Accepts : Accepts three_msgs
unfolding msg_devicedebug_check
three_msgs-Accepts = record { decodes = λ m. refl; allows = λ m s. refl }

receive_three_example :
    let p1 = taken three_msgs conn message (call (read_msg 0 900) server) in
    let p2 = taken three_msgs p1.0 message (call (read_msg 300 600) p1.1) in
    receive 3 three_msgs 900 0 none conn server ≡ receive 1 three_msgs 900 900 none p2.0 p2.1
receive_three_example =
    receive_three three_msgs three_msgs-Accepts 1 900 300 300 message message conn server
      (omega arith) (omega arith) (omega arith) refl (λ t. refl) (λ t. refl)

debugs : (process_app_spawn_device_debug_msg env message server).0 ≡ done
unfolding process_app_spawn_device_debug_msg parse_json parsed_json deal_json
    appspawn_devicedebug_deal appspawpn_devicedebug_kill kill_debuggable
debugs = refl

process_app_spawn_device_debug_msg-KillsDebuggable_example :
    KillsDebuggable env [] (process_app_spawn_device_debug_msg env message server).1.trace
process_app_spawn_device_debug_msg-KillsDebuggable_example =
    process_app_spawn_device_debug_msg-KillsDebuggable env server message debugs

abbrev Listed : Option (List (List ℕ)) → Type 0
Listed none = Unit
Listed (some ns) = AreNames ns

env-AreNames : (ns : List (List ℕ)) → some ((b'1' ∷ []) ∷ []) ≡ some ns → AreNames ns
env-AreNames ns e = subst Listed e (refl, tt)

env-ReadsNames : ReadsNames env
env-ReadsNames = record { names = λ t p ns e. env-AreNames ns e }

process_spawn_remount_msg-InSandboxes_example :
    InSandboxes (process_spawn_remount_msg env server).1.trace
process_spawn_remount_msg-InSandboxes_example =
    process_spawn_remount_msg-InSandboxes env server env-ReadsNames tt

abbrev cold_args : ColdArgs
cold_args = record { fd = pos 11; shm_size = 4096; client = 40 }

told-app_spawn_cold_run_example : told (app_spawn_cold_run env cold_args server).trace ≡ 1
told-app_spawn_cold_run_example = told-app_spawn_cold_run env cold_args server 11 refl (λ t. refl)

-- The client is the user 5523.
on_connection_lem_example :
    let r = on_connection env 8 server in
    (r.1 ≡ some (new_conn r.0)) × (r.0 ≡ 9) × (is_closed r.2.trace ≡ false)
on_connection_lem_example = on_connection_lem env 8 server
