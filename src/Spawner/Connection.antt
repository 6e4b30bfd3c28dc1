-- ===== src/Spawner/Connection.antt =====
-- The connections of clients: OnConnection and its check of users, OnClose, OnDisConnect,
-- SendMessageComplete, and the timer of a message that is not complete.
pub mod Laws
use openharmony_mac_build.Common.{
  length, leb, minus_one, ℕ, ◌+◌, ◌%◌, ◌^◌, ℤ, pos, Bool, true, false, not, ◌&&◌, ◌||◌, Option,
  none, some, List, [], ◌∷◌, if◌then◌else◌, is_positive, ◌==◌,
}
use openharmony_mac_build.Spawner.State.{
  Control, request, Env, Server, Ctx, App, MsgType, Message, Code, device_debug, sigkill, call,
  kill_process, delete_ctx, delete_msg, stop_timer, create_timer, start_timer, close_stream,
  accept_client,
}

-- AppSpawnConnection, with its receiverCtx.
pub record Conn : Type 0 where
  pub conn_id : ℕ
  pub fds : List ℤ
  pub fd_count : ℕ
  pub incomplete : Option Message
  pub check_timer : Option ℕ
  pub recv_len : ℕ
  pub next_id : ℕ

-- OnConnectionUserCheck
unfoldable pub on_connection_user_check : Env → ℕ → Bool
on_connection_user_check env uid =
    (uid == 0 || uid == 3350 || uid == 5523 || uid == 1090) || (uid == 2000 && env.developer_mode)

-- The client's user, if it can be told, is one of those.
is_peer_allowed : Env → Option ℕ → Bool
is_peer_allowed env none = false
is_peer_allowed env (some uid) = on_connection_user_check env uid

-- OnConnection; the counter of connections goes round at 2^32.
unfoldable pub on_connection : Env → ℕ → Server → ℕ × Option Conn × Server
unfolding is_peer_allowed
on_connection env last s =
    let t = call accept_client s in
    let id = (last + 1) % 2 ^ 32 in
    let c : Conn = record {
      conn_id = id;
      fds = [];
      fd_count = 0;
      incomplete = none;
      check_timer = none;
      recv_len = 0;
      next_id = 1;
    } in
    if not (env.accept_ok t.trace)
    then (last, none, t)
    else (if is_peer_allowed env (env.peer_uid t.trace)
        then (id, some c, t)
        else (last, none, call close_stream t))

-- DeleteAppSpawnMsg, on a message that may be missing.
unfoldable pub delete_if_any : Option Message → Server → Server
delete_if_any none s = s
delete_if_any (some m) s = call (delete_msg m) s

abbrev pub belongs : ℕ → Option Message → Bool
belongs id none = false
belongs id (some m) = elim m.connection [ none ↦ false | some k ↦ k == id ]

-- AppSpawningCtxOnClose
unfoldable pub app_spawning_ctx_on_close : ℕ → Ctx → Server → Server
app_spawning_ctx_on_close id x s =
    let t = if is_positive x.pid then call (kill_process x.pid sigkill) s else s in
    if belongs id x.message then call (delete_ctx x) t else s

unfoldable pub close_contexts : ℕ → List Ctx → Server → Server
unfolding app_spawning_ctx_on_close
close_contexts id [] s = s
close_contexts id (x ∷ xs) s = close_contexts id xs (app_spawning_ctx_on_close id x s)

unfoldable pub stop_check_timer : Conn → Server → Conn × Server
stop_check_timer c s = elim c.check_timer [
  | none ↦ (c, s)
  | some h ↦ (record c { check_timer = none }, call (stop_timer h) s)
]

-- OnClose, in the server.
unfoldable pub on_close : Env → Conn → Server → Conn × Server
on_close env c s =
    let r = stop_check_timer c s in
    let t = delete_if_any c.incomplete r.1 in
    (record r.0 { incomplete = none }, close_contexts c.conn_id (env.contexts t.trace) t)

-- OnDisConnect
unfoldable pub on_disconnect : Env → Conn → Server → Conn × Server
on_disconnect env c s = on_close env c s

-- SendMessageComplete: the process that a response was about, its pid, and whether it was sent.
unfoldable pub send_message_complete : Env → ℤ → Bool → Server → Server
send_message_complete env pid sent s = elim (env.spawned_process s.trace pid) [
  | none ↦ s
  | some a ↦ if not sent && is_positive pid then call (kill_process pid sigkill) s else s
]

-- WaitMsgCompleteTimeOut
unfoldable pub wait_msg_complete_time_out : Conn → Server → Conn × Server
wait_msg_complete_time_out c s =
    (record c { incomplete = none }, call close_stream (delete_if_any c.incomplete s))

start_check : Env → Conn → Server → Option ℕ → Bool × Conn × Server
start_check env c s none = (false, c, s)
start_check env c s (some h) =
    let t = call (start_timer env.max_wait_msg) s in
    (env.timer_ok t.trace, record c { check_timer = some h }, t)

-- StartTimerForCheckMsg
unfoldable pub start_timer_for_check_msg : Env → Conn → Server → Bool × Conn × Server
unfolding start_check
start_timer_for_check_msg env c s = elim c.check_timer [
  | some h ↦ (true, c, s)
  | none ↦ let t = call create_timer s in start_check env c t (env.new_timer t.trace)
]

-- MsgDevicedebugCheck
unfoldable pub is_device_debug : MsgType → Bool
is_device_debug device_debug = true
is_device_debug t = false

unfoldable pub msg_devicedebug_check : Env → Message → Server → Bool
unfolding is_device_debug
msg_devicedebug_check env m s = elim (env.peer_uid s.trace) [
  | none ↦ false
  | some uid ↦ not (uid == env.shell_uid) || is_device_debug m.msg_type
]

-- The loop of HandleRecvMessage over the control messages: whether it ends well. `n` is what recvmsg gave.
unfoldable pub take_fds : Env → ℤ → List Control → Conn → Server → ℤ × Conn
take_fds env n [] c s = (n, c)
take_fds env n (m ∷ ms) c s =
    let taken = record c { fds = m.passed; fd_count = length m.passed } in
    let rest = take_fds env n ms taken s in
    let next = take_fds env n ms c s in
    if m.is_rights
    then (if leb (length m.passed) env.app_max_fd_count && env.copy_ok s.trace
        then rest
        else (minus_one, c))
    else next

-- HandleRecvMessage
unfoldable pub handle_recv_message : Env → Conn → Server → ℤ × Conn × Server
unfolding take_fds
handle_recv_message env c s =
    let t = call (request "recvmsg") s in
    let r = env.recv_msg t.trace in let q = take_fds env r.0 r.1 c t in (q.0, q.1, t)
