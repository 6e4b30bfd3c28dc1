-- ===== src/Spawner/Receive.antt =====
-- ProcessRecvMsg and OnReceiveRequest: what is read from a client, message by message.
pub mod Laws
use openharmony_mac_build.Common.{
  ℕ, zero, suc, ◌+◌, ◌-◌, ◌%◌, ◌^◌, Bool, true, false, not, Option, none, some, if◌then◌else◌, ◌==◌,
  ltb, is_positive,
}
use openharmony_mac_build.Spawner.State.{
  Env, Server, Message, Code, done, is_done, Received, broken, read, call, read_msg, close_task,
  close_stream,
}
use openharmony_mac_build.Spawner.Request.{Asked, over, waits}
use openharmony_mac_build.Spawner.Dispatch.{process_msg_type}
use openharmony_mac_build.Spawner.Connection.{
  Conn, delete_if_any, stop_check_timer, start_timer_for_check_msg, msg_devicedebug_check,
}

abbrev pub server_of : Asked → Server
server_of (over s) = s
server_of (waits x s) = s

-- ProcessRecvMsg; a context that waits for its child is in the queue of contexts. An identifier that is
-- not the expected one is only reported.
unfoldable pub process_recv_msg : Env → Conn → Message → Server → Conn × Server
process_recv_msg env c m s = (
  record c { next_id = (c.next_id + 1) % 2 ^ 32 },
  server_of (process_msg_type env c.conn_id m s m.msg_type),
)

-- How the loop ends: at a `return`, or with a result and the message that is left over.
pub data End : Type 0 where
  returned : Conn → Server → End
  ended : Code → Option Message → Conn → Server → End

-- A message that is complete; `again` is the loop, at the next offset.
receive_whole :
    Env → ℕ → ℕ → Conn → Message → ℕ → (ℕ → Conn → Server → Option End) → Server → Option End
receive_whole env len off c m left again s =
    let r = stop_check_timer (record c { recv_len = 0 }) s in
    let p = process_recv_msg env r.0 m r.1 in
    let next = (off + (len - left)) % 2 ^ 32 in
    let rest = again next p.0 p.1 in
    let after = if left == 0 then some (ended done none p.0 p.1) else rest in
    let checked =
      if is_done (env.decode_msg m)
      then after
      else some (ended (env.decode_msg m) (some m) r.0 r.1) in
    if msg_devicedebug_check env m r.1 then checked else some (returned r.0 (call close_task r.1))

receive_step :
    Env → ℕ → ℕ → Conn → (ℕ → Conn → Server → Option End) → Server → Received → Option End
unfolding receive_whole
receive_step env len off c again s (broken e m) = some (ended e m c s)
receive_step env len off c again s (read m n left) =
    if n == m.msg_len
    then receive_whole env len off c m left again s
    else some (ended done none (record c { recv_len = n; incomplete = some m }) s)

-- The loop of OnReceiveRequest, on fuel. The arithmetic is that of uint32_t.
unfoldable pub receive : ℕ → Env → ℕ → ℕ → Option Message → Conn → Server → Option End
unfolding receive_step
receive zero env len off m c s = none
receive (suc f) env len off m c s =
    let size = (len + 2 ^ 32 - off) % 2 ^ 32 in
    let t = call (read_msg off size) s in
    receive_step env len off c (λ next d u. receive f env len next none d u) t
      (env.from_buffer t.trace off size m c.recv_len)

-- The rest of OnReceiveRequest after its loop; whether a message is still incomplete decides on a timer.
close_check : Env → Conn → Server → Conn × Server
close_check env c s = elim c.incomplete [
  | none ↦ (c, s)
  | some m ↦
      let r = start_timer_for_check_msg env c s in
      if r.0 then (r.1, r.2) else (r.1, call close_stream r.2)
]

after_loop : Env → End → Conn × Server
unfolding close_check
after_loop env (returned c s) = (c, s)
after_loop env (ended e m c s) =
    let t = delete_if_any m s in if is_done e then close_check env c t else (c, call close_task t)

finished : Env → Option End → Option (Conn × Server)
unfolding after_loop
finished env none = none
finished env (some e) = some (after_loop env e)

-- OnReceiveRequest, for a buffer of `len` bytes; the fuel is for its loop.
unfoldable pub on_receive_request : ℕ → Env → Conn → ℕ → Server → Option (Conn × Server)
unfolding finished
on_receive_request f env c len s =
    if ltb len env.max_msg_total
    then finished env (receive f env len 0 c.incomplete (record c { incomplete = none }) s)
    else some (c, call close_task s)
