-- ===== src/Spawner/Receive/Laws.antt =====
-- Where OnReceiveRequest looks for the messages of one buffer.
use openharmony_mac_build.Common.{
  ℕ, suc, ◌+◌, ◌-◌, ◌*◌, ◌%◌, ◌^◌, ◌<◌, ◌≡◌, ◌∙◌, refl, ap, true, false, Option, none, some, ◌∷◌,
  arith, ◌==◌,
}
use openharmony_mac_build.Spawner.State.{
  Env, Server, Message, done, is_done, Trace, read, call, read_msg,
}
use openharmony_mac_build.Spawner.Connection.{Conn, stop_check_timer, msg_devicedebug_check}
use openharmony_mac_build.Spawner.Receive.{
  process_recv_msg, End, ended, receive_whole, receive_step, receive,
}

stop_check_timer-recv_len : (c : Conn) (s : Server) → (stop_check_timer c s).0.recv_len ≡ c.recv_len
unfolding stop_check_timer
stop_check_timer-recv_len c s = ground arith

-- Every message is decoded, and every client may send it.
pub record Accepts (env : Env) : Type 0 where
  pub decodes : (m : Message) → is_done (env.decode_msg m) ≡ true
  pub allows : (m : Message) (s : Server) → msg_devicedebug_check env m s ≡ true

same : (n : ℕ) → (n == n) ≡ true
same n = ground arith

-- The connection and the server after one message.
abbrev pub taken : Env → Conn → Message → Server → Conn × Server
taken env c m s =
    let r = stop_check_timer (record c { recv_len = 0 }) s in process_recv_msg env r.0 m r.1

module _ (env : Env) (k : Accepts env) where
  taken-recv_len : (c : Conn) (m : Message) (s : Server) → (taken env c m s).0.recv_len ≡ 0
  unfolding process_recv_msg
  taken-recv_len c m s = stop_check_timer-recv_len (record c { recv_len = 0 }) s

  receive_whole_goes_on :
      (len off left : ℕ) (c : Conn) (m : Message) (again : ℕ → Conn → Server → Option End)
      (s : Server)
      → (left == 0) ≡ false
      → let p = taken env c m s in
        receive_whole env len off c m left again s ≡ again ((off + (len - left)) % 2 ^ 32) p.0 p.1
  unfolding receive_whole
  receive_whole_goes_on len off left c m again s e =
      let r = stop_check_timer (record c { recv_len = 0 }) s in
      simp (e, k.decodes m, k.allows m r.1) refl

  receive_whole_ends :
      (len off left : ℕ) (c : Conn) (m : Message) (again : ℕ → Conn → Server → Option End)
      (s : Server)
      → (left == 0) ≡ true
      → let p = taken env c m s in
        receive_whole env len off c m left again s ≡ some (ended done none p.0 p.1)
  unfolding receive_whole
  receive_whole_ends len off left c m again s e =
      let r = stop_check_timer (record c { recv_len = 0 }) s in
      simp (e, k.decodes m, k.allows m r.1) refl

  receive_goes_on :
      (f len off size left : ℕ) (c : Conn) (m : Message) (s : Server)
      → (len + 2 ^ 32 - off) % 2 ^ 32 ≡ size
      → env.from_buffer (read_msg off size ∷ s.trace) off size none c.recv_len
        ≡ read m m.msg_len left
      → (left == 0) ≡ false
      → let p = taken env c m (call (read_msg off size) s) in
        receive (suc f) env len off none c s
        ≡ receive f env len ((off + (len - left)) % 2 ^ 32) none p.0 p.1
  unfolding receive receive_step
  receive_goes_on f len off size left c m s z r e =
      let again : ℕ → Conn → Server → Option End = λ next d u. receive f env len next none d u in
      simp (z, r, same m.msg_len)
        (receive_whole_goes_on len off left c m again (call (read_msg off size) s) e)

  receive_ends :
      (f len off size : ℕ) (c : Conn) (m : Message) (s : Server)
      → (len + 2 ^ 32 - off) % 2 ^ 32 ≡ size
      → env.from_buffer (read_msg off size ∷ s.trace) off size none c.recv_len ≡ read m m.msg_len 0
      → let p = taken env c m (call (read_msg off size) s) in
        receive (suc f) env len off none c s ≡ some (ended done none p.0 p.1)
  unfolding receive receive_step
  receive_ends f len off size c m s z r =
      let again : ℕ → Conn → Server → Option End = λ next d u. receive f env len next none d u in
      simp (z, r, same m.msg_len)
        (receive_whole_ends len off 0 c m again (call (read_msg off size) s) refl)

  -- A buffer of `len` bytes, below 2^32, in which a message of `a` bytes is found whole and then one
  -- of the rest, is read with fuel 2 or more, if nothing of a message was received before and both
  -- messages may be sent and are decoded: they are processed in their order, and nothing is left over.
  pub receive_two :
      (f len a : ℕ) (m1 m2 : Message) (c : Conn) (s : Server)
      → len < 2 ^ 32
      → a < len
      → c.recv_len ≡ 0
      → ((t : Trace) → env.from_buffer t 0 len none 0 ≡ read m1 m1.msg_len (len - a))
      → ((t : Trace) → env.from_buffer t a (len - a) none 0 ≡ read m2 m2.msg_len 0)
      → let p1 = taken env c m1 (call (read_msg 0 len) s) in
        let p2 = taken env p1.0 m2 (call (read_msg a (len - a)) p1.1) in
        receive (suc (suc f)) env len 0 none c s ≡ some (ended done none p2.0 p2.1)
  receive_two f len a m1 m2 c s l b z r1 r2 =
      let p1 = taken env c m1 (call (read_msg 0 len) s) in
      let z1 = taken-recv_len c m1 (call (read_msg 0 len) s) in
      receive_goes_on (suc f) len 0 len (len - a) c m1 s (ground arith)
        (ap (env.from_buffer (read_msg 0 len ∷ s.trace) 0 len none) z
          ∙ r1 (read_msg 0 len ∷ s.trace))
        (ground arith)
      ∙ ap (λ (o : ℕ). receive (suc f) env len o none p1.0 p1.1) (ground arith)
      ∙ receive_ends f len a (len - a) p1.0 m2 p1.1 (ground arith) (
          ap (env.from_buffer (read_msg a (len - a) ∷ p1.1.trace) a (len - a) none) z1
          ∙ r2 (read_msg a (len - a) ∷ p1.1.trace))

  -- If a buffer, below 2^31 bytes, begins with two whole messages of `a` and `b` bytes that may be
  -- sent and are decoded, and goes on after them, then what follows is looked for at 2 * a + b,
  -- although it begins at a + b.
  pub receive_three :
      (f len a b : ℕ) (m1 m2 : Message) (c : Conn) (s : Server)
      → len < 2 ^ 31
      → 0 < a
      → a + b < len
      → c.recv_len ≡ 0
      → ((t : Trace) → env.from_buffer t 0 len none 0 ≡ read m1 m1.msg_len (len - a))
      → ((t : Trace) → env.from_buffer t a (len - a) none 0 ≡ read m2 m2.msg_len (len - a - b))
      → let p1 = taken env c m1 (call (read_msg 0 len) s) in
        let p2 = taken env p1.0 m2 (call (read_msg a (len - a)) p1.1) in
        receive (suc (suc f)) env len 0 none c s ≡ receive f env len (2 * a + b) none p2.0 p2.1
  receive_three f len a b m1 m2 c s l g h z r1 r2 =
      let p1 = taken env c m1 (call (read_msg 0 len) s) in
      let p2 = taken env p1.0 m2 (call (read_msg a (len - a)) p1.1) in
      let z1 = taken-recv_len c m1 (call (read_msg 0 len) s) in
      receive_goes_on (suc f) len 0 len (len - a) c m1 s (ground arith)
        (ap (env.from_buffer (read_msg 0 len ∷ s.trace) 0 len none) z
          ∙ r1 (read_msg 0 len ∷ s.trace))
        (ground arith)
      ∙ ap (λ (o : ℕ). receive (suc f) env len o none p1.0 p1.1) (ground arith)
      ∙ receive_goes_on f len a (len - a) (len - a - b) p1.0 m2 p1.1 (ground arith)
          (ap (env.from_buffer (read_msg a (len - a) ∷ p1.1.trace) a (len - a) none) z1
            ∙ r2 (read_msg a (len - a) ∷ p1.1.trace))
          (ground arith)
      ∙ ap (λ (o : ℕ). receive f env len o none p2.0 p2.1) (ground arith)
