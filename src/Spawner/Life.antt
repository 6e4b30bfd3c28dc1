-- ===== src/Spawner/Life.antt =====
-- The life of one request to spawn, MSG_APP_SPAWN or MSG_SPAWN_NATIVE_PROCESS, from its message to the
-- end of the child that is waited for or of its connection, as a relation of steps; and the protocol of
-- answers and releases that a client is promised of it. Requests of begetctl are not among them.
pub mod Laws
use openharmony_mac_build.Common.{
  ℕ, ℤ, ◌≡◌, ◌∙◌, refl, sym, ap, subst, Bool, true, false, not, ◌||◌, is_positive, int_eq, pos,
  negsuc, Option, none, some, [], ◌∷◌, ◌++◌, if◌then◌else◌, ◌==◌, arith,
}
use openharmony_mac_build.Spawner.State.{
  Env, Server, Ctx, Message, Trace, Call, delete_ctx, kill_process, call, sigkill,
}
use openharmony_mac_build.Spawner.News.{news, is_node, is_answer, is_release, Replies, Settled}
use openharmony_mac_build.Spawner.Request.{Asked, over, waits, process_spawn_req_msg}
use openharmony_mac_build.Spawner.Request.Laws.{Settles, process_spawn_req_msg-Settles}
use openharmony_mac_build.Spawner.Connection.{belongs, app_spawning_ctx_on_close}
use openharmony_mac_build.Spawner.Reply.{
  process_child_response, wait_child_timeout, wait_child_died,
}
use openharmony_mac_build.Spawner.Reply.Laws.{
  process_child_response-Settled, wait_child_timeout-Settled, wait_child_died-Settled,
}

-- A message that has come, or what became of it; `lost` is the server after its client's connection
-- closed.
pub data Life : Type 0 where
  fresh : Server → Life
  asked : Asked → Life
  lost : Server → Life

-- One step in the life of the message `m`. While its child is waited for, the server does other things,
-- which neither answer nor release the message.
pub data Lives (env : Env) (m : Message) : Life → Life → Type 0 where
  ask : (conn : ℕ) (s : Server) → Lives env m (fresh s) (asked (process_spawn_req_msg env conn m s))
  elsewhere :
      (x : Ctx) (s t : Server)
      → news m.node t.trace ≡ news m.node s.trace
      → Lives env m (asked (waits x s)) (asked (waits x t))
  respond :
      (x : Ctx) (s : Server)
      → Lives env m (asked (waits x s)) (asked (over (process_child_response env x s)))
  time_out :
      (x : Ctx) (n : Message) (s : Server)
      → x.message ≡ some n
      → Lives env m (asked (waits x s)) (asked (over (wait_child_timeout env x n s)))
  die :
      (x : Ctx) (pid : ℤ) (s : Server)
      → env.ctx_by_pid s.trace pid ≡ some x
      → x.is_spawning ≡ true
      → Lives env m (asked (waits x s)) (asked (over (wait_child_died env pid s)))
  close :
      (id : ℕ) (x : Ctx) (s : Server)
      → belongs id x.message ≡ true
      → Lives env m (asked (waits x s)) (lost (app_spawning_ctx_on_close id x s))

-- Any number of steps.
pub data Course (env : Env) (m : Message) : Life → Life → Type 0 where
  ends : (a : Life) → Course env m a a
  goes : (a b c : Life) → Lives env m a b → Course env m b c → Course env m a c

-- The states of the protocol: not answered, answered, released after the answer, released without one.
pub data Phase : Type 0 where
  unanswered answered settled dropped : Phase

abbrev on_call : Phase → Call → Option Phase
on_call unanswered c =
    if is_answer c then some answered else (if is_release c then some dropped else none)
on_call answered c = if is_release c then some settled else none
on_call settled c = none
on_call dropped c = none

abbrev then_on_call : Option Phase → Call → Option Phase
then_on_call none c = none
then_on_call (some p) c = on_call p c

-- The protocol run over calls, the newest of which comes first; `none` where a call is not allowed.
abbrev pub play : Phase → Trace → Option Phase
play p [] = some p
play p (c ∷ t) = then_on_call (play p t) c

-- Where a life stands: a pending request is not answered, a closed one is settled, and one whose
-- connection closed is dropped.
abbrev pub phase : Life → Phase
phase (fresh s) = unanswered
phase (asked (over s)) = settled
phase (asked (waits x s)) = unanswered
phase (lost s) = dropped

abbrev pub server_of : Life → Server
server_of (fresh s) = s
server_of (asked (over s)) = s
server_of (asked (waits x s)) = s
server_of (lost s) = s

-- The child of a request that waits has its message, or one at its address.
abbrev pub WaitsFor : ℕ → Life → Type 0
WaitsFor n (asked (waits x s)) = is_node n x.message ≡ true
WaitsFor n a = Unit {0}

-- Between two points of a life, the calls that concern the message at `n` are such that the protocol
-- goes from where the one stands to where the other does.
pub record Obeys (n : ℕ) (a b : Life) : Type 0 where
  pub calls : Trace
  pub made : news n (server_of b).trace ≡ calls ++ news n (server_of a).trace
  pub allowed : play (phase a) calls ≡ some (phase b)
  pub waiting : WaitsFor n b

abbrev pub kills : ℤ → Trace → Bool
kills pid (kill_process p sigkill ∷ t) = int_eq p pid
kills pid t = false

-- The connection closed: the last call deleted the context, the one before killed its child, if it had
-- one, and nothing else has been heard of the message since `t`.
pub record IsDropped (n : ℕ) (t u : Trace) : Type 0 where
  pub context : Ctx
  pub before : Trace
  pub deletes : u ≡ delete_ctx context ∷ before
  pub concerned : is_node n context.message ≡ true
  pub silent : news n before ≡ news n t
  pub no_child : (not (is_positive context.pid) || kills context.pid before) ≡ true

-- What has become of a request that came after `t`.
abbrev pub Honest : ℕ → Trace → Life → Type 0
Honest n t (fresh s) = s.trace ≡ t
Honest n t (asked a) = Settles n t a
Honest n t (lost s) = IsDropped n t s.trace
