-- ===== src/Spawner/Prefork/Quiet.antt =====
-- The fork of a child neither answers nor releases a message, and leaves the context its message.
use openharmony_mac_build.Common.{
  ℕ, ℤ, ◌≡◌, ◌∙◌, refl, true, false, Option, none, some, [], ◌∷◌, if◌then◌else◌, arith, Bool-cases,
  inl, inr,
}
use openharmony_mac_build.AppSpawn.Child as Child
use openharmony_mac_build.Spawner.State.{
  Env, Server, Ctx, Code, done, Trace, call, set_content, make_pipe, map_memory,
}
use openharmony_mac_build.Spawner.News.{news}
use openharmony_mac_build.Spawner.Context.{Step, init_fork_context}
use openharmony_mac_build.Spawner.Prefork.{
  clear_pipe_fd, clear_prefork_pipe, clear_parent_pipe, fork_reserve, second_pipe, first_pipe,
  process_pre_fork, clear_mmap, write_prefork_msg, spawned, process_msg, fork_now, hand_out,
  set_nonblock, after_write, use_reserve, no_reserve, process_msg_for_prefork, run_process_msg,
  max_mem_size,
}

-- From a context and a trace, a step makes no news of the message and keeps the context's message.
pub record IsQuiet (n : ℕ) (x : Ctx) (t : Trace) (r : Step) : Type 0 where
  pub no_news : news n r.2.trace ≡ news n t
  pub same_message : r.1.message ≡ x.message

module _ (env : Env) (n : ℕ) where
  news-clear_pipes :
      (s : Server)
      → (news n (clear_prefork_pipe s).trace ≡ news n s.trace)
        × (news n (clear_parent_pipe s).trace ≡ news n s.trace)
  unfolding clear_prefork_pipe clear_parent_pipe clear_pipe_fd
  news-clear_pipes s = ground arith

  news-second_pipe :
      (s : Server) (o : Option (ℤ × ℤ)) → news n (second_pipe env s o).trace ≡ news n s.trace
  unfolding second_pipe fork_reserve
  news-second_pipe s none = (news-clear_pipes s).0
  news-second_pipe s (some (r, w)) = refl

  news-first_pipe :
      (s : Server) (o : Option (ℤ × ℤ)) → news n (first_pipe env s o).trace ≡ news n s.trace
  unfolding first_pipe
  news-first_pipe s none = refl
  news-first_pipe s (some (r, w)) =
      let q = set_content (record s.content { prefork_read = r; prefork_write = w }) s in
      let u = call make_pipe (clear_parent_pipe q) in
      news-second_pipe u (env.pipe_fds u.trace) ∙ (news-clear_pipes q).1

  pub news-process_pre_fork : (s : Server) → news n (process_pre_fork env s).trace ≡ news n s.trace
  unfolding process_pre_fork
  news-process_pre_fork s = news-first_pipe (call make_pipe s) (env.pipe_fds (make_pipe ∷ s.trace))

  news-clear_mmap : (i : ℕ) (s : Server) → news n (clear_mmap i s).trace ≡ news n s.trace
  unfolding clear_mmap
  news-clear_mmap i s = ground arith

  news-write_prefork_msg : (s : Server) → news n (write_prefork_msg env s).1.trace ≡ news n s.trace
  unfolding write_prefork_msg
  news-write_prefork_msg s = ground arith

  spawned-IsQuiet :
      (x : Ctx) (s : Server) (r : Option ℕ × Child.Trace) → IsQuiet n x s.trace (spawned x s r)
  unfolding spawned
  spawned-IsQuiet x s (none, t) = record { no_news = refl; same_message = refl }
  spawned-IsQuiet x s (some k, t) = record { no_news = refl; same_message = refl }

  process_msg-IsQuiet : (x : Ctx) (s : Server) → IsQuiet n x s.trace (process_msg env x s)
  unfolding process_msg
  process_msg-IsQuiet x s = spawned-IsQuiet x s (
      Child.app_spawn_process_msg (env.child_env s.trace) env.child_content (env.child_client x) [])

  init_fork_context-IsQuiet :
      (x : Ctx) (s : Server) → IsQuiet n x s.trace (init_fork_context env x s)
  unfolding init_fork_context
  init_fork_context-IsQuiet x s = ground arith

  hand_out-IsQuiet : (x : Ctx) (s : Server) → IsQuiet n x s.trace (hand_out env x s)
  unfolding hand_out set_nonblock
  hand_out-IsQuiet x s = ground arith

  -- Steps that go on from a quiet one.
  then_pre_fork-IsQuiet :
      (x : Ctx) (t : Trace) (r : Step)
      → IsQuiet n x t r
      → IsQuiet n x t (r.0, r.1, process_pre_fork env r.2)
  then_pre_fork-IsQuiet x t r q = record {
    no_news = news-process_pre_fork r.2 ∙ q.no_news;
    same_message = q.same_message;
  }

  IsQuiet-trans :
      (x y : Ctx) (t u : Trace) (r : Step)
      → news n u ≡ news n t
      → y.message ≡ x.message
      → IsQuiet n y u r
      → IsQuiet n x t r
  IsQuiet-trans x y t u r e m q = record {
    no_news = q.no_news ∙ e;
    same_message = q.same_message ∙ m;
  }

  after_write-IsQuiet :
      (x : Ctx) (r : Code × Server) (t : Trace)
      → news n r.1.trace ≡ news n t
      → IsQuiet n x t (after_write env x r)
  unfolding after_write
  after_write-IsQuiet x (done, s) t e =
      IsQuiet-trans x x t s.trace _ e refl
        (then_pre_fork-IsQuiet x s.trace (hand_out env x s) (hand_out-IsQuiet x s))
  after_write-IsQuiet x (c, s) t e = record { no_news = e; same_message = refl }

  use_reserve-IsQuiet : (x : Ctx) (s : Server) → IsQuiet n x s.trace (use_reserve env x s)
  unfolding use_reserve
  use_reserve-IsQuiet x s =
      let fresh = if s.content.property_buffer then clear_mmap x.client_id s else s in
      let mapped = call (map_memory max_mem_size false) fresh in
      let t = set_content (record mapped.content { property_buffer = true }) mapped in
      let e : news n fresh.trace ≡ news n s.trace = ground (arith, news-clear_mmap x.client_id s) in
      elim (Bool-cases (env.is_mapped mapped.trace)) [
        | inl m ↦
            simp m (
              after_write-IsQuiet x (write_prefork_msg env t) s.trace
                (news-write_prefork_msg t ∙ e))
        | inr m ↦ simp m (record { no_news = e; same_message = refl })
      ]

  no_reserve-IsQuiet :
      (x : Ctx) (t : Trace) (r : Step) → IsQuiet n x t r → IsQuiet n x t (no_reserve env r)
  unfolding no_reserve
  no_reserve-IsQuiet x t (done, y, s) q =
      then_pre_fork-IsQuiet x t (process_msg env y s)
        (IsQuiet-trans x y t s.trace _ q.no_news q.same_message (process_msg-IsQuiet y s))
  no_reserve-IsQuiet x t (c, y, s) q = q

  fork_now-IsQuiet :
      (x : Ctx) (t : Trace) (r : Step) → IsQuiet n x t r → IsQuiet n x t (fork_now env r)
  unfolding fork_now
  fork_now-IsQuiet x t (done, y, s) q =
      IsQuiet-trans x y t s.trace _ q.no_news q.same_message (process_msg-IsQuiet y s)
  fork_now-IsQuiet x t (c, y, s) q = q

  pub run_process_msg-IsQuiet :
      (x : Ctx) (s : Server) → IsQuiet n x s.trace (run_process_msg env x s)
  unfolding run_process_msg process_msg_for_prefork
  run_process_msg-IsQuiet x s = ground (
    arith,
    use_reserve-IsQuiet x s,
    no_reserve-IsQuiet x s.trace (init_fork_context env x s) (init_fork_context-IsQuiet x s),
    fork_now-IsQuiet x s.trace (init_fork_context env x s) (init_fork_context-IsQuiet x s),
  )
