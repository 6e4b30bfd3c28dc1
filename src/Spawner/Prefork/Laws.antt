-- ===== src/Spawner/Prefork/Laws.antt =====
-- Which child a client is handed, and which one is kept for the next client.
use openharmony_mac_build.Common.{
  ℕ, ◌≡◌, refl, ap, ◌∙◌, sym, ℤ, true, false, Option, none, some, is_some, ◌∷◌, if◌then◌else◌,
  arith, is_positive,
}
use openharmony_mac_build.Spawner.State.{
  Env, Server, Ctx, done, Trace, call, set_content, make_pipe, copy_msg, map_memory, fork_child,
  write_client, request,
}
use openharmony_mac_build.Spawner.Context.{Step}
use openharmony_mac_build.Spawner.Prefork.{
  max_mem_size, clear_parent_pipe, first_pipe, second_pipe, fork_reserve, process_pre_fork,
  clear_mmap, write_prefork_msg, hand_out, set_nonblock, after_write, use_reserve,
  process_msg_for_prefork,
}

-- The memory that is shared with the reserved child works, and so do the pipe to it and fcntl on the
-- pipe from it.
pub record SharesMemory (env : Env) : Type 0 where
  pub maps : (t : Trace) → env.is_mapped t ≡ true
  pub copies : (t : Trace) → env.copy_ok t ≡ true
  pub unblocks : (t : Trace) → env.fcntl_ok t ≡ true
  pub tells : (t : Trace) → env.client_written t ≡ true

-- The last call was a fork, and the child that it made is reserved.
abbrev pub ForksReserve : Env → Server → Type 0
ForksReserve env s =
    (u : Trace) × (s.trace ≡ fork_child ∷ u)
    × (s.content.reserved_pid ≡ env.pid_of_fork (fork_child ∷ u))

module _ (env : Env) where
  second_pipe_renews :
      (u : Server) (o : Option (ℤ × ℤ)) → is_some o ≡ true → ForksReserve env (second_pipe env u o)
  unfolding second_pipe fork_reserve
  second_pipe_renews u none e = absurd (ground (arith, e))
  second_pipe_renews u (some (r, w)) e = (u.trace, refl, refl)

  first_pipe_renews :
      (s : Server) (o : Option (ℤ × ℤ))
      → ((t : Trace) → is_some (env.pipe_fds t) ≡ true)
      → is_some o ≡ true
      → ForksReserve env (first_pipe env s o)
  unfolding first_pipe
  first_pipe_renews s none pipes e = absurd (ground (arith, e))
  first_pipe_renews s (some (r, w)) pipes e =
      let q = set_content (record s.content { prefork_read = r; prefork_write = w }) s in
      let u = call make_pipe (clear_parent_pipe q) in
      second_pipe_renews u (env.pipe_fds u.trace) (pipes u.trace)

  process_pre_fork_renews :
      (s : Server)
      → ((t : Trace) → is_some (env.pipe_fds t) ≡ true)
      → ForksReserve env (process_pre_fork env s)
  unfolding process_pre_fork
  process_pre_fork_renews s pipes =
      first_pipe_renews (call make_pipe s) (env.pipe_fds (make_pipe ∷ s.trace)) pipes
        (pipes (make_pipe ∷ s.trace))

  process_pre_fork_keeps :
      (s : Server)
      → ((t : Trace) → env.pipe_fds t ≡ none)
      → process_pre_fork env s ≡ call make_pipe s
  unfolding process_pre_fork first_pipe
  process_pre_fork_keeps s pipes = rw (pipes (make_pipe ∷ s.trace)) refl

  write_prefork_msg_copies :
      (s : Server)
      → SharesMemory env
      → s.content.property_buffer ≡ true
      → write_prefork_msg env s ≡ (done, call copy_msg (call copy_msg s))
  unfolding write_prefork_msg
  write_prefork_msg_copies s m b =
      ground (arith, m.copies (copy_msg ∷ s.trace), m.copies (copy_msg ∷ copy_msg ∷ s.trace))

  -- What a request does that finds a child reserved.
  record HandsOut (x : Ctx) (s : Server) (r : Step) : Type 0 where
    given : Ctx
    before : Server
    run : r ≡ (done, given, process_pre_fork env before)
    same_pid : given.pid ≡ s.content.reserved_pid
    still : before.content.reserved_pid ≡ s.content.reserved_pid

  set_nonblock_lem : (s : Server) → SharesMemory env → (set_nonblock env s).0 ≡ done
  unfolding set_nonblock
  set_nonblock_lem s m =
      ground (arith, m.unblocks (request "F_SETFD" ∷ request "F_GETFD" ∷ s.trace))

  set_nonblock-content :
      (s : Server) → (set_nonblock env s).1.content.reserved_pid ≡ s.content.reserved_pid
  unfolding set_nonblock
  set_nonblock-content s = ground arith

  run_lem :
      (x : Ctx) (u : Server)
      → SharesMemory env
      → after_write env x (done, u) ≡ (
        done,
        record x {
          pid = u.content.reserved_pid;
          fd_read = u.content.prefork_read;
          fd_write = u.content.prefork_write;
        },
        process_pre_fork env (call (write_client x.client_id) (set_nonblock env u).1),
      )
  unfolding after_write hand_out
  run_lem x u m =
      simp (m.tells (write_client x.client_id ∷ (set_nonblock env u).1.trace), set_nonblock_lem u m)
        refl

  after_write-HandsOut :
      (x : Ctx) (s u : Server)
      → SharesMemory env
      → u.content.reserved_pid ≡ s.content.reserved_pid
      → HandsOut x s (after_write env x (done, u))
  unfolding after_write hand_out set_nonblock
  after_write-HandsOut x s u m e = record {
    given = record x {
      pid = u.content.reserved_pid;
      fd_read = u.content.prefork_read;
      fd_write = u.content.prefork_write;
    };
    before = call (write_client x.client_id) (set_nonblock env u).1;
    run = run_lem x u m;
    same_pid = e;
    still = set_nonblock-content u ∙ e;
  }

  clear_mmap-reserved :
      (n : ℕ) (s : Server) → (clear_mmap n s).content.reserved_pid ≡ s.content.reserved_pid
  unfolding clear_mmap
  clear_mmap-reserved n s = ground arith

  use_reserve-HandsOut :
      (x : Ctx) (s : Server) → SharesMemory env → HandsOut x s (use_reserve env x s)
  unfolding use_reserve
  use_reserve-HandsOut x s m =
      let fresh = if s.content.property_buffer then clear_mmap x.client_id s else s in
      let mapped = call (map_memory max_mem_size false) fresh in
      let t = set_content (record mapped.content { property_buffer = true }) mapped in
      simp (m.maps mapped.trace, write_prefork_msg_copies t m refl)
        (after_write-HandsOut x s (call copy_msg (call copy_msg t)) m
          (ground (arith, clear_mmap-reserved x.client_id s)))

  process_msg_for_prefork-HandsOut :
      (x : Ctx) (s : Server)
      → SharesMemory env
      → is_positive s.content.reserved_pid ≡ true
      → HandsOut x s (process_msg_for_prefork env x s)
  unfolding process_msg_for_prefork
  process_msg_for_prefork-HandsOut x s m r = simp r (use_reserve-HandsOut x s m)

  -- If a child is reserved, the memory shared with it, the pipe to it and fcntl work, pipes can be made
  -- and forks succeed, then a client is handed that child with success. The last call is a fork, and
  -- the child that this very fork made is reserved for the next client.
  pub process_msg_for_prefork_hands_out :
      (x : Ctx) (s : Server)
      → SharesMemory env
      → ((t : Trace) → is_some (env.pipe_fds t) ≡ true)
      → ((t : Trace) → is_positive (env.pid_of_fork t) ≡ true)
      → is_positive s.content.reserved_pid ≡ true
      → let r = process_msg_for_prefork env x s in
        (r.0 ≡ done)
        × (r.1.pid ≡ s.content.reserved_pid)
        × (is_positive r.2.content.reserved_pid ≡ true)
        × ((u : Trace) × (r.2.trace ≡ fork_child ∷ u)
            × (r.2.content.reserved_pid ≡ env.pid_of_fork (fork_child ∷ u)))
  process_msg_for_prefork_hands_out x s m pipes forks p =
      let h = process_msg_for_prefork-HandsOut x s m p in
      let (u, t, e) = process_pre_fork_renews h.before pipes in
      rw h.run (refl, h.same_pid, ap is_positive e ∙ forks (fork_child ∷ u), (u, t, e))

  -- If a child is reserved, the memory shared with it, the pipe to it and fcntl work, but no pipe can be
  -- made any more, as at the limit of open files, then two clients in a row are handed the same
  -- child, each with success.
  pub process_msg_for_prefork_twice :
      (x y : Ctx) (s : Server)
      → SharesMemory env
      → ((t : Trace) → env.pipe_fds t ≡ none)
      → is_positive s.content.reserved_pid ≡ true
      → let r = process_msg_for_prefork env x s in
        let q = process_msg_for_prefork env y r.2 in
        (r.0 ≡ done) × (q.0 ≡ done) × (q.1.pid ≡ r.1.pid)
  process_msg_for_prefork_twice x y s m pipes p =
      let h = process_msg_for_prefork-HandsOut x s m p in
      let t = call make_pipe h.before in
      let k = process_msg_for_prefork-HandsOut y t m (rw h.still p) in
      rw (h.run, process_pre_fork_keeps h.before pipes)
        (refl, rw k.run refl, rw k.run (k.same_pid ∙ h.still ∙ sym h.same_pid))
