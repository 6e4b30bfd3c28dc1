-- ===== src/Spawner/Request/Laws.antt =====
-- What becomes of a request to spawn.
use openharmony_mac_build.Common.{
  ℕ, ℤ, pos, ◌≡◌, ◌∙◌, refl, ap, true, false, Option, none, some, ◌∷◌, arith, ◌==◌, is_some,
  Bool-cases, Option-cases, inl, inr,
}
use openharmony_mac_build.Spawner.State.{
  Env, Server, Ctx, Message, Code, done, system_error, is_done, sigkill, Trace, call, send,
  create_buffer, start_watcher, create_ctx, delete_ctx, delete_msg, kill_process, run_hooks,
  parent_pre_fork, parent_post_fork, send_response,
}
use openharmony_mac_build.Spawner.News.{news, is_node, Replies, Settled}
use openharmony_mac_build.Spawner.Context.{Step, add_child_watcher}
use openharmony_mac_build.Spawner.Prefork.{run_process_msg}
use openharmony_mac_build.Spawner.Prefork.Quiet.{IsQuiet, run_process_msg-IsQuiet}
use openharmony_mac_build.Spawner.Request.{
  Asked, over, waits, watched, after_spawn, with_ctx, mark_developer, process_spawn_req_msg,
}

-- Since `t`, the message at `n` was settled, or it is untouched and the child that is waited for has it.
abbrev pub Settles : ℕ → Trace → Asked → Type 0
Settles n t (over s) = Settled n t s.trace
Settles n t (waits x s) = (news n s.trace ≡ news n t) × (is_node n x.message ≡ true)

module _ (env : Env) (k : Replies env) where
  pub news-send_response :
      (n : ℕ) (m : Message) (c : Code) (p : ℤ) (s : Server)
      → (m.node == n) ≡ true
      → news n (send_response env m c p s).trace ≡ send m c p ∷ news n s.trace
  unfolding send_response
  news-send_response n m c p s e = ground (arith, k.fits (create_buffer ∷ s.trace))

  -- An answer, and then the release of the message in its context.
  pub answer-delete_ctx :
      (n : ℕ) (t : Trace) (m : Message) (c : Code) (p : ℤ) (x : Ctx) (s : Server)
      → (m.node == n) ≡ true
      → is_node n x.message ≡ true
      → news n s.trace ≡ news n t
      → Settled n t (call (delete_ctx x) (send_response env m c p s)).trace
  answer-delete_ctx n t m c p x s e i w = record {
    answer = send m c p;
    release = delete_ctx x;
    answers = refl;
    releases = refl;
    since = ground (arith, news-send_response n m c p s e);
  }

  pub answer-delete_msg :
      (n : ℕ) (t : Trace) (m : Message) (c : Code) (p : ℤ) (s : Server)
      → (m.node == n) ≡ true
      → news n s.trace ≡ news n t
      → Settled n t (call (delete_msg m) (send_response env m c p s)).trace
  answer-delete_msg n t m c p s e w = record {
    answer = send m c p;
    release = delete_msg m;
    answers = refl;
    releases = refl;
    since = ground (arith, news-send_response n m c p s e);
  }

  add_child_watcher-IsQuiet :
      (n : ℕ) (x : Ctx) (s : Server) → IsQuiet n x s.trace (add_child_watcher env x s)
  unfolding add_child_watcher
  add_child_watcher-IsQuiet n x s = ground arith

  watched-Settles :
      (n : ℕ) (t : Trace) (m : Message) (x : Ctx) (r : Step)
      → (m.node == n) ≡ true
      → is_node n x.message ≡ true
      → IsQuiet n x t r
      → Settles n t (watched env m r)
  unfolding watched
  watched-Settles n t m x (c, y, s) e i q = elim (Bool-cases (is_done c)) [
    | inl d ↦ simp d (q.no_news, ap (is_node n) q.same_message ∙ i)
    | inr d ↦ simp d (
        answer-delete_ctx n t m done (pos 0) y (call (kill_process y.pid sigkill) s) e
          (ap (is_node n) q.same_message ∙ i) q.no_news)
  ]

  after_spawn-Settles :
      (n : ℕ) (t : Trace) (m : Message) (x : Ctx) (r : Step)
      → (m.node == n) ≡ true
      → is_node n x.message ≡ true
      → IsQuiet n x t r
      → Settles n t (after_spawn env m r)
  unfolding after_spawn
  after_spawn-Settles n t m x (c, y, s) e i q =
      let u = call (run_hooks parent_post_fork) s in
      let w = add_child_watcher-IsQuiet n y u in
      let i' = ap (is_node n) q.same_message ∙ i in
      elim (Bool-cases (is_done c)) [
        | inl d ↦ simp d (
            watched-Settles n t m y (add_child_watcher env y u) e i'
              (record { no_news = w.no_news ∙ q.no_news; same_message = w.same_message }))
        | inr d ↦ simp d (answer-delete_ctx n t m c (pos 0) y u e i' q.no_news)
      ]

  with_ctx-Settles :
      (n : ℕ) (t : Trace) (m : Message) (s : Server) (o : Option Ctx)
      → (m.node == n) ≡ true
      → news n s.trace ≡ news n t
      → Settles n t (with_ctx env m s o)
  unfolding with_ctx
  with_ctx-Settles n t m s none e w = answer-delete_msg n t m system_error (pos 0) s e w
  with_ctx-Settles n t m s (some x) e w =
      let y = record x { is_spawning = true; message = some m } in
      let u = call (run_hooks parent_pre_fork) s in
      let q = run_process_msg-IsQuiet env n y u in
      after_spawn-Settles n t m y (run_process_msg env y u) e e
        (record { no_news = q.no_news ∙ w; same_message = q.same_message })

  -- A request to spawn is answered once and then released once, or it is untouched and a child is
  -- waited for that has it, whatever fails on the way, if every answer fits its buffer.
  pub process_spawn_req_msg-Settles :
      (conn : ℕ) (m : Message) (s : Server)
      → Settles m.node s.trace (process_spawn_req_msg env conn m s)
  unfolding process_spawn_req_msg mark_developer
  process_spawn_req_msg-Settles conn m s =
      let t = call create_ctx (mark_developer env s) in
      let n = m.node in
      let e : (n == n) ≡ true = ground arith in
      let w : news n t.trace ≡ news n s.trace = ground arith in
      elim (Bool-cases (is_done (env.check_msg m))) [
        | inl d ↦ simp d (
            with_ctx-Settles n s.trace (record m { connection = some conn }) t
              (env.created_ctx t.trace) e w)
        | inr d ↦ simp d (answer-delete_msg n s.trace m (env.check_msg m) (pos 0) s e refl)
      ]

module _ (env : Env) (k : Replies env) (watchless : (t : Trace) → env.watch_ok t ≡ false)
    (spawns : (x : Ctx) (s : Server) → (run_process_msg env x s).0 ≡ done) where
  -- The trace that a child leaves which cannot be watched.
  abbrev pub lost : ℕ → Message → Ctx → Server → Server
  lost conn m x s =
      let n = record m { connection = some conn } in
      let y = record x { is_spawning = true; message = some n } in
      let r = run_process_msg env y (call (run_hooks parent_pre_fork) s) in
      let u = call start_watcher (call (run_hooks parent_post_fork) r.2) in
      call (delete_ctx r.1)
        (call (send n done (pos 0)) (call create_buffer (call (kill_process r.1.pid sigkill) u)))

  add_child_watcher_fails :
      (x : Ctx) (s : Server) → add_child_watcher env x s ≡ (system_error, x, call start_watcher s)
  unfolding add_child_watcher
  add_child_watcher_fails x s = simp (watchless (start_watcher ∷ s.trace)) refl

  send_response_fits :
      (m : Message) (c : Code) (p : ℤ) (s : Server)
      → send_response env m c p s ≡ call (send m c p) (call create_buffer s)
  unfolding send_response
  send_response_fits m c p s = simp (k.fits (create_buffer ∷ s.trace)) refl

  after_spawn_lost :
      (m : Message) (x : Ctx) (s : Server)
      → let u = call start_watcher (call (run_hooks parent_post_fork) s) in
        after_spawn env m (done, x, s)
        ≡ over (
            call (delete_ctx x) (
              call
                (send m done (pos 0))
                (call create_buffer (call (kill_process x.pid sigkill) u))))
  unfolding after_spawn watched
  after_spawn_lost m x s =
      let t = call (run_hooks parent_post_fork) s in
      let u = call start_watcher t in
      rw (add_child_watcher_fails x t) (
        ap (λ v. over (call (delete_ctx x) v))
          (send_response_fits m done (pos 0) (call (kill_process x.pid sigkill) u)))

  with_ctx-lost :
      (conn : ℕ) (m : Message) (x : Ctx) (s : Server)
      → with_ctx env (record m { connection = some conn }) s (some x) ≡ over (lost conn m x s)
  unfolding with_ctx
  with_ctx-lost conn m x s =
      let n = record m { connection = some conn } in
      let y = record x { is_spawning = true; message = some n } in
      let r = run_process_msg env y (call (run_hooks parent_pre_fork) s) in
      ap (λ (c : Code). after_spawn env n (c, r.1, r.2))
        (spawns y (call (run_hooks parent_pre_fork) s))
      ∙ after_spawn_lost n r.1 r.2

  -- A child that is spawned for a message that is fine, and cannot be watched, is killed, and yet its
  -- client is answered with the result 0 and no pid.
  pub process_spawn_req_msg-lost :
      (conn : ℕ) (m : Message) (s : Server)
      → is_done (env.check_msg m) ≡ true
      → ((t : Trace) → is_some (env.created_ctx t) ≡ true)
      → (x : Ctx) × (t : Server) × (process_spawn_req_msg env conn m s ≡ over (lost conn m x t))
  unfolding process_spawn_req_msg mark_developer
  process_spawn_req_msg-lost conn m s fine made =
      let t = call create_ctx (mark_developer env s) in
      elim (Option-cases (env.created_ctx t.trace)) [
        | inl e ↦ absurd (ground (arith, made t.trace, e))
        | inr (x, e) ↦ (x, t, simp (fine, e) (with_ctx-lost conn m x t))
      ]
