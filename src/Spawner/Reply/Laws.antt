-- ===== src/Spawner/Reply/Laws.antt =====
-- Every end of a child that is waited for answers its client once.
use openharmony_mac_build.Common.{
  ℕ, ℤ, pos, ◌≡◌, ◌∙◌, refl, ap, true, false, Option, none, some, List, [], ◌∷◌, if◌then◌else◌,
  arith, ◌==◌, Bool-cases, inl, inr, is_positive, leb,
}
use openharmony_mac_build.Spawner.State.{
  Env, Server, Ctx, App, Message, Code, done, child_crash, spawn_timeout, is_done, sigkill, Trace,
  call, set_content, read_result, remove_watcher, add_process, delete_ctx, kill_process, request,
  run_hooks, server_app_add, parent_pre_rely, send, send_response,
}
use openharmony_mac_build.Spawner.News.{news, is_node, Replies, Settled}
use openharmony_mac_build.Spawner.Context.{watch_child_process_fd}
use openharmony_mac_build.Spawner.Stop.{
  app_queue_destroy, destroy_all, stop_server, kill_reserved, stop_app_spawn,
}
use openharmony_mac_build.Spawner.Request.Laws.{answer-delete_ctx, news-send_response}
use openharmony_mac_build.Spawner.Reply.{
  check_result, process_child_fd_check, answer_child, child_ready, process_child_response,
  wait_child_timeout, record_crash, died_waiting, died_ctx, wait_child_died, max_crash_time,
}

module _ (env : Env) (k : Replies env) (n : ℕ) where
  news-watch_child_process_fd :
      (x : Ctx) (s : Server) → news n (watch_child_process_fd env x s).trace ≡ news n s.trace
  unfolding watch_child_process_fd
  news-watch_child_process_fd x s = ground arith

  pub news-destroy_all :
      (as' : List App) (s : Server) → news n (destroy_all as' s).trace ≡ news n s.trace
  unfolding destroy_all
  news-destroy_all [] s = refl
  news-destroy_all (a ∷ as') s = news-destroy_all as' (app_queue_destroy a s) ∙ ground arith

  pub news-stop_app_spawn : (s : Server) → news n (stop_app_spawn env s).trace ≡ news n s.trace
  unfolding stop_app_spawn
  news-stop_app_spawn s =
      let t = stop_server (env.nweb_process s.trace) s in
      let u = kill_reserved (stop_server (env.native_process t.trace) t) in
      news-destroy_all (env.processes u.trace) u ∙ ground arith

  -- What happens the same way to the trace settles the message the same way.
  pub by_same_trace : (t u v : Trace) → u ≡ v → Settled n t v → Settled n t u
  by_same_trace t u v e d = record {
    answer = d.answer;
    release = d.release;
    answers = d.answers;
    releases = d.releases;
    since = ap (news n) e ∙ d.since;
  }

  news-answer_child :
      (m : Message) (x : Ctx) (s : Server)
      → (m.node == n) ≡ true
      → news n (answer_child env x (some m) s).trace ≡ send m done x.pid ∷ news n s.trace
  unfolding answer_child
  news-answer_child m x s i =
      ground (arith, news-send_response env k n m done x.pid (call (run_hooks parent_pre_rely) s) i)

  child_ready-Settled :
      (t : Trace) (m : Message) (x : Ctx) (s : Server)
      → x.message ≡ some m
      → (m.node == n) ≡ true
      → news n s.trace ≡ news n t
      → Settled n t (child_ready env x (true, s)).trace
  unfolding child_ready
  child_ready-Settled t m x s e i w =
      let a = call (add_process x.pid (env.is_debug_app x)) s in
      let u = call (run_hooks server_app_add) (watch_child_process_fd env x a) in
      let h : is_node n x.message ≡ true = ap (is_node n) e ∙ i in
      let g = news-watch_child_process_fd x a in
      let f = ap (λ o. news n (answer_child env x o u).trace) e ∙ news-answer_child m x u i in
      record {
        answer = send m done x.pid;
        release = delete_ctx x;
        answers = refl;
        releases = refl;
        since = ground arith;
      }

  check_result-failed :
      (t : Trace) (m : Message) (x : Ctx) (c : Code) (s : Server)
      → x.message ≡ some m
      → (m.node == n) ≡ true
      → news n s.trace ≡ news n t
      → Settled n t
          (child_ready env x (false, call (delete_ctx x) (send_response env m c x.pid s))).trace
  unfolding child_ready
  check_result-failed t m x c s e i w =
      answer-delete_ctx env k n t m c x.pid x s i (ap (is_node n) e ∙ i) w

  check_result-Settled :
      (t : Trace) (m : Message) (x : Ctx) (c : Code) (s : Server)
      → x.message ≡ some m
      → (m.node == n) ≡ true
      → news n s.trace ≡ news n t
      → Settled n t (child_ready env x (check_result env x (some m) c s)).trace
  unfolding check_result
  check_result-Settled t m x c s e i w = elim (Bool-cases (is_done c)) [
    | inl d ↦ simp d (child_ready-Settled t m x s e i w)
    | inr d ↦ simp d (check_result-failed t m x c s e i w)
  ]

  -- A child's answer is passed on to its client once, and the message is released once, whether the
  -- child succeeded or failed.
  pub process_child_response-Settled :
      (m : Message) (x : Ctx) (s : Server)
      → x.message ≡ some m
      → (m.node == n) ≡ true
      → Settled n s.trace (process_child_response env x s).trace
  unfolding process_child_response process_child_fd_check
  process_child_response-Settled m x s e i =
      let y = record x { watcher = none } in
      let t = call (read_result y.fd_read) (call remove_watcher s) in
      let c = env.child_result t.trace in
      let f : Option Message → Trace = λ o. (child_ready env y (check_result env y o c t)).trace in
      by_same_trace s.trace (f x.message) (f (some m)) (ap f e)
        (check_result-Settled s.trace m y c t e i refl)

  -- So it is when no answer comes in time.
  pub wait_child_timeout-Settled :
      (m : Message) (x : Ctx) (s : Server)
      → x.message ≡ some m
      → (m.node == n) ≡ true
      → Settled n s.trace (wait_child_timeout env x m s).trace
  unfolding wait_child_timeout
  wait_child_timeout-Settled m x s e i =
      let t =
        if is_positive x.pid
        then call (kill_process x.pid sigkill) (call (request "DumpSpawnStack") s)
        else s in
      answer-delete_ctx env k n s.trace m spawn_timeout (pos 0) x t i (ap (is_node n) e ∙ i)
        (ground arith)

  died_waiting-Settled :
      (m : Message) (x : Ctx) (s : Server)
      → x.message ≡ some m
      → (m.node == n) ≡ true
      → Settled n s.trace (died_waiting env x (some m) s).trace
  unfolding died_waiting
  died_waiting-Settled m x s e i =
      let t = set_content (record_crash x.client_id s.content) s in
      let u = call (delete_ctx x) (send_response env m child_crash (pos 0) t) in
      let d =
        answer-delete_ctx env k n s.trace m child_crash (pos 0) x t i (ap (is_node n) e ∙ i) refl in
      elim (Bool-cases (leb max_crash_time u.content.crash_times)) [
        | inr b ↦ simp b d
        | inl b ↦ simp b (record {
          answer = d.answer;
          release = d.release;
          answers = d.answers;
          releases = d.releases;
          since = news-stop_app_spawn u ∙ d.since;
        })
      ]

  died_ctx-spawning :
      (x : Ctx) (s : Server)
      → x.is_spawning ≡ true
      → (died_ctx env s (some x)).trace ≡ (died_waiting env x x.message s).trace
  unfolding died_ctx
  died_ctx-spawning x s b = ground arith

  -- So it is when the child dies while it is waited for, even if appspawn stops over it.
  pub wait_child_died-Settled :
      (pid : ℤ) (m : Message) (x : Ctx) (s : Server)
      → env.ctx_by_pid s.trace pid ≡ some x
      → x.is_spawning ≡ true
      → x.message ≡ some m
      → (m.node == n) ≡ true
      → Settled n s.trace (wait_child_died env pid s).trace
  unfolding wait_child_died
  wait_child_died-Settled pid m x s f b e i =
      let g : Option Message → Trace = λ o. (died_waiting env x o s).trace in
      let h : Option Ctx → Trace = λ o. (died_ctx env s o).trace in
      by_same_trace s.trace (h (env.ctx_by_pid s.trace pid)) (g (some m))
        (ap h f ∙ died_ctx-spawning x s b ∙ ap g e) (died_waiting-Settled m x s e i)
