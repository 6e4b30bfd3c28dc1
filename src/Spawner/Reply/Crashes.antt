-- ===== src/Spawner/Reply/Crashes.antt =====
-- How many children in a row have to die before appspawn stops.
use openharmony_mac_build.Common.{
  ℕ, ℤ, pos, zero, suc, ◌+◌, ◌%◌, ◌^◌, ◌<◌, ◌≡◌, ◌∙◌, refl, ap, sym, subst, Bool, true, false,
  Option, none, some, List, [], ◌∷◌, arith, ◌==◌, leb,
}
use openharmony_mac_build.Spawner.State.{
  Env, Server, Content, Ctx, Message, App, Trace, call, set_content, send_response, child_crash,
  stop_loop, delete_ctx,
}
use openharmony_mac_build.Spawner.Stop.{
  stop_server, kill_reserved, destroy_all, app_queue_destroy, stop_app_spawn,
}
use openharmony_mac_build.Spawner.Reply.{record_crash, died_waiting, died_ctx, wait_child_died}

-- Whether the last call stopped the loop of appspawn.
abbrev pub is_stopped : Trace → Bool
is_stopped (stop_loop ∷ t) = true
is_stopped t = false

-- The two members of the content that count deaths.
abbrev pub crashes : Content → ℕ × ℕ
crashes c = (c.crash_times, c.last_died_app_id)

crashes-stop_server :
    (o : Option App) (s : Server) → crashes (stop_server o s).content ≡ crashes s.content
unfolding stop_server
crashes-stop_server none s = refl
crashes-stop_server (some a) s = refl

crashes-kill_reserved : (s : Server) → crashes (kill_reserved s).content ≡ crashes s.content
unfolding kill_reserved
crashes-kill_reserved s = ground arith

crashes-destroy_all :
    (as' : List App) (s : Server) → crashes (destroy_all as' s).content ≡ crashes s.content
unfolding destroy_all app_queue_destroy
crashes-destroy_all [] s = refl
crashes-destroy_all (a ∷ as') s = crashes-destroy_all as' (app_queue_destroy a s) ∙ ground arith

crashes-stop_app_spawn :
    (env : Env) (s : Server)
    → (crashes (stop_app_spawn env s).content ≡ crashes s.content)
      × (is_stopped (stop_app_spawn env s).trace ≡ true)
unfolding stop_app_spawn
crashes-stop_app_spawn env s =
    let t = stop_server (env.nweb_process s.trace) s in
    let v = stop_server (env.native_process t.trace) t in
    let u = kill_reserved v in
    (
      crashes-destroy_all (env.processes u.trace) u
          ∙ crashes-kill_reserved v
          ∙ crashes-stop_server (env.native_process t.trace) t
          ∙ crashes-stop_server (env.nweb_process s.trace) s,
      refl,
    )

-- What the death of a child that was waited for counts, and whether appspawn stops over it.
Counts : ℕ → Content → Server → Type 0
Counts id c r =
    (crashes r.content ≡ crashes (record_crash id c))
    × (is_stopped r.trace ≡ leb 5 (record_crash id c).crash_times)

died_waiting-Counts :
    (env : Env) (x : Ctx) (m : Message) (s : Server)
    → Counts x.client_id s.content (died_waiting env x (some m) s)
unfolding died_waiting Counts send_response
died_waiting-Counts env x m s =
    let t = set_content (record_crash x.client_id s.content) s in
    let u = call (delete_ctx x) (send_response env m child_crash (pos 0) t) in
    ground (arith, crashes-stop_app_spawn env u)

died_ctx-Counts :
    (env : Env) (s : Server) (o : Option Ctx) (x : Ctx) (m : Message)
    → o ≡ some x
    → x.is_spawning ≡ true
    → x.message ≡ some m
    → Counts x.client_id s.content (died_ctx env s o)
unfolding died_ctx
died_ctx-Counts env s o x m e f g = simp (e, f, g) (died_waiting-Counts env x m s)

-- The first `n` of the processes die one after the other.
abbrev pub deaths : Env → (ℕ → ℤ) → ℕ → Server → Server
deaths env pids zero s = s
deaths env pids (suc n) s = wait_child_died env (pids n) (deaths env pids n s)

-- Each of the processes, when it dies, is the child of a context that is spawned for a message, and the
-- clients of these contexts have the numbers from `id` on, round 2^32.
pub record AreWaited (env : Env) (pids : ℕ → ℤ) (id : ℕ) (s : Server) : Type 0 where
  pub contexts : ℕ → Ctx
  pub messages : ℕ → Message
  pub found : (i : ℕ) → env.ctx_by_pid (deaths env pids i s).trace (pids i) ≡ some (contexts i)
  pub spawning : (i : ℕ) → (contexts i).is_spawning ≡ true
  pub asked_by : (i : ℕ) → (contexts i).message ≡ some (messages i)
  pub clients : (i : ℕ) → (contexts i).client_id ≡ (id + i) % 2 ^ 32

module _ (env : Env) (pids : ℕ → ℤ) (id : ℕ) (s : Server) where
  next-Counts :
      (n : ℕ)
      → AreWaited env pids id s
      → Counts ((id + n) % 2 ^ 32) (deaths env pids n s).content (deaths env pids (suc n) s)
  unfolding wait_child_died
  next-Counts n w =
      let u = deaths env pids n s in
      subst (λ (k : ℕ). Counts k u.content (died_ctx env u (env.ctx_by_pid u.trace (pids n))))
        (w.clients n)
        (died_ctx-Counts env u (env.ctx_by_pid u.trace (pids n)) (w.contexts n) (w.messages n)
          (w.found n) (w.spawning n) (w.asked_by n))

  deaths_lem :
      (n : ℕ)
      → AreWaited env pids id s
      → suc n < 2 ^ 32
      → (id % 2 ^ 32 == (s.content.last_died_app_id + 1) % 2 ^ 32) ≡ false
      → crashes (deaths env pids (suc n) s).content ≡ (suc n, (id + n) % 2 ^ 32)
  unfolding record_crash Counts
  deaths_lem zero w b f = (next-Counts zero w).0 ∙ ground arith
  deaths_lem (suc n) w b f =
      let e = deaths_lem n w (ground arith) f in (next-Counts (suc n) w).0 ∙ ground (arith, e)

  -- If n + 1 children that are waited for die in turn, of the clients from `id` on round 2^32, and the
  -- client counted before them was not the one before `id`, then n + 1 deaths are counted, and the last
  -- call made over the last of them stops the loop of appspawn exactly if they are five or more; all
  -- this for n + 1 below 2^32.
  pub deaths_stop :
      (n : ℕ)
      → AreWaited env pids id s
      → suc n < 2 ^ 32
      → (id % 2 ^ 32 == (s.content.last_died_app_id + 1) % 2 ^ 32) ≡ false
      → let r = deaths env pids (suc n) s in
        (r.content.crash_times ≡ suc n) × (is_stopped r.trace ≡ leb 5 (suc n))
  unfolding Counts
  deaths_stop n w b f =
      let e = ap (λ (c : ℕ × ℕ). c.0) (deaths_lem n w b f) in
      let k = next-Counts n w in (e, k.1 ∙ ap (leb 5) (sym (ap (λ (c : ℕ × ℕ). c.0) k.0) ∙ e))
