-- ===== src/Spawner/Stop/Laws.antt =====
-- Who is killed when appspawn stops.
use openharmony_mac_build.Common.{
  ◌∙◌, ap, negsuc, ℤ, pos, int_eq, ◌≡◌, refl, Bool, true, false, not, ◌||◌, Option, none, some,
  List, [], ◌∷◌, is_positive, All, arith,
}
use openharmony_mac_build.Spawner.State.{
  Env, Server, App, Content, Call, Trace, kill_process, sigkill, stop_loop,
}
use openharmony_mac_build.Spawner.Stop.{
  app_queue_destroy, destroy_all, stop_server, kill_reserved, stop_app_spawn,
}

abbrev is_kill : ℤ → Call → Bool
is_kill pid (kill_process p sigkill) = int_eq p pid
is_kill pid c = false

-- Whether the process has been killed.
abbrev pub killed : ℤ → Trace → Bool
killed pid [] = false
killed pid (c ∷ t) = is_kill pid c || killed pid t

int_eq_refl : (n : ℤ) → int_eq n n ≡ true
int_eq_refl (pos n) = ground arith
int_eq_refl (negsuc n) = ground arith

-- A killed process stays so.
destroy_all-killed :
    (pid : ℤ) (as' : List App) (s : Server)
    → killed pid s.trace ≡ true
    → killed pid (destroy_all as' s).trace ≡ true
unfolding destroy_all
destroy_all-killed pid [] s h = h
destroy_all-killed pid (a ∷ as') s h =
    destroy_all-killed pid as' (app_queue_destroy a s) (ground arith)

destroy_all-reserved : (as' : List App) (s : Server) → (destroy_all as' s).content ≡ s.content
unfolding destroy_all app_queue_destroy
destroy_all-reserved [] s = refl
destroy_all-reserved (a ∷ as') s = destroy_all-reserved as' (app_queue_destroy a s) ∙ ground arith

destroy_all_kills :
    (as' : List App) (s : Server)
    → All
        (λ a. (not (is_positive a.app_pid) || killed a.app_pid (destroy_all as' s).trace) ≡ true)
        as'
unfolding destroy_all app_queue_destroy
destroy_all_kills [] s = tt
destroy_all_kills (a ∷ as') s = (
  ground (arith, int_eq_refl a.app_pid, destroy_all-killed a.app_pid as' (app_queue_destroy a s)),
  destroy_all_kills as' (app_queue_destroy a s),
)

kill_reserved-down :
    (s : Server)
    → (is_positive (kill_reserved s).content.reserved_pid ≡ false)
      × ((not (is_positive s.content.reserved_pid)
            || killed s.content.reserved_pid (kill_reserved s).trace)
          ≡ true)
unfolding kill_reserved
kill_reserved-down s = ground (arith, int_eq_refl s.content.reserved_pid)

stop_server-content : (o : Option App) (s : Server) → (stop_server o s).content ≡ s.content
unfolding stop_server
stop_server-content none s = refl
stop_server-content (some a) s = refl

-- If the queue of processes is `as'`, then StopAppSpawn kills each of them that has a pid, and the
-- child that is reserved, if there is one, which is forgotten; the loop is stopped last.
pub stop_app_spawn_kills :
    (env : Env) (s : Server) (as' : List App)
    → ((t : Trace) → env.processes t ≡ as')
    → let r = stop_app_spawn env s in
      All (λ a. (not (is_positive a.app_pid) || killed a.app_pid r.trace) ≡ true) as'
      × ((not (is_positive s.content.reserved_pid) || killed s.content.reserved_pid r.trace) ≡ true)
      × (is_positive r.content.reserved_pid ≡ false)
      × ((t : Trace) × (r.trace ≡ stop_loop ∷ t))
unfolding stop_app_spawn
stop_app_spawn_kills env s as' q =
    let t = stop_server (env.nweb_process s.trace) s in
    let v = stop_server (env.native_process t.trace) t in
    let u = kill_reserved v in
    let d = destroy_all as' u in
    let e = destroy_all_kills as' u in
    simp (q u.trace) (
      e,
      ground (
        arith,
        destroy_all-killed s.content.reserved_pid as' u,
        kill_reserved-down v,
        stop_server-content (env.nweb_process s.trace) s,
        stop_server-content (env.native_process t.trace) t,
      ),
      ground (
        arith,
        ap (λ (c : Content). is_positive c.reserved_pid) (destroy_all-reserved as' u),
        kill_reserved-down v,
      ),
      (d.trace, refl),
    )
