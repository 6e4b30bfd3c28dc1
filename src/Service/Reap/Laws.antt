-- ===== src/Service/Reap/Laws.antt =====
-- What ServiceReap does with a service whose process has died.
use openharmony_mac_build.Common.{
  ◌≡◌, refl, ◌∙◌, ℤ, minus_one, true, false, List, [], ◌∷◌, ◌++◌, is_positive, arith, All,
}
use openharmony_mac_build.Service.Types.{
  Env, Proc, stopped, notify, state_of, call, set_pid, add_watcher,
}
use openharmony_mac_build.Service.Frame.{notify-svc, forks, forks-notify}
use openharmony_mac_build.Service.Stop.{close_service_socket, service_stop}
use openharmony_mac_build.Service.Stop.Laws.{KeepsBits, service_stop-IsMarked}
use openharmony_mac_build.Service.Reap.{
  Reaped, settled, in_child, null_read, close_dead, reap_running, check_sockets, service_reap,
}

-- Init has settled the matter: the service has no pid, and init has not forked since `p`.
abbrev pub StaysDown : Reaped → Proc → Type 0
StaysDown (settled q) p = (q.svc.pid ≡ minus_one) × (forks q.trace ≡ forks p.trace)
StaysDown _ p = ⊥

StaysDown-trans :
    (r : Reaped) (p q : Proc) → forks q.trace ≡ forks p.trace → StaysDown r q → StaysDown r p
StaysDown-trans (settled s) p q e d = (d.0, d.1 ∙ e)
StaysDown-trans (in_child s) p q e d = d
StaysDown-trans (null_read s) p q e d = d

module _ (env : Env) where
  close_dead-attr :
      (q : Proc)
      → ((close_dead env q).svc.attr ≡ q.svc.attr)
        × ((close_dead env q).svc.pid ≡ q.svc.pid)
        × (forks (close_dead env q).trace ≡ forks q.trace)
  unfolding close_dead close_service_socket
  close_dead-attr q = ground arith

  -- A service that was stopped on purpose is not started again by its reaping, whatever else is set.
  pub service_reap_stopped :
      (p : Proc) → p.svc.attr.need_stop ≡ true → StaysDown (service_reap env p) p
  unfolding service_reap
  service_reap_stopped p s =
      let q = set_pid minus_one (notify env stopped p) in
      ground (arith, notify-svc env stopped p, forks-notify env stopped p, close_dead-attr q)

  -- A call of ServiceStop and then the reaping of the process, in this order, never restart the
  -- service: it has no pid and init has not forked, if clearing the timer bit leaves the stop and
  -- restart bits alone.
  pub service_reap-service_stop :
      (p : Proc) → KeepsBits env → StaysDown (service_reap env (state_of (service_stop env p))) p
  service_reap-service_stop p k =
      let m = service_stop-IsMarked env p k in
      let q = state_of (service_stop env p) in
      StaysDown-trans (service_reap env q) p q m.same_forks (service_reap_stopped q m.stop)

  -- The reaping of a one-shot service that nobody asked to restart leaves it without a pid, and
  -- init does not fork.
  pub service_reap_once :
      (p : Proc)
      → p.svc.attr.once ≡ true
      → p.svc.attr.need_restart ≡ false
      → StaysDown (service_reap env p) p
  unfolding service_reap reap_running
  service_reap_once p o n =
      let q = set_pid minus_one (notify env stopped p) in
      ground (arith, notify-svc env stopped p, forks-notify env stopped p, close_dead-attr q)

abbrev pub check_sockets_watches : List ℤ → Proc → Proc
check_sockets_watches [] p = p
check_sockets_watches (x ∷ xs) p = check_sockets_watches xs (call (add_watcher x) p)

-- With open sockets only, each is watched again, in order.
pub check_sockets_open :
    (xs : List ℤ) (p : Proc)
    → All (λ x. is_positive x ≡ true) xs
    → check_sockets xs p ≡ settled (check_sockets_watches xs p)
unfolding check_sockets
check_sockets_open [] p h = refl
check_sockets_open (x ∷ []) p h = ground arith
check_sockets_open (x ∷ y ∷ xs) p h =
    ground (arith, check_sockets_open (y ∷ xs) (call (add_watcher x) p) h.1)

-- If the last socket alone has no descriptor, CheckServiceSocket watches the others and then reads
-- through a null pointer.
pub check_sockets_null :
    (xs : List ℤ) (x : ℤ) (p : Proc)
    → All (λ y. is_positive y ≡ true) xs
    → is_positive x ≡ false
    → check_sockets (xs ++ x ∷ []) p ≡ null_read (check_sockets_watches xs p)
unfolding check_sockets
check_sockets_null [] x p h n = ground arith
check_sockets_null (y ∷ []) x p h n = ground arith
check_sockets_null (y ∷ z ∷ xs) x p h n =
    ground (arith, check_sockets_null (z ∷ xs) x (call (add_watcher y) p) h.1)
