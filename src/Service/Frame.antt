-- ===== src/Service/Frame.antt =====
-- What the small steps leave alone: facts that the proofs about whole operations share.
use openharmony_mac_build.Common.{
  ℕ, ◌≡◌, refl, ◌∙◌, ℤ, String, Bool, true, false, Option, none, some, List, [], ◌∷◌, if◌then◌else◌,
  count_if, arith, zero, suc, Option-cases, inl, inr,
}
use openharmony_mac_build.Service.Types.{
  Env, Proc, Call, Trace, Status, idle, started, stopping, stopped, fork, notify, run_job, close_fd,
}
use openharmony_mac_build.Service.Timer.{service_stop_timer, service_start_timer}
use openharmony_mac_build.Service.Fds.{close_service_fds, closed, is_minus_one}

abbrev pub is_fork : Call → Bool
is_fork fork = true
is_fork c = false

-- How often init has forked.
abbrev pub forks : Trace → ℕ
forks t = count_if is_fork t

module _ (env : Env) where
  -- A notification changes the status alone.
  pub notify-svc : (s : Status) (p : Proc) → (notify env s p).svc ≡ record p.svc { status = s }
  unfolding notify
  notify-svc idle p = refl
  notify-svc started p = ground arith
  notify-svc stopping p = ground arith
  notify-svc stopped p = ground arith

  pub forks-notify : (s : Status) (p : Proc) → forks (notify env s p).trace ≡ forks p.trace
  unfolding notify
  forks-notify idle p = refl
  forks-notify started p = ground arith
  forks-notify stopping p = ground arith
  forks-notify stopped p = ground arith

  pub forks-service_stop_timer : (p : Proc) → forks (service_stop_timer env p).trace ≡ forks p.trace
  unfolding service_stop_timer
  forks-service_stop_timer p = ground arith

  pub forks-service_start_timer :
      (timeout : ℕ) (p : Proc) → forks (service_start_timer env timeout p).trace ≡ forks p.trace
  unfolding service_start_timer service_stop_timer
  forks-service_start_timer timeout p = ground arith

pub forks-run_job : (j : Option String) (p : Proc) → forks (run_job j p).trace ≡ forks p.trace
forks-run_job none p = refl
forks-run_job (some j) p = omega arith

pub run_job-svc : (j : Option String) (p : Proc) → (run_job j p).svc ≡ p.svc
run_job-svc none p = refl
run_job-svc (some j) p = refl

forks-closed : (n : ℕ) (xs : List ℤ) (t : Trace) → forks (closed n xs t) ≡ forks t
unfolding closed
forks-closed zero xs t = refl
forks-closed (suc n) [] t = refl
forks-closed (suc n) (x ∷ xs) t =
    forks-closed n xs (if is_minus_one x then t else close_fd x ∷ t) ∙ ground arith

pub forks-close_service_fds :
    (free_it : Bool) (p : Proc) → forks (close_service_fds free_it p).trace ≡ forks p.trace
unfolding close_service_fds
forks-close_service_fds free_it p = elim (Option-cases p.svc.fds) [
  | inl e ↦ ground (arith, e)
  | inr (xs, e) ↦ ground (arith, forks-closed p.svc.fd_count xs p.trace)
]

pub close_service_fds-attr :
    (free_it : Bool) (p : Proc) → (close_service_fds free_it p).svc.attr ≡ p.svc.attr
unfolding close_service_fds
close_service_fds-attr free_it p = ground arith
