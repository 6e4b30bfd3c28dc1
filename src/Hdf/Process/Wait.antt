-- ===== src/Hdf/Process/Wait.antt =====
-- The wait for a host that was started.
use openharmony_mac_build.Common.{
  ℕ, zero, suc, ◌+◌, ◌<◌, ◌≡◌, ◌≢◌, refl, minus_one, Bool, true, false, none, some, ◌∷◌, is_some,
  ◌==◌, count_if, arith,
}
use openharmony_mac_build.Hdf.Types.{
  Env, Host, HostService, Trace, Call, Code, success, timeout, msleep, start_device_host,
  stop_device_host,
}
use openharmony_mac_build.Hdf.Process.{
  is_minus_one, take_attached, wait_attach, start_host_process_for,
}

abbrev pub is_sleep : Call → Bool
is_sleep msleep = true
is_sleep c = false

abbrev pub sleeps : Trace → ℕ
sleeps t = count_if is_sleep t

wait_attach_bound :
    (env : Env) (n : ℕ) (h : Host) (t : Trace)
    → let (left, h', t') = wait_attach env n h t in sleeps t' + left ≡ sleeps t + n
unfolding wait_attach
wait_attach_bound env zero h t = refl
wait_attach_bound env (suc n) h t =
    let slept = msleep ∷ t in
    ground (arith, wait_attach_bound env n (take_attached (env.attached slept) h) slept)

wait_attach_some :
    (env : Env) (n : ℕ) (h : Host) (t : Trace)
    → let (left, h', t') = wait_attach env n h t in left ≢ 0 → is_some h'.host_service ≡ true
unfolding wait_attach
wait_attach_some env zero h t = ground arith
wait_attach_some env (suc n) h t =
    let slept = msleep ∷ t in
    ground (arith, wait_attach_some env n (take_attached (env.attached slept) h) slept)

wait_attach-pid :
    (env : Env) (n : ℕ) (h : Host) (t : Trace) → (wait_attach env n h t).1.host_pid ≡ h.host_pid
unfolding wait_attach
wait_attach-pid env zero h t = refl
wait_attach-pid env (suc n) h t =
    let slept = msleep ∷ t in
    ground (arith, wait_attach-pid env n (take_attached (env.attached slept) h) slept)

-- Whether the last call asked the installer to stop this host.
abbrev pub is_stopped : ℕ → Trace → Bool
is_stopped id (stop_device_host n ∷ t) = n == id
is_stopped id t = false

wait_attach-is_stopped :
    (env : Env) (n : ℕ) (h : Host) (t : Trace) (id : ℕ)
    → is_stopped id t ≡ false
    → is_stopped id (wait_attach env n h t).2 ≡ false
unfolding wait_attach
wait_attach-is_stopped env zero h t id e = e
wait_attach-is_stopped env (suc n) h t id e =
    let slept = msleep ∷ t in
    ground
      (arith, e, wait_attach-is_stopped env n (take_attached (env.attached slept) h) slept id refl)

wait_attach-host_id :
    (env : Env) (n : ℕ) (h : Host) (t : Trace) → (wait_attach env n h t).1.host_id ≡ h.host_id
unfolding wait_attach
wait_attach-host_id env zero h t = refl
wait_attach-host_id env (suc n) h t =
    let slept = msleep ∷ t in
    ground (arith, wait_attach-host_id env n (take_attached (env.attached slept) h) slept)

-- What a synchronous start promises: it makes at most the given number of sleeps; on success the host
-- is attached, has the pid of its start and is not stopped; after a timeout it has no pid, and the
-- installer is asked last to stop it, if it can.
abbrev pub Started : Env → ℕ → Host → Bool → Trace → Code × Host × Trace → Type 0
Started env cnt h dynamic t (success, h', t') =
    (is_some h'.host_service ≡ true)
    × (h'.host_pid ≡ env.started_pid (start_device_host h.host_id dynamic ∷ t))
    × (is_stopped h.host_id t' ≡ false)
    × (sleeps t' < sleeps t + cnt)
Started env cnt h dynamic t (timeout, h', t') =
    (h'.host_pid ≡ minus_one)
    × (is_stopped h.host_id t' ≡ env.has_stop)
    × (sleeps t' ≡ sleeps t + cnt)
Started env cnt h dynamic t (c, h', t') = sleeps t' ≡ sleeps t

-- A synchronous start with any number of rounds: a success means that the host is attached, has
-- the pid it was started with, was not asked last to stop, and fewer sleeps than rounds were made; a
-- timeout, that it has no pid, that the last call asked the installer to stop it exactly if the
-- installer can, and that as many sleeps as rounds were made; another result, that none was made.
pub start_host_process_for-Started :
    (env : Env) (cnt : ℕ) (h : Host) (dynamic : Bool) (t : Trace)
    → Started env cnt h dynamic t (start_host_process_for cnt env h true dynamic t)
unfolding start_host_process_for
start_host_process_for-Started env cnt h dynamic t =
    let asked = start_device_host h.host_id dynamic ∷ t in
    let g = record h { host_pid = env.started_pid asked; stop_flag = false } in
    ground (
      arith,
      wait_attach_bound env cnt g asked,
      wait_attach_some env cnt g asked,
      wait_attach-pid env cnt g asked,
      wait_attach-host_id env cnt g asked,
      wait_attach-is_stopped env cnt g asked h.host_id refl,
    )

wait_attach_late :
    (env : Env) (n : ℕ) (h : Host) (t : Trace) (s : HostService)
    → h.host_service ≡ none
    → ((u : Trace) → sleeps u < sleeps t + suc n → env.attached u ≡ none)
    → ((u : Trace) → sleeps u ≡ sleeps t + suc n → env.attached u ≡ some s)
    → ((wait_attach env (suc n) h t).0 ≡ 0)
      × ((wait_attach env (suc n) h t).1.host_service ≡ some s)
unfolding wait_attach
wait_attach_late env zero h t s e before last =
    let slept = msleep ∷ t in ground (arith, last slept (omega arith))
wait_attach_late env (suc n) h t s e before last =
    let slept = msleep ∷ t in
    ground (
      arith,
      before slept (omega arith),
      wait_attach_late env n h slept s e (λ u l. before u (omega arith))
          (λ u l. last u (omega arith)),
    )

-- If a host that was started attaches during the last sleep and not before, it has its service,
-- and yet the start is reported as a timeout and the host loses its pid.
pub start_host_process_for_late :
    (env : Env) (n : ℕ) (h : Host) (dynamic : Bool) (t : Trace) (s : HostService)
    → env.has_start ≡ true
    → is_minus_one (env.started_pid (start_device_host h.host_id dynamic ∷ t)) ≡ false
    → h.host_service ≡ none
    → ((u : Trace) → sleeps u < sleeps t + suc n → env.attached u ≡ none)
    → ((u : Trace) → sleeps u ≡ sleeps t + suc n → env.attached u ≡ some s)
    → let (code, h', t') = start_host_process_for (suc n) env h true dynamic t in
      (code ≡ timeout) × (h'.host_service ≡ some s) × (h'.host_pid ≡ minus_one)
unfolding start_host_process_for
start_host_process_for_late env n h dynamic t s i runs e before last =
    let asked = start_device_host h.host_id dynamic ∷ t in
    let g = record h { host_pid = env.started_pid asked; stop_flag = false } in
    ground (
      arith,
      wait_attach_late env n g asked s e (λ u l. before u (omega arith))
          (λ u l. last u (omega arith)),
    )
