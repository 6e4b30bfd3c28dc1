-- ===== src/Hdf/Process.antt =====
-- DevmgrServiceStartHostProcess and DevmgrServiceStopHost: the process behind a host.
pub mod Wait
use openharmony_mac_build.Common.{
  ℕ, zero, suc, ℤ, pos, negsuc, minus_one, Bool, true, false, not, Option, none, some, List, ◌∷◌,
  if◌then◌else◌, ◌==◌, is_some,
}
use openharmony_mac_build.Hdf.Types.{
  Env, Host, HostService, Trace, Code, success, failure, timeout, start_device_host,
  stop_device_host, msleep,
}

abbrev pub is_minus_one : ℤ → Bool
is_minus_one (negsuc zero) = true
is_minus_one n = false

-- WAIT_HOST_SLEEP_CNT
abbrev pub wait_host_sleep_cnt : ℕ
wait_host_sleep_cnt = 1000

-- What another thread attached during a sleep.
abbrev pub take_attached : Option HostService → Host → Host
take_attached none h = h
take_attached (some s) h = record h { host_service = some s }

-- The loop that waits for the host to attach; with the count that is left.
unfoldable pub wait_attach : Env → ℕ → Host → Trace → ℕ × Host × Trace
wait_attach env zero h t = (zero, h, t)
wait_attach env (suc n) h t =
    let slept = msleep ∷ t in
    let rest = wait_attach env n (take_attached (env.attached slept) h) slept in
    if is_some h.host_service then (suc n, h, t) else rest

-- The end of a synchronous start.
check_count : Env → ℕ × Host × Trace → Code × Host × Trace
check_count env (zero, h, t) = (
  timeout,
  record h { host_pid = minus_one },
  if env.has_stop then stop_device_host h.host_id ∷ t else t,
)
check_count env (suc n, h, t) = (success, h, t)

wait_if : Env → Bool → ℕ → Host → Trace → Code × Host × Trace
unfolding check_count
wait_if env false cnt h t = (success, h, t)
wait_if env true cnt h t = check_count env (wait_attach env cnt h t)

-- With the count of rounds as an argument: the source starts at WAIT_HOST_SLEEP_CNT.
unfoldable pub start_host_process_for : ℕ → Env → Host → Bool → Bool → Trace → Code × Host × Trace
unfolding wait_if
start_host_process_for cnt env h sync dynamic t =
    let asked = start_device_host h.host_id dynamic ∷ t in
    let started = record h { host_pid = env.started_pid asked } in
    if env.has_start
    then if is_minus_one started.host_pid
      then (failure, started, asked)
      else wait_if env sync cnt (record started { stop_flag = false }) asked
    else (failure, h, t)

unfoldable pub start_host_process : Env → Host → Bool → Bool → Trace → Code × Host × Trace
start_host_process = start_host_process_for wait_host_sleep_cnt

unfoldable pub stop_host : Env → Host → Trace → Code × Host × Trace
stop_host env h t =
    if env.has_stop
    then (success, record h { stop_flag = true }, stop_device_host h.host_id ∷ t)
    else (failure, h, t)
