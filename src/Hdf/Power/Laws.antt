-- ===== src/Hdf/Power/Laws.antt =====
-- Who is told of a power change, in which order, and what is reported.
use mathlib.Core.List.{reverse, reverse-reverse, reverse-cons, append_assoc, append-nil}
use openharmony_mac_build.Common.{
  ℕ, ◌≡◌, refl, Bool, true, false, List, [], ◌∷◌, ◌++◌, if◌then◌else◌, is_some, arith,
}
use openharmony_mac_build.Hdf.Types.{
  Env, Host, Manager, Trace, Call, Code, success, failure, is_success, pm_notify,
}
use openharmony_mac_build.Hdf.Power.{notify_hosts, power_state_change}

-- The notifications of the attached hosts, in the order of the list.
abbrev pub notices : ℕ → List Host → List Call
notices state [] = []
notices state (h ∷ hs) =
    let rest = notices state hs in
    if is_some h.host_service then pm_notify h.host_id state ∷ rest else rest

-- Whether every attached host answers with success, in the order in which they are asked.
abbrev pub all_answer : Env → ℕ → List Host → Trace → Bool
all_answer env state [] t = true
all_answer env state (h ∷ hs) t =
    let told = pm_notify h.host_id state ∷ t in
    let rest = all_answer env state hs told in
    let silent = all_answer env state hs t in
    if is_some h.host_service
    then (if is_success (env.notify_result told) then rest else false)
    else silent

notify_hosts-trace :
    (env : Env) (state : ℕ) (hs : List Host) (r : Code) (t : Trace)
    → (notify_hosts env state hs (r, t)).1 ≡ reverse (notices state hs) ++ t
unfolding notify_hosts
notify_hosts-trace env state [] r t = refl
notify_hosts-trace env state (h ∷ hs) r t =
    let n = pm_notify h.host_id state in
    ground (
      arith,
      notify_hosts-trace env state hs r t,
      notify_hosts-trace env state hs r (n ∷ t),
      notify_hosts-trace env state hs failure (n ∷ t),
      reverse-cons n (notices state hs),
      append_assoc (reverse (notices state hs)) (n ∷ []) t,
    )

notices-append :
    (state : ℕ) (xs ys : List Host)
    → notices state (xs ++ ys) ≡ notices state xs ++ notices state ys
notices-append state [] ys = refl
notices-append state (x ∷ xs) ys = ground (arith, notices-append state xs ys)

notices-reverse :
    (state : ℕ) (hs : List Host) → notices state (reverse hs) ≡ reverse (notices state hs)
notices-reverse state [] = refl
notices-reverse state (h ∷ hs) = ground (
  arith,
  reverse-cons h hs,
  notices-append state (reverse hs) (h ∷ []),
  notices-reverse state hs,
  reverse-cons (pm_notify h.host_id state) (notices state hs),
  append-nil (reverse (notices state hs)),
)

notify_hosts-failure :
    (env : Env) (state : ℕ) (hs : List Host) (t : Trace)
    → (notify_hosts env state hs (failure, t)).0 ≡ failure
unfolding notify_hosts
notify_hosts-failure env state [] t = refl
notify_hosts-failure env state (h ∷ hs) t = ground (
  arith,
  notify_hosts-failure env state hs t,
  notify_hosts-failure env state hs (pm_notify h.host_id state ∷ t),
)

notify_hosts-result :
    (env : Env) (state : ℕ) (hs : List Host) (t : Trace)
    → (notify_hosts env state hs (success, t)).0
      ≡ (if all_answer env state hs t then success else failure)
unfolding notify_hosts
notify_hosts-result env state [] t = refl
notify_hosts-result env state (h ∷ hs) t = ground (
  arith,
  notify_hosts-failure env state hs (pm_notify h.host_id state ∷ t),
  notify_hosts-result env state hs t,
  notify_hosts-result env state hs (pm_notify h.host_id state ∷ t),
)

-- For a valid state, waking tells the attached hosts in the order of the list, and suspending in
-- the opposite order, each once and no other; in the trace the newest call stands first.
pub power_state_change-trace :
    (env : Env) (state : ℕ) (m : Manager)
    → env.is_valid_power state ≡ true
    → (power_state_change env state m).1.trace
      ≡ (if env.is_power_wake state then reverse (notices state m.hosts) else notices state m.hosts)
        ++ m.trace
unfolding power_state_change
power_state_change-trace env state m valid = ground (
  arith,
  notify_hosts-trace env state m.hosts success m.trace,
  notify_hosts-trace env state (reverse m.hosts) success m.trace,
  notices-reverse state m.hosts,
  reverse-reverse (notices state m.hosts),
)

-- For a valid state, the change succeeds exactly when every attached host answers with success,
-- asked in the order of the change.
pub power_state_change-result :
    (env : Env) (state : ℕ) (m : Manager)
    → env.is_valid_power state ≡ true
    → (power_state_change env state m).0 ≡ (
        if all_answer env state
          (if env.is_power_wake state then m.hosts else reverse m.hosts)
          m.trace
        then success
        else failure)
unfolding power_state_change
power_state_change-result env state m valid = ground (
  arith,
  notify_hosts-result env state m.hosts m.trace,
  notify_hosts-result env state (reverse m.hosts) m.trace,
)
