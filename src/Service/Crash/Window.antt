-- ===== src/Service/Crash/Window.antt =====
-- What the crash counter guarantees.
use openharmony_mac_build.Common.{
  ℕ, zero, suc, ◌+◌, ◌≤◌, ◌<◌, ◌≡◌, ◌⊎◌, ◌-◌, refl, true, false, List, [], ◌∷◌, if◌then◌else◌,
  length, All, arith,
}
use openharmony_mac_build.Service.Types.{Env, Proc, Timespec}
use openharmony_mac_build.Service.Crash.{count_crash, calculate_crash_time, set_crashes, to_u32}

-- While a service may still be restarted, its counter stays under the limit, so it never overflows.
abbrev pub Below : ℕ → Proc → Type 0
Below limit p = p.svc.crash_cnt < limit

-- A crash keeps the counter under the limit, or else is reported as one too many; the counter is then
-- exactly at the limit. A service with a limit of one is left out: there the two meet.
pub calculate_crash_time-Below :
    (env : Env) (time_limit count_limit : ℕ) (p : Proc)
    → 0 < time_limit
    → 1 < count_limit
    → Below count_limit p
    → let r = calculate_crash_time env time_limit count_limit p in
      ((r.0 ≡ true) × Below count_limit r.1) ⊎ ((r.0 ≡ false) × (r.1.svc.crash_cnt ≡ count_limit))
unfolding calculate_crash_time
calculate_crash_time-Below env time_limit count_limit p t c b = ground arith

-- A limit that is not positive counts as too many crashes at once, and touches nothing.
pub calculate_crash_time_refuses :
    (env : Env) (time_limit count_limit : ℕ) (p : Proc)
    → (time_limit ≡ 0) ⊎ (count_limit ≡ 0)
    → calculate_crash_time env time_limit count_limit p ≡ (false, p)
unfolding calculate_crash_time
calculate_crash_time_refuses env time_limit count_limit p h = ground arith

-- The crashes at the given times, one after the other, until one is too many: how many were let pass.
pub crashes : Env → ℕ → ℕ → List Timespec → Proc → ℕ × Proc
crashes env time_limit count_limit [] p = (0, p)
crashes env time_limit count_limit (t ∷ ts) p =
    let (fine, q) = count_crash env time_limit count_limit t p in
    let (n, r) = crashes env time_limit count_limit ts q in if fine then (suc n, r) else (0, q)

-- The start of the window that a service is in.
abbrev window_start : Proc → Timespec
window_start p = record { sec = p.svc.first_crash_time; nsec = 0 }

crashes_counted :
    (env : Env) (time_limit count_limit room : ℕ) (ts : List Timespec) (p : Proc)
    → 0 < p.svc.crash_cnt
    → All (λ t. env.interval_time (window_start p) t ≤ time_limit) ts
    → room < length ts
    → count_limit ≡ suc (p.svc.crash_cnt + room)
    → (crashes env time_limit count_limit ts p).0 ≡ room
unfolding crashes count_crash
crashes_counted env time_limit count_limit room [] p c w l e = elim l [ ]
crashes_counted env time_limit count_limit zero (t ∷ ts) p c w l e = ground arith
crashes_counted env time_limit count_limit (suc room) (t ∷ ts) p c w l e =
    let q = set_crashes (suc p.svc.crash_cnt) p.svc.first_crash_time p in
    ground (
      arith,
      crashes_counted env time_limit count_limit room ts q (omega arith) w.1 (omega arith)
          (omega arith),
    )

-- A service that has not crashed yet and crashes at least as often as its limit, which is not
-- zero, is let pass exactly one time less than the limit, if all further crashes come within the
-- time limit of the first one.
pub crashes_in_window :
    (env : Env) (time_limit count_limit : ℕ) (t : Timespec) (ts : List Timespec) (p : Proc)
    → p.svc.crash_cnt ≡ 0
    → 0 < count_limit
    → All (λ t'. env.interval_time (record { sec = to_u32 t.sec; nsec = 0 }) t' ≤ time_limit) ts
    → count_limit ≤ suc (length ts)
    → (crashes env time_limit count_limit (t ∷ ts) p).0 ≡ count_limit - 1
unfolding crashes count_crash
crashes_in_window env time_limit count_limit t ts p z c w l =
    let q = set_crashes 1 (to_u32 t.sec) p in
    ground (
      arith,
      λ (h : 1 < count_limit).
          crashes_counted env time_limit count_limit (count_limit - 2) ts q (omega arith) w
            (omega arith) (omega arith),
    )

-- Each crash comes later than the time limit after the one before it.
abbrev pub IsSpread : Env → ℕ → Timespec → List Timespec → Type 0
IsSpread env time_limit start [] = Unit {0}
IsSpread env time_limit start (t ∷ ts) =
    (time_limit < env.interval_time start t)
    × IsSpread env time_limit (record { sec = to_u32 t.sec; nsec = 0 }) ts

-- If a service has crashed before and each of its crashes comes later than the time limit after
-- the one before it, all are let pass, however many there are.
pub crashes_spread :
    (env : Env) (time_limit count_limit : ℕ) (ts : List Timespec) (p : Proc)
    → 0 < p.svc.crash_cnt
    → IsSpread env time_limit (record { sec = p.svc.first_crash_time; nsec = 0 }) ts
    → (crashes env time_limit count_limit ts p).0 ≡ length ts
unfolding crashes count_crash
crashes_spread env time_limit count_limit [] p c w = refl
crashes_spread env time_limit count_limit (t ∷ ts) p c w = ground (
  arith,
  crashes_spread env time_limit count_limit ts (set_crashes 1 (to_u32 t.sec) p) (omega arith) w.1,
)
