-- ===== src/Service/Crash.antt =====
-- CalculateCrashTime of init_common_service.c: how many crashes a service may have in a while.
pub mod Window
use openharmony_mac_build.Common.{
  ℕ, suc, ◌%◌, ◌^◌, Bool, true, false, ◌||◌, if◌then◌else◌, ltb, leb, ◌==◌,
}
use openharmony_mac_build.Service.Types.{Env, Proc, Timespec, clock_gettime, call}

abbrev pub set_crashes : ℕ → ℕ → Proc → Proc
set_crashes cnt first p = record p {
  svc = record p.svc { crash_cnt = cnt; first_crash_time = first };
}

abbrev pub to_u32 : ℕ → ℕ
to_u32 n = n % 2 ^ 32

-- A crash at time `cur`.
unfoldable pub count_crash : Env → ℕ → ℕ → Timespec → Proc → Bool × Proc
count_crash env time_limit count_limit cur p =
    if p.svc.crash_cnt == 0
    then (not_last 1, set_crashes 1 (to_u32 cur.sec) p)
    else if ltb time_limit
        (env.interval_time (record { sec = p.svc.first_crash_time; nsec = 0 }) cur)
    then (true, set_crashes 1 (to_u32 cur.sec) p)
    else (
      if leb count_limit (suc p.svc.crash_cnt) then false else true,
      set_crashes (suc p.svc.crash_cnt) p.svc.first_crash_time p,
    )
  where
    not_last : ℕ → Bool
    not_last n = if n == count_limit then false else true

-- The result is `false` once the service has crashed too often.
unfoldable pub calculate_crash_time : Env → ℕ → ℕ → Proc → Bool × Proc
unfolding count_crash
calculate_crash_time env time_limit count_limit p =
    if time_limit == 0 || count_limit == 0
    then (false, p)
    else (let q = call clock_gettime p in
        count_crash env time_limit count_limit (env.now q.trace) q)
