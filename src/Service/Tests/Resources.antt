-- ===== src/Service/Tests/Resources.antt =====
-- The theorems on what a service holds (capabilities, descriptors, timers) at concrete services.
use openharmony_mac_build.Common.{
  ◌≡◌, ◌≢◌, refl, inr, ℤ, pos, minus_one, false, some, List, [], ◌∷◌, arith, length,
}
use openharmony_mac_build.Service.Types.{Env, Proc, fault}
use openharmony_mac_build.Service.Tests.{fine_env, plain_service, plain_attr, down}
use openharmony_mac_build.Service.Caps.{drop_capability}
use openharmony_mac_build.Service.Caps.Invalid.{drop_capability_fits}
use openharmony_mac_build.Service.Fds.{update_service_fds}
use openharmony_mac_build.Service.Fds.Held.{held, close_all, update_service_fds_lem}

drop_capability_fits_example : drop_capability fine_env (1 ∷ 3 ∷ []) down ≢ fault down
drop_capability_fits_example =
    drop_capability_fits fine_env (1 ∷ 3 ∷ []) down down (refl, (refl, tt))
      (omega arith, (omega arith, tt))

abbrev fresh : List ℤ
fresh = pos 8 ∷ pos 9 ∷ pos 10 ∷ []

update_service_fds_example :
    let q = (update_service_fds fine_env (some fresh) 3 down).1 in
    (held q.svc ≡ fresh) × (q.trace ≡ close_all (held plain_service) [])
unfolding update_service_fds
update_service_fds_example =
    update_service_fds_lem fine_env fresh down (inr refl) (omega arith) refl

abbrev many : List ℤ
many = pos 8 ∷ pos 9 ∷ pos 10 ∷ pos 11 ∷ pos 12 ∷ []

abbrev no_dup_env : Env
no_dup_env = record fine_env { dup_result = λ t x. minus_one }

abbrev timed : Proc
timed = record down {
  svc = record plain_service { timer = some 2; attr = record plain_attr { rest = 1 } };
}

abbrev no_start_env : Env
no_start_env = record fine_env { start_timer_ok = λ t. false; new_timer = λ t. some (length t) }
