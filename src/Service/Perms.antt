-- ===== src/Service/Perms.antt =====
-- SetPerms of init_common_service.c with its parts ServiceSetGid and SetSystemSeccompPolicy: how the
-- child of a fork gives up its rights before it runs the program.
pub mod Order
pub mod Codes
use text.Mathlib.Text.{starts_with}
use openharmony_mac_build.Common.{
  ℕ, zero, suc, String, Bool, true, false, not, ◌&&◌, Option, none, some, List, [], ◌∷◌,
  if◌then◌else◌, ◌==◌, is_empty,
}
use openharmony_mac_build.Service.Types.{
  Env, Proc, Result, ok, fails, fault, Code, failure, ekeepcap, egidset, eseccomp, euidset, ecap,
  set_perms_before, set_perms as set_perms_hook, enter, run_hook, setgid, setgroups, setuid, capset,
  call, check_call, ◌>>=◌,
}
use openharmony_mac_build.Service.Caps.{
  drop_capability, cap_words, set_ambients, Ambient, loop_done, all_set, refused,
}

-- ServiceSetGid, with the code that SetPerms turns its failure into.
set_gids : Env → ℕ → List ℕ → Proc → Result
set_gids env uid [] p = check_call env.step_ok egidset (setgid uid) p
set_gids env uid (g ∷ []) p = check_call env.step_ok egidset (setgid g) p
set_gids env uid (g ∷ h ∷ gs) p = do
  q ← check_call env.step_ok egidset (setgid g) p
  check_call env.step_ok egidset (setgroups (h ∷ gs)) q

abbrev first_arg : List String → String
first_arg [] = ""
first_arg (a ∷ as') = a

set_seccomp_policy : Env → Proc → Result
set_seccomp_policy env p =
    if env.with_seccomp
      && not (starts_with p.svc.name "appspawn")
      && not (starts_with p.svc.name "nwebspawn")
    then if env.cmd_fits p.svc.name (first_arg p.svc.path_args)
      then ok (call (enter "SetSeccompPolicy") p)
      else fails eseccomp p
    else ok p

-- The user, or for root the capabilities that the service is not to keep.
set_user : Env → Proc → Result
set_user env p =
    if p.svc.perm.uid == 0
    then (if is_empty p.svc.perm.caps then ok p else drop_capability env p.svc.perm.caps p)
    else check_call env.step_ok euidset (setuid p.svc.perm.uid) p

zero_words : ℕ → List ℕ
zero_words zero = []
zero_words (suc n) = 0 ∷ zero_words n

set_cap_words : Env → Proc → Option (List ℕ) → Result
set_cap_words env p none = fault p
set_cap_words env p (some ws) = check_call env.step_ok failure (capset ws) p

finish_perms : Ambient → Result
finish_perms (loop_done p) = ok (call (run_hook set_perms_hook) p)
finish_perms (all_set p) = ok p
finish_perms (refused p) = fails ecap p

unfoldable pub set_perms : Env → Proc → Result
unfolding set_gids set_seccomp_policy set_user set_cap_words finish_perms zero_words
set_perms env p0 = do
  p1 ←
      check_call env.step_ok ekeepcap (enter "KeepCapability") (call (run_hook set_perms_before) p0)
  p2 ← set_gids env p1.svc.perm.uid p1.svc.perm.gids p1
  p3 ← set_seccomp_policy env p2
  p4 ← set_user env p3
  p5 ← set_cap_words env p4 (cap_words env p4.svc.perm.caps (zero_words env.cap_num))
  finish_perms (set_ambients env p5.svc.perm.caps p5)
