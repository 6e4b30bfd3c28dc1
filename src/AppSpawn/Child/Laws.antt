-- ===== src/AppSpawn/Child/Laws.antt =====
-- What AppSpawnChild tells the parent, and when it clears the environment.
use openharmony_mac_build.Common.{◌≡◌, true, false, ◌∷◌, [], List, arith, if◌then◌else◌}
use openharmony_mac_build.AppSpawn.Child.{
  Env, Content, Client, hooks, notify, cold_start, run_child, fork, clone_new_net, clone_sandbox,
  Trace, Result, zero_result, clear_env, spawning, pre_reply, is_ok, set_up, app_spawn_child,
}

-- The answers that the parent has been sent.
unfoldable pub answers : Trace → List Result
answers [] = []
answers (notify r ∷ t) = r ∷ answers t
answers (hooks s ∷ t) = answers t
answers (cold_start ∷ t) = answers t
answers (run_child ∷ t) = answers t
answers (fork ∷ t) = answers t
answers (clone_new_net ∷ t) = answers t
answers (clone_sandbox n ∷ t) = answers t

-- The first failure among the three stages before the answer, each asked with the calls before it.
unfoldable pub verdict_set_up : Env → Trace → Result
verdict_set_up env t =
    if is_ok (env.hook_result (hooks spawning ∷ t))
    then env.hook_result (hooks pre_reply ∷ hooks spawning ∷ t)
    else env.hook_result (hooks spawning ∷ t)

unfoldable pub verdict : Env → Trace → Result
unfolding verdict_set_up
verdict env t =
    if is_ok (env.hook_result (hooks clear_env ∷ t))
    then verdict_set_up env (hooks clear_env ∷ t)
    else env.hook_result (hooks clear_env ∷ t)

set_up-answers :
    (env : Env) (c : Content) (t : Trace)
    → c.can_notify ≡ true
    → answers (set_up env c t) ≡ verdict_set_up env t ∷ answers t
unfolding set_up verdict_set_up answers
set_up-answers env c t n = ground arith

-- A child that is not to be started cold, of a content that can notify, answers its parent exactly
-- once: with the first failure of the stages before the answer, and with 0 if none failed.
pub app_spawn_child-answers :
    (env : Env) (c : Content) (l : Client) (t : Trace)
    → c.can_notify ≡ true
    → l.is_cold_start ≡ false
    → answers (app_spawn_child env c l t) ≡ verdict env t ∷ answers t
unfolding app_spawn_child answers verdict
app_spawn_child-answers env c l t n cold =
    ground (arith, set_up-answers env c (hooks clear_env ∷ t) n)

-- A cold start that works leaves the answer to the process it made: this child sends none.
pub app_spawn_child_cold :
    (env : Env) (c : Content) (l : Client) (t : Trace)
    → l.is_cold_start ≡ true
    → c.can_cold_start ≡ true
    → env.hook_result (hooks clear_env ∷ t) ≡ zero_result
    → env.cold_started (cold_start ∷ hooks clear_env ∷ t) ≡ true
    → answers (app_spawn_child env c l t) ≡ answers t
unfolding app_spawn_child answers
app_spawn_child_cold env c l t i h z e = ground arith
