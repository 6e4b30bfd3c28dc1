-- ===== src/Spawner/Cold/Laws.antt =====
-- What a cold child is given, and what it tells its parent.
use openharmony_mac_build.Common.{
  ℕ, suc, ◌+◌, ◌%◌, ◌^◌, ◌≤◌, ◌<◌, pos, ◌≡◌, ◌∙◌, refl, ap, true, false, Option, none, some, [],
  ◌∷◌, arith, is_some, Option-cases, inl, inr,
}
use openharmony_mac_build.Spawner.State.{
  Env, Server, Ctx, Message, Code, system_error, msg_invalid, Trace, call, write_result, create_ctx,
  map_memory, unmap_memory, unlink_memory, read_msg, run_hooks, child_spawning, child_pre_reply,
  child_post_reply, Received, broken, read, notify_res_to_parent,
}
use openharmony_mac_build.Spawner.Cold.{
  mem_size, ColdArgs, give_up, arg_message, arg_context, get_app_spawning_ctx_from_arg,
  run_processor, run_cold, app_spawn_cold_run,
}

-- The memory for a message is whole pages, and the message fits, if the size is below 2^32 - 4096.
pub mem_size-fits :
    (len : ℕ)
    → len + 4096 < 2 ^ 32
    → (len < mem_size len) × (mem_size len ≤ len + 4096) × (mem_size len % 4096 ≡ 0)
unfolding mem_size
mem_size-fits len b = ground arith

-- How often the parent has been told a result.
abbrev pub told : Trace → ℕ
told [] = 0
told (write_result fd c ∷ t) = suc (told t)
told (c ∷ t) = told t

told-notify_res_to_parent :
    (x : Ctx) (c : Code) (s : Server) (n : ℕ)
    → x.fd_write ≡ pos n
    → told (notify_res_to_parent x c s).1.trace ≡ suc (told s.trace)
unfolding notify_res_to_parent
told-notify_res_to_parent x c s n e = simp e refl

told-give_up :
    (o : Option Message) (x : Ctx) (c : Code) (s : Server) (n : ℕ)
    → x.fd_write ≡ pos n
    → told (give_up o x c s).trace ≡ suc (told s.trace)
unfolding give_up
told-give_up none x c s n e = told-notify_res_to_parent x c s n e
told-give_up (some m) x c s n e = told-notify_res_to_parent x c s n e

told-run_processor :
    (env : Env) (s : Server) (o : Option Code) → told (run_processor env s o).trace ≡ told s.trace
unfolding run_processor
told-run_processor env s none = refl
told-run_processor env s (some c) = ground arith

told-run_cold :
    (env : Env) (s : Server) (x : Ctx) (n : ℕ)
    → x.fd_write ≡ pos n
    → told (run_cold env s (some x)).trace ≡ suc (told s.trace)
unfolding run_cold
told-run_cold env s x n e =
    let t = call (run_hooks child_spawning) s in
    let u = call (run_hooks child_pre_reply) t in
    let r = notify_res_to_parent x (env.hook_result u.trace) u in
    let v = call (run_hooks child_post_reply) r.1 in
    ground (
      arith,
      told-run_processor env v (env.processor v.trace),
      told-notify_res_to_parent x (env.hook_result u.trace) u n e,
      told-notify_res_to_parent x (env.hook_result t.trace) t n e,
    )

-- The run of a cold child on what its arguments came to.
abbrev run_result : Env → Option Ctx × Server → Server
run_result env r = run_cold env r.1 r.0

told-arg_message :
    (env : Env) (x : Ctx) (s : Server) (o : Received) (n : ℕ)
    → x.fd_write ≡ pos n
    → told (run_result env (arg_message env x s o)).trace ≡ suc (told s.trace)
unfolding arg_message run_cold
told-arg_message env x s (broken e o) n f = told-give_up o x msg_invalid s n f
told-arg_message env x s (read m k left) n f = ground (
  arith,
  told-give_up (some m) x msg_invalid s n f,
  told-run_cold env s (record x { message = some m }) n f,
)

told-arg_context :
    (env : Env) (a : ColdArgs) (s : Server) (x : Ctx) (n : ℕ)
    → a.fd ≡ pos n
    → told (run_result env (arg_context env a s (some x))).trace ≡ suc (told s.trace)
unfolding arg_context run_cold
told-arg_context env a s x n f =
    let y = record x { fd_write = a.fd; client_id = a.client; cold_start = false } in
    let t = call (map_memory a.shm_size true) s in
    let u = call (read_msg 0 (env.mapped_len t.trace)) t in
    let v = call (unlink_memory a.client) (call (unmap_memory a.shm_size) u) in
    ground (
      arith,
      told-give_up none y system_error t n f,
      told-arg_message env y v (env.from_buffer u.trace 0 (env.mapped_len t.trace) none 0) n f,
    )

-- If a context can be made, a cold child tells its parent a result just once, whether its message is
-- there, its hooks fail, or its program does, if its descriptor is not negative.
pub told-app_spawn_cold_run :
    (env : Env) (a : ColdArgs) (s : Server) (n : ℕ)
    → a.fd ≡ pos n
    → ((t : Trace) → is_some (env.created_ctx t) ≡ true)
    → told (app_spawn_cold_run env a s).trace ≡ suc (told s.trace)
unfolding app_spawn_cold_run get_app_spawning_ctx_from_arg
told-app_spawn_cold_run env a s n f made =
    let t = call create_ctx s in
    elim (Option-cases (env.created_ctx t.trace)) [
      | inl e ↦ absurd (ground (arith, made t.trace, e))
      | inr (x, e) ↦
          ap (λ (o : Option Ctx). told (run_result env (arg_context env a t o)).trace) e
          ∙ told-arg_context env a t x n f
    ]
