-- ===== src/Service/Fds/Publish.antt =====
-- When PublishHoldFds writes outside its buffer.
use openharmony_mac_build.Common.{
  ℕ, zero, suc, ◌+◌, ◌<◌, ◌≡◌, ◌≢◌, refl, ℤ, Bool, true, false, some, List, [], ◌∷◌, arith,
}
use openharmony_mac_build.Service.Types.{Env, Proc, Trace, dup, call}
use openharmony_mac_build.Service.Fds.{
  Published, out_of_bounds, is_negative, finish, publish_loop, publish_block, publish_hold_fds,
}

-- The calls that duplicate the first cells of a block, made in order.
abbrev pub dup_all : ℕ → List ℤ → Proc → Proc
dup_all zero xs p = p
dup_all (suc n) [] p = p
dup_all (suc n) (x ∷ xs) p = dup_all n xs (call (dup x) p)

publish_loop_none :
    (env : Env) (n : ℕ) (xs : List ℤ) (p : Proc)
    → ((t : Trace) (x : ℤ) → is_negative (env.dup_result t x) ≡ true)
    → publish_loop env n xs 0 [] p ≡ out_of_bounds (dup_all n xs p)
unfolding publish_loop finish
publish_loop_none env zero xs p all = refl
publish_loop_none env (suc n) [] p all = refl
publish_loop_none env (suc n) (x ∷ xs) p all =
    ground (arith, all (dup x ∷ p.trace) x, publish_loop_none env n xs (call (dup x) p) all)

-- If a service holds descriptors, its variable name fits and none of them can be duplicated, as at
-- the limit of open files, PublishHoldFds writes before its buffer.
pub publish_hold_fds_overrun :
    (env : Env) (p : Proc) (xs : List ℤ)
    → p.svc.fds ≡ some xs
    → p.svc.fd_count ≢ 0
    → env.env_name_fits p.svc.name ≡ true
    → ((t : Trace) (x : ℤ) → is_negative (env.dup_result t x) ≡ true)
    → publish_hold_fds env p ≡ out_of_bounds (dup_all p.svc.fd_count xs p)
unfolding publish_hold_fds
publish_hold_fds_overrun env p xs e n fits all =
    ground (arith, publish_loop_none env p.svc.fd_count xs p all)

-- Whether the write stays inside.
abbrev pub is_inside : Published → Bool
is_inside (out_of_bounds p) = false
is_inside _ = true

publish_loop_inside :
    (env : Env) (n at : ℕ) (xs out : List ℤ) (p : Proc)
    → 0 < at
    → is_inside (publish_loop env n xs at out p) ≡ true
unfolding publish_loop finish
publish_loop_inside env zero zero xs out p h = elim h [ ]
publish_loop_inside env zero (suc at) xs out p h = refl
publish_loop_inside env (suc n) zero [] out p h = elim h [ ]
publish_loop_inside env (suc n) (suc at) [] out p h = refl
publish_loop_inside env (suc n) at (x ∷ xs) out p h =
    let q = call (dup x) p in
    let fd = env.dup_result q.trace x in
    ground (
      arith,
      publish_loop_inside env n at xs out q h,
      publish_loop_inside env n (at + env.printed_len fd) xs (fd ∷ out) q,
    )

publish_first_inside :
    (env : Env) (n : ℕ) (x : ℤ) (xs : List ℤ) (p : Proc)
    → 0 < n
    → is_negative (env.dup_result (dup x ∷ p.trace) x) ≡ false
    → ((y : ℤ) → 0 < env.printed_len y)
    → is_inside (publish_loop env n (x ∷ xs) 0 [] p) ≡ true
unfolding publish_loop
publish_first_inside env zero x xs p h first printed = elim h [ ]
publish_first_inside env (suc n) x xs p h first printed =
    let q = call (dup x) p in
    let fd = env.dup_result q.trace x in
    ground (arith, printed fd, publish_loop_inside env n (0 + env.printed_len fd) xs (fd ∷ []) q)

publish_block_inside :
    (env : Env) (p : Proc) (x : ℤ) (xs : List ℤ)
    → is_negative (env.dup_result (dup x ∷ p.trace) x) ≡ false
    → ((y : ℤ) → 0 < env.printed_len y)
    → is_inside (publish_block env (some (x ∷ xs)) p) ≡ true
unfolding publish_block
publish_block_inside env p x xs first printed = ground (
  arith,
  λ (h : 0 < p.svc.fd_count). publish_first_inside env p.svc.fd_count x xs p h first printed,
)

-- If the first cell can be duplicated and every descriptor takes characters to print,
-- PublishHoldFds writes nothing before its buffer, whatever becomes of the other cells.
pub publish_hold_fds_inside :
    (env : Env) (p : Proc) (x : ℤ) (xs : List ℤ)
    → p.svc.fds ≡ some (x ∷ xs)
    → is_negative (env.dup_result (dup x ∷ p.trace) x) ≡ false
    → ((y : ℤ) → 0 < env.printed_len y)
    → is_inside (publish_hold_fds env p) ≡ true
unfolding publish_hold_fds
publish_hold_fds_inside env p x xs e first printed =
    simp e (publish_block_inside env p x xs first printed)
