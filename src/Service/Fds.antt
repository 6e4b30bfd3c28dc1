-- ===== src/Service/Fds.antt =====
-- The file descriptors that init holds for a service: CloseServiceFds, UpdaterServiceFds and
-- PublishHoldFds of init_common_service.c. A block has one cell more than it holds descriptors.
pub mod Held
pub mod Publish
use openharmony_mac_build.Common.{
  ℕ, zero, suc, ◌+◌, ℤ, pos, negsuc, minus_one, Bool, true, false, not, ◌&&◌, Option, none, some,
  List, [], ◌∷◌, if◌then◌else◌, ltb, leb, ◌==◌,
}
use openharmony_mac_build.Service.Types.{
  Env, Proc, Service, Trace, Call, close_fd, dup, set_fd_env, call,
}

abbrev pub is_minus_one : ℤ → Bool
is_minus_one (negsuc zero) = true
is_minus_one n = false

-- The loop of CloseServiceFds over the first cells of the block: what it leaves, what it calls.
unfoldable pub cleared : ℕ → List ℤ → List ℤ
cleared zero xs = xs
cleared (suc n) [] = []
cleared (suc n) (x ∷ xs) = minus_one ∷ cleared n xs

unfoldable pub closed : ℕ → List ℤ → Trace → Trace
closed zero xs t = t
closed (suc n) [] t = t
closed (suc n) (x ∷ xs) t = closed n xs (if is_minus_one x then t else close_fd x ∷ t)

close_block : Bool → Option (List ℤ) → Proc → Proc
unfolding cleared closed
close_block free_it none p = record p { svc = record p.svc { fd_count = 0 } }
close_block free_it (some xs) p = record {
  svc = record p.svc {
    fd_count = 0;
    fds = if free_it then none else some (cleared p.svc.fd_count xs);
  };
  trace = closed p.svc.fd_count xs p.trace;
}

unfoldable pub close_service_fds : Bool → Proc → Proc
unfolding close_block
close_service_fds free_it p = close_block free_it p.svc.fds p

-- memcpy_s of the new descriptors over the first cells.
overwrite : List ℤ → List ℤ → List ℤ
overwrite [] block = block
overwrite (y ∷ ys) [] = []
overwrite (y ∷ ys) (x ∷ xs) = y ∷ overwrite ys xs

copy_into : Option (List ℤ) → List ℤ → Option (List ℤ)
unfolding overwrite
copy_into none ys = none
copy_into (some xs) ys = some (overwrite ys xs)

zeros : ℕ → List ℤ
zeros zero = []
zeros (suc n) = pos 0 ∷ zeros n

-- Both arms end so: the copy into the block that is there, or the block thrown away.
fill : Env → List ℤ → ℕ → Proc → Bool × Proc
unfolding copy_into
fill env ys n p =
    if env.memcpy_ok
    then (true, record p { svc = record p.svc { fds = copy_into p.svc.fds ys; fd_count = n } })
    else (false, record p { svc = record p.svc { fds = none; fd_count = 0 } })

-- Case 1: another number of descriptors, so a fresh block.
replace_fds : Env → List ℤ → ℕ → Proc → Bool × Proc
unfolding fill zeros
replace_fds env ys n p =
    if leb n env.max_hold_fds
    then if env.alloc_ok
      then fill env ys n (record p { svc = record p.svc { fds = some (zeros (suc n)) } })
      else (false, record p { svc = record p.svc { fds = none } })
    else (false, p)

update_to : Env → List ℤ → ℕ → Proc → Bool × Proc
update_to env ys n p =
    if n == 0
    then (true, p)
    else if p.svc.fd_count == n
    then fill env ys n (close_service_fds false p)
    else replace_fds env ys n (if ltb 0 p.svc.fd_count then close_service_fds true p else p)

-- UpdaterServiceFds; `true` is its result 0, `false` is -1.
unfoldable pub update_service_fds : Env → Option (List ℤ) → ℕ → Proc → Bool × Proc
unfolding update_to close_service_fds fill replace_fds
update_service_fds env none n p = (false, p)
update_service_fds env (some ys) n p = update_to env ys n p

-- How PublishHoldFds ends. `out_of_bounds` is the write to `fdBuffer[pos - 1]` at `pos == 0`.
pub data Published : Type 0 where
  nothing_held : Published
  bad_format : Proc → Published
  out_of_bounds : Proc → Published
  set_variable : Bool → Proc → Published

abbrev is_negative : ℤ → Bool
is_negative (pos n) = false
is_negative (negsuc n) = true

-- The end of the function, at a text that lists `out` (the latest first) and takes `at` characters.
finish : Env → ℕ → List ℤ → Proc → Published
finish env zero out p = out_of_bounds p
finish env (suc at) out p =
    let q = call (set_fd_env out) p in set_variable (env.setenv_ok q.trace) q

-- The loop over the held cells.
publish_loop : Env → ℕ → List ℤ → ℕ → List ℤ → Proc → Published
unfolding finish
publish_loop env zero xs at out p = finish env at out p
publish_loop env (suc n) [] at out p = finish env at out p
publish_loop env (suc n) (x ∷ xs) at out p =
    let q = call (dup x) p in
    let fd = env.dup_result q.trace x in
    let skipped = publish_loop env n xs at out q in
    let printed = publish_loop env n xs (at + env.printed_len fd) (fd ∷ out) q in
    if is_negative fd
    then skipped
    else (if ltb (at + env.printed_len fd) env.max_fd_buffer then printed else bad_format q)

publish_block : Env → Option (List ℤ) → Proc → Published
publish_block env none p = nothing_held
publish_block env (some xs) p =
    if p.svc.fd_count == 0
    then nothing_held
    else (if env.env_name_fits p.svc.name
        then publish_loop env p.svc.fd_count xs 0 [] p
        else bad_format p)

unfoldable pub publish_hold_fds : Env → Proc → Published
unfolding publish_block publish_loop
publish_hold_fds env p = publish_block env p.svc.fds p
