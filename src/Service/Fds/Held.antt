-- ===== src/Service/Fds/Held.antt =====
-- Which descriptors a service holds, and what becomes of them.
use openharmony_mac_build.Common.{
  ℕ, zero, suc, ◌≤◌, ◌<◌, ◌≡◌, ◌≢◌, refl, ap, inl, inr, ◌⊎◌, ℤ, Bool, true, false, Option, none,
  some, List, [], ◌∷◌, if◌then◌else◌, ◌==◌, length, Option-cases, Bool-cases, arith,
}
use openharmony_mac_build.Service.Types.{Env, Proc, Service, Trace, close_fd}
use openharmony_mac_build.Service.Fds.{
  is_minus_one, cleared, closed, close_service_fds, overwrite, zeros, fill, replace_fds, update_to,
  update_service_fds,
}

abbrev pub take : ℕ → List ℤ → List ℤ
take zero xs = []
take (suc n) [] = []
take (suc n) (x ∷ xs) = x ∷ take n xs

abbrev held_cells : ℕ → Option (List ℤ) → List ℤ
held_cells n none = []
held_cells n (some xs) = take n xs

-- The descriptors that init holds for the service.
abbrev pub held : Service → List ℤ
held s = held_cells s.fd_count s.fds

abbrev Fits : ℕ → Option (List ℤ) → Type 0
Fits n none = n ≡ 0
Fits n (some xs) = (n ≡ 0) ⊎ (length xs ≡ suc n)

-- A service that holds descriptors has a block for them, with one cell to spare.
abbrev pub IsSound : Service → Type 0
IsSound s = Fits s.fd_count s.fds

-- The calls that close every open descriptor of a list, in its order.
abbrev pub close_all : List ℤ → Trace → Trace
close_all [] t = t
close_all (x ∷ xs) t = close_all xs (if is_minus_one x then t else close_fd x ∷ t)

closed-close_all : (n : ℕ) (xs : List ℤ) (t : Trace) → closed n xs t ≡ close_all (take n xs) t
unfolding closed
closed-close_all zero xs t = refl
closed-close_all (suc n) [] t = refl
closed-close_all (suc n) (x ∷ xs) t =
    closed-close_all n xs (if is_minus_one x then t else close_fd x ∷ t)

length-cleared : (n : ℕ) (xs : List ℤ) → length (cleared n xs) ≡ length xs
unfolding cleared
length-cleared zero xs = refl
length-cleared (suc n) [] = refl
length-cleared (suc n) (x ∷ xs) = ap suc (length-cleared n xs)

length-overwrite : (ys xs : List ℤ) → length (overwrite ys xs) ≡ length xs
unfolding overwrite
length-overwrite [] xs = refl
length-overwrite (y ∷ ys) [] = refl
length-overwrite (y ∷ ys) (x ∷ xs) = ap suc (length-overwrite ys xs)

length-zeros : (n : ℕ) → length (zeros n) ≡ n
unfolding zeros
length-zeros zero = refl
length-zeros (suc n) = ap suc (length-zeros n)

take-overwrite : (ys xs : List ℤ) → length ys ≤ length xs → take (length ys) (overwrite ys xs) ≡ ys
unfolding overwrite
take-overwrite [] xs h = refl
take-overwrite (y ∷ ys) [] h = elim h [ ]
take-overwrite (y ∷ ys) (x ∷ xs) h = ap (λ zs. y ∷ zs) (take-overwrite ys xs (omega arith))

-- From a sound block, CloseServiceFds closes each open descriptor that is held, once and in order,
-- and leaves a sound block and nothing held.
pub close_service_fds_lem :
    (free_it : Bool) (p : Proc)
    → IsSound p.svc
    → let q = close_service_fds free_it p in
      (held q.svc ≡ []) × (q.trace ≡ close_all (held p.svc) p.trace) × IsSound q.svc
unfolding close_service_fds
close_service_fds_lem free_it p s = elim (Option-cases p.svc.fds) [
  | inl e ↦ ground (arith, e)
  | inr (xs, e) ↦ ground (arith, closed-close_all p.svc.fd_count xs p.trace)
]

-- UpdaterServiceFds keeps the block sound on every path, failures included.
pub update_service_fds-IsSound :
    (env : Env) (ys : List ℤ) (p : Proc)
    → IsSound p.svc
    → IsSound (update_service_fds env (some ys) (length ys) p).1.svc
unfolding update_service_fds zeros
update_service_fds-IsSound env ys p s = elim (Option-cases p.svc.fds) [
  | inl e ↦
      ground (arith, length-overwrite ys (zeros (suc (length ys))), length-zeros (suc (length ys)))
  | inr (xs, e) ↦ ground (
    arith,
    length-overwrite ys (zeros (suc (length ys))),
    length-zeros (suc (length ys)),
    length-overwrite ys (cleared p.svc.fd_count xs),
    length-cleared p.svc.fd_count xs,
  )
]

fill-held :
    (env : Env) (ys block : List ℤ) (q : Proc)
    → q.svc.fds ≡ some block
    → length ys ≤ length block
    → (fill env ys (length ys) q).0 ≡ true
    → (held (fill env ys (length ys) q).1.svc ≡ ys)
      × ((fill env ys (length ys) q).1.trace ≡ q.trace)
unfolding fill
fill-held env ys block q e l h = ground (arith, take-overwrite ys block)

replace_fds-held :
    (env : Env) (ys : List ℤ) (q : Proc)
    → (replace_fds env ys (length ys) q).0 ≡ true
    → (held (replace_fds env ys (length ys) q).1.svc ≡ ys)
      × ((replace_fds env ys (length ys) q).1.trace ≡ q.trace)
unfolding replace_fds zeros
replace_fds-held env ys q h =
    ground (arith, take-overwrite ys (zeros (suc (length ys))), length-zeros (suc (length ys)))

block_of_sound :
    (p : Proc)
    → IsSound p.svc
    → 0 < p.svc.fd_count
    → (xs : List ℤ) × ((close_service_fds false p).svc.fds ≡ some xs)
      × (length xs ≡ suc p.svc.fd_count)
unfolding close_service_fds
block_of_sound p s n = elim (Option-cases p.svc.fds) [
  | inl e ↦ absurd (ground (arith, e))
  | inr (xs, e) ↦
      (cleared p.svc.fd_count xs, ground arith, ground (arith, length-cleared p.svc.fd_count xs))
]

held_none : (p : Proc) → p.svc.fd_count ≡ 0 → held p.svc ≡ []
held_none p e = ground arith

update_to-held :
    (env : Env) (ys : List ℤ) (p : Proc)
    → IsSound p.svc
    → 0 < length ys
    → (update_to env ys (length ys) p).0 ≡ true
    → (held (update_to env ys (length ys) p).1.svc ≡ ys)
      × ((update_to env ys (length ys) p).1.trace ≡ close_all (held p.svc) p.trace)
unfolding update_to
update_to-held env ys p s n h = elim (Bool-cases (p.svc.fd_count == length ys)) [
  | inl e ↦ in_place e
  | inr e ↦ ground (
    arith,
    close_service_fds_lem true p s,
    held_none p,
    replace_fds-held env ys p,
    replace_fds-held env ys (close_service_fds true p),
  )
]
  where
    in_place :
        (p.svc.fd_count == length ys) ≡ true
        → (held (update_to env ys (length ys) p).1.svc ≡ ys)
          × ((update_to env ys (length ys) p).1.trace ≡ close_all (held p.svc) p.trace)
    in_place e =
        let c : 0 < p.svc.fd_count = ground arith in
        let found = block_of_sound p s c in
        ground (
          arith,
          close_service_fds_lem false p s,
          found.2,
          fill-held env ys found.0 (close_service_fds false p) found.1,
        )

-- When UpdaterServiceFds succeeds on at least one descriptor, from a sound block, the service
-- holds exactly the new ones, in their order, and each open one that it held before has been
-- closed once.
pub update_service_fds_lem :
    (env : Env) (ys : List ℤ) (p : Proc)
    → IsSound p.svc
    → 0 < length ys
    → (update_service_fds env (some ys) (length ys) p).0 ≡ true
    → let q = (update_service_fds env (some ys) (length ys) p).1 in
      (held q.svc ≡ ys) × (q.trace ≡ close_all (held p.svc) p.trace)
unfolding update_service_fds
update_service_fds_lem env ys p s n h = update_to-held env ys p s n h

-- A request for too many descriptors, of another number than are held, is refused, but only after
-- those held, in a sound block, are closed: none is held any more.
pub update_service_fds_too_many :
    (env : Env) (ys : List ℤ) (p : Proc)
    → IsSound p.svc
    → env.max_hold_fds < length ys
    → p.svc.fd_count ≢ length ys
    → let r = update_service_fds env (some ys) (length ys) p in
      (r.0 ≡ false) × (held r.1.svc ≡ []) × (r.1.trace ≡ close_all (held p.svc) p.trace)
unfolding update_service_fds close_service_fds
update_service_fds_too_many env ys p s m d = elim (Option-cases p.svc.fds) [
  | inl e ↦ ground arith
  | inr (xs, e) ↦ ground (arith, closed-close_all p.svc.fd_count xs p.trace)
]
