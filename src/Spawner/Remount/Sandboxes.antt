-- ===== src/Spawner/Remount/Sandboxes.antt =====
-- Where a new web core is mounted.
use openharmony_mac_build.Common.{
  ℕ, ◌≡◌, ◌≢◌, ◌∙◌, refl, sym, ap, All, leb, ◌&&◌, ◌++◌, Bool, true, false, not, ◌||◌, Option, none,
  some, List, [], ◌∷◌, if◌then◌else◌, arith, Bool-cases, inl, inr, is_empty, ◌==◌,
}
use openharmony_mac_build.Spawner.State.{
  Env, Server, Trace, call, bind_mount, share_mount, detach_mount,
}
use openharmony_mac_build.Spawner.Remount.{
  remount_one, remount_bundles, remount_user, web_core_of, remount_users, remount_all, remount_from,
  process_spawn_remount_msg, user_path, is_dots, check_all_digit, sandbox_root,
  get_ark_web_install_path, ebusy, codes,
}

-- What a directory lists: names with a character or more, none of which is a slash.
abbrev pub is_name : List ℕ → Bool
is_name [] = false
is_name (c ∷ []) = not (c == b'/')
is_name (c ∷ d ∷ cs) = not (c == b'/') && is_name (d ∷ cs)

abbrev pub AreNames : List (List ℕ) → Type 0
AreNames ns = All (λ n. is_name n ≡ true) ns

-- readdir gives names.
pub record ReadsNames (env : Env) : Type 0 where
  pub names :
      (t : Trace) (path : List ℕ) (ns : List (List ℕ)) → env.dir t path ≡ some ns → AreNames ns

-- The web core of a bundle in the sandbox of a user: the user's name is of digits only, the bundle's is
-- one step down, and not the directory itself or the one above.
pub record IsSandbox (dest : List ℕ) : Type 0 where
  pub user : List ℕ
  pub bundle : List ℕ
  pub user_name : is_name user ≡ true
  pub digits : All (λ c. (leb b'0' c && leb c b'9') ≡ true) user
  pub bundle_name : is_name bundle ≡ true
  pub not_here : bundle ≢ codes "."
  pub not_above : bundle ≢ codes ".."
  pub at :
      dest
      ≡ codes "/mnt/sandbox/"
        ++ user
        ++ codes "/"
        ++ bundle
        ++ codes "/data/storage/el1/bundle/arkwebcore"

check_all_digit-All :
    (user : List ℕ)
    → check_all_digit user ≡ true
    → All (λ c. (leb b'0' c && leb c b'9') ≡ true) user
unfolding check_all_digit
check_all_digit-All [] h = tt
check_all_digit-All (c ∷ cs) h = (ground arith, check_all_digit-All cs (ground arith))

not_dots : (b c : List ℕ) → is_dots b ≡ false → is_dots c ≡ true → b ≢ c
not_dots b c f g e = cc (sym g ∙ sym (ap is_dots e) ∙ f)

-- The sandbox that is met for a user and a bundle.
sandbox :
    (user b : List ℕ)
    → is_name user ≡ true
    → check_all_digit user ≡ true
    → is_name b ≡ true
    → is_dots b ≡ false
    → IsSandbox (web_core_of (user_path user) b)
unfolding is_dots
sandbox user b n g i d = record {
  user = user;
  bundle = b;
  user_name = n;
  digits = check_all_digit-All user g;
  bundle_name = i;
  not_here = not_dots b (codes ".") d refl;
  not_above = not_dots b (codes "..") d refl;
  at = refl;
}

-- All that is mounted or unmounted is such a web core.
abbrev pub InSandboxes : Trace → Type 0
InSandboxes [] = Unit
InSandboxes (bind_mount src d ∷ t) = IsSandbox d × InSandboxes t
InSandboxes (share_mount d ∷ t) = IsSandbox d × InSandboxes t
InSandboxes (detach_mount d ∷ t) = IsSandbox d × InSandboxes t
InSandboxes (c ∷ t) = InSandboxes t

if-InSandboxes :
    (b : Bool) (s t : Server)
    → (b ≡ true → InSandboxes s.trace)
    → (b ≡ false → InSandboxes t.trace)
    → InSandboxes (if b then s else t).trace
if-InSandboxes true s t f g = f refl
if-InSandboxes false s t f g = g refl

module _ (env : Env) where
  remount_one-InSandboxes :
      (src d : List ℕ) (s : Server)
      → IsSandbox d
      → InSandboxes s.trace
      → InSandboxes (remount_one env src d s).trace
  unfolding remount_one
  remount_one-InSandboxes src d s i h =
      let t = call (bind_mount src d) (call (detach_mount d) s) in
      let v = call (bind_mount src d) t in
      let u = if env.mount_errno t.trace == ebusy then v else t in
      let k : InSandboxes u.trace =
        if-InSandboxes (env.mount_errno t.trace == ebusy) v t (λ _. (i, (i, (i, h))))
          (λ _. (i, (i, h))) in
      if-InSandboxes (env.mount_errno u.trace == 0) (call (share_mount d) u) u (λ _. (i, k))
        (λ _. k)

  remount_bundles-InSandboxes :
      (src user : List ℕ) (bs : List (List ℕ)) (s : Server)
      → is_name user ≡ true
      → check_all_digit user ≡ true
      → AreNames bs
      → InSandboxes s.trace
      → InSandboxes (remount_bundles env src (user_path user) bs s).trace
  unfolding remount_bundles
  remount_bundles-InSandboxes src user [] s n g a h = h
  remount_bundles-InSandboxes src user (b ∷ bs) s n g a h =
      let d = web_core_of (user_path user) b in
      let x = is_dots b || not (env.path_fits d) in
      remount_bundles-InSandboxes src user bs (if x then s else remount_one env src d s) n g a.1 (
        if-InSandboxes x s (remount_one env src d s) (λ _. h)
          (λ e. remount_one-InSandboxes src d s (sandbox user b n g a.0 (ground arith)) h))

  remount_user-InSandboxes :
      (src user : List ℕ) (s : Server) (o : Option (List (List ℕ)))
      → is_name user ≡ true
      → check_all_digit user ≡ true
      → ((ns : List (List ℕ)) → o ≡ some ns → AreNames ns)
      → InSandboxes s.trace
      → InSandboxes (remount_user env src (user_path user) s o).trace
  unfolding remount_user
  remount_user-InSandboxes src user s none n g k h = h
  remount_user-InSandboxes src user s (some bs) n g k h =
      remount_bundles-InSandboxes src user bs s n g (k bs refl) h

  remount_users-InSandboxes :
      (src : List ℕ) (ns : List (List ℕ)) (s : Server)
      → ReadsNames env
      → AreNames ns
      → InSandboxes s.trace
      → InSandboxes (remount_users env src ns s).trace
  unfolding remount_users
  remount_users-InSandboxes src [] s k a h = h
  remount_users-InSandboxes src (u ∷ ns) s k a h =
      let o = env.dir s.trace (user_path u) in
      let t = remount_user env src (user_path u) s o in
      let x = is_dots u || not (check_all_digit u) || not (env.path_fits (user_path u)) in
      remount_users-InSandboxes src ns (if x then s else t) k a.1 (
        if-InSandboxes x s t (λ _. h)
          (λ e.
            remount_user-InSandboxes src u s o a.0 (ground arith) (k.names s.trace (user_path u))
              h))

  remount_all-InSandboxes :
      (src : List ℕ) (s : Server) (o : Option (List (List ℕ)))
      → ReadsNames env
      → ((ns : List (List ℕ)) → o ≡ some ns → AreNames ns)
      → InSandboxes s.trace
      → InSandboxes (remount_all env src s o).1.trace
  unfolding remount_all
  remount_all-InSandboxes src s none k a h = h
  remount_all-InSandboxes src s (some ns) k a h = remount_users-InSandboxes src ns s k (a ns refl) h

  remount_from-InSandboxes :
      (s : Server) (o : Option (List ℕ))
      → ReadsNames env
      → InSandboxes s.trace
      → InSandboxes (remount_from env s o).1.trace
  unfolding remount_from
  remount_from-InSandboxes s none k h = h
  remount_from-InSandboxes s (some src) k h = elim (Bool-cases (is_empty src)) [
    | inl e ↦ simp e h
    | inr e ↦ simp e (
        remount_all-InSandboxes src s (env.dir s.trace sandbox_root) k
          (k.names s.trace sandbox_root) h)
  ]

  -- If readdir gives names, and so far a web core was mounted, and an old one unmounted, only at
  -- "/mnt/sandbox/<user>/<bundle>/data/storage/el1/bundle/arkwebcore" with a user of digits only and a
  -- bundle that is one name other than "." and "..", then this holds after ProcessSpawnRemountMsg too.
  pub process_spawn_remount_msg-InSandboxes :
      (s : Server)
      → ReadsNames env
      → InSandboxes s.trace
      → InSandboxes (process_spawn_remount_msg env s).1.trace
  unfolding process_spawn_remount_msg
  process_spawn_remount_msg-InSandboxes s k h =
      remount_from-InSandboxes s (get_ark_web_install_path (env.install_path s.trace)) k h
