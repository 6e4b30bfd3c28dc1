-- ===== src/Spawner/Remount/Laws.antt =====
-- What a new web core is mounted on.
use openharmony_mac_build.Common.{
  ℕ, ◌≡◌, ◌∙◌, refl, not, ◌||◌, Option, none, some, List, [], ◌∷◌, if◌then◌else◌, arith,
}
use openharmony_mac_build.Spawner.State.{Env, Server}
use openharmony_mac_build.Spawner.News.{news}
use openharmony_mac_build.Spawner.Remount.{
  get_ark_web_install_path, remount_one, remount_bundles, remount_user, web_core_of, remount_users,
  remount_all, remount_from, process_spawn_remount_msg, user_path, is_dots, check_all_digit,
  sandbox_root,
}

module _ (env : Env) (n : ℕ) where
  news-remount_one :
      (src dest : List ℕ) (s : Server) → news n (remount_one env src dest s).trace ≡ news n s.trace
  unfolding remount_one
  news-remount_one src dest s = ground arith

  news-remount_bundles :
      (src dir : List ℕ) (bs : List (List ℕ)) (s : Server)
      → news n (remount_bundles env src dir bs s).trace ≡ news n s.trace
  unfolding remount_bundles
  news-remount_bundles src dir [] s = refl
  news-remount_bundles src dir (b ∷ bs) s =
      let t =
        if is_dots b || not (env.path_fits (web_core_of dir b))
        then s
        else remount_one env src (web_core_of dir b) s in
      news-remount_bundles src dir bs t ∙ ground (arith, news-remount_one src (web_core_of dir b) s)

  news-remount_user :
      (src dir : List ℕ) (s : Server) (o : Option (List (List ℕ)))
      → news n (remount_user env src dir s o).trace ≡ news n s.trace
  unfolding remount_user
  news-remount_user src dir s none = refl
  news-remount_user src dir s (some bs) = news-remount_bundles src dir bs s

  news-remount_users :
      (src : List ℕ) (ns : List (List ℕ)) (s : Server)
      → news n (remount_users env src ns s).trace ≡ news n s.trace
  unfolding remount_users
  news-remount_users src [] s = refl
  news-remount_users src (u ∷ ns) s =
      let o = env.dir s.trace (user_path u) in
      let t = remount_user env src (user_path u) s o in
      news-remount_users src ns
        (if is_dots u || not (check_all_digit u) || not (env.path_fits (user_path u)) then s else t)
      ∙ ground (arith, news-remount_user src (user_path u) s o)

  news-remount_all :
      (src : List ℕ) (s : Server) (o : Option (List (List ℕ)))
      → news n (remount_all env src s o).1.trace ≡ news n s.trace
  unfolding remount_all
  news-remount_all src s none = refl
  news-remount_all src s (some ns) = news-remount_users src ns s

  news-remount_from :
      (s : Server) (o : Option (List ℕ)) → news n (remount_from env s o).1.trace ≡ news n s.trace
  unfolding remount_from
  news-remount_from s none = refl
  news-remount_from s (some src) =
      ground (arith, news-remount_all src s (env.dir s.trace sandbox_root))

  pub news-process_spawn_remount_msg :
      (s : Server) → news n (process_spawn_remount_msg env s).1.trace ≡ news n s.trace
  unfolding process_spawn_remount_msg
  news-process_spawn_remount_msg s =
      news-remount_from s (get_ark_web_install_path (env.install_path s.trace))
