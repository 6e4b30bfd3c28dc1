-- ===== src/Spawner/Remount.antt =====
-- A new web core for all sandboxes: GetArkWebInstallPath, CheckAllDigit and ProcessSpawnRemountMsg.
-- Strings are lists of characters.
pub mod Laws
pub mod Path
pub mod Sandboxes
use Prim.Native.Char.{code}
use openharmony_mac_build.Common.{
  ℕ, String, Bool, true, false, not, ◌&&◌, ◌||◌, Option, none, some, List, [], ◌∷◌, ◌++◌, length,
  if◌then◌else◌, ◌==◌, leb, ltb, is_empty,
}
use openharmony_mac_build.Spawner.State.{
  Env, Server, Code, done, failed, Trace, call, bind_mount, share_mount, detach_mount, request,
}

-- The value from its last character back: what is left is before the last slash.
cut_path : List ℕ → Option (List ℕ)
cut_path [] = none
cut_path (c ∷ cs) = if c == b'/' then some cs else cut_path cs

-- The reverse of a list.
unfoldable pub turned : List ℕ → List ℕ
turned [] = []
turned (c ∷ cs) = turned cs ++ (c ∷ [])

unturned : Option (List ℕ) → Option (List ℕ)
unturned none = none
unturned (some cs) = some (turned cs)

-- GetArkWebInstallPath: the value that is left, whose length is the result, or the result -1.
unfoldable pub get_ark_web_install_path : List ℕ → Option (List ℕ)
unfolding unturned cut_path
get_ark_web_install_path value = unturned (cut_path (turned value))

-- CheckAllDigit
unfoldable pub check_all_digit : List ℕ → Bool
check_all_digit [] = true
check_all_digit (c ∷ cs) = (leb b'0' c && leb c b'9') && check_all_digit cs

-- The characters of a text.
abbrev pub codes : String → List ℕ
codes String.[] = []
codes (String.◌∷◌ c s) = code c ∷ codes s

-- ".", and "..".
unfoldable pub is_dots : List ℕ → Bool
is_dots [] = false
is_dots (a ∷ []) = a == b'.'
is_dots (a ∷ b ∷ []) = (a == b'.') && (b == b'.')
is_dots cs = false

-- EBUSY
abbrev pub ebusy : ℕ
ebusy = 16

-- One sandbox: the old mount is detached, and the new one is tried again if it is busy.
unfoldable pub remount_one : Env → List ℕ → List ℕ → Server → Server
remount_one env src dest s =
    let t = call (bind_mount src dest) (call (detach_mount dest) s) in
    let u = if env.mount_errno t.trace == ebusy then call (bind_mount src dest) t else t in
    if env.mount_errno u.trace == 0 then call (share_mount dest) u else u

abbrev pub web_core_of : List ℕ → List ℕ → List ℕ
web_core_of user_dir bundle =
    user_dir ++ codes "/" ++ bundle ++ codes "/data/storage/el1/bundle/arkwebcore"

unfoldable pub remount_bundles : Env → List ℕ → List ℕ → List (List ℕ) → Server → Server
unfolding remount_one
remount_bundles env src user_dir [] s = call (request "closedir") s
remount_bundles env src user_dir (b ∷ bs) s = remount_bundles env src user_dir bs (
    if is_dots b || not (env.path_fits (web_core_of user_dir b))
    then s
    else remount_one env src (web_core_of user_dir b) s)

remount_user : Env → List ℕ → List ℕ → Server → Option (List (List ℕ)) → Server
unfolding remount_bundles
remount_user env src user_dir s none = s
remount_user env src user_dir s (some bs) = remount_bundles env src user_dir bs s

-- "/mnt/sandbox"
abbrev pub sandbox_root : List ℕ
sandbox_root = codes "/mnt/sandbox"

abbrev pub user_path : List ℕ → List ℕ
user_path user = sandbox_root ++ codes "/" ++ user

unfoldable pub remount_users : Env → List ℕ → List (List ℕ) → Server → Server
unfolding remount_user
remount_users env src [] s = call (request "closedir") s
remount_users env src (n ∷ ns) s =
    let t = remount_user env src (user_path n) s (env.dir s.trace (user_path n)) in
    remount_users env src ns
      (if is_dots n || not (check_all_digit n) || not (env.path_fits (user_path n)) then s else t)

remount_all : Env → List ℕ → Server → Option (List (List ℕ)) → Code × Server
unfolding remount_users
remount_all env src s none = (failed, s)
remount_all env src s (some ns) = (done, remount_users env src ns s)

remount_from : Env → Server → Option (List ℕ) → Code × Server
unfolding remount_all
remount_from env s none = (failed, s)
remount_from env s (some src) =
    if is_empty src then (failed, s) else remount_all env src s (env.dir s.trace sandbox_root)

-- ProcessSpawnRemountMsg
unfoldable pub process_spawn_remount_msg : Env → Server → Code × Server
unfolding remount_from
process_spawn_remount_msg env s =
    remount_from env s (get_ark_web_install_path (env.install_path s.trace))
