-- ===== src/AppSpawn/Modules.antt =====
-- The table of module managers of appspawn_modulemgr.c, one for each type of module, and its hook
-- manager. The trial loads that the file makes for debugging leave nothing behind and are left out.
pub mod Laws
use openharmony_mac_build.Common.{
  ℕ, zero, suc, ℤ, pos, negsuc, Bool, true, false, Option, none, some, List, [], ◌∷◌, if◌then◌else◌,
  ltb,
}

-- The types of modules in the order of the table; MODULE_MAX is their number.
abbrev pub module_max : ℕ
module_max = 5

pub data Call : Type 0 where
  create : ℕ → Call  -- ModuleMgrCreate for a type
  scan : ℕ → Call  -- ModuleMgrScan for a type
  install : ℕ → Call  -- ModuleMgrInstall into the manager with this handle
  destroy : ℕ → Call  -- ModuleMgrDestroy of the manager with this handle
  create_hooks : Call
  destroy_hooks : Option ℕ → Call

-- The newest call first.
abbrev pub Trace : Type 0
Trace = List Call

pub record Env : Type 0 where
  pub created : Trace → Option ℕ
  pub scanned : Trace → Option ℕ
  pub installed : Trace → Bool
  pub hooks_created : Trace → Option ℕ

-- g_moduleMgr and g_appspawnHookMgr. A manager is named by its handle.
pub record Table : Type 0 where
  pub managers : List (Option ℕ)
  pub hook_mgr : Option ℕ
  pub trace : Trace

-- Entry `i`; an index past the table does not occur, since the callers check it.
abbrev pub entry : ℕ → List (Option ℕ) → Option ℕ
entry i [] = none
entry zero (e ∷ es) = e
entry (suc i) (e ∷ es) = entry i es

abbrev pub set_entry : ℕ → Option ℕ → List (Option ℕ) → List (Option ℕ)
set_entry i v [] = []
set_entry zero v (e ∷ es) = v ∷ es
set_entry (suc i) v (e ∷ es) = e ∷ set_entry i v es

abbrev call : Call → Table → Table
call c t = record t { trace = c ∷ t.trace }

abbrev put : ℕ → Option ℕ → Table → Table
put i v t = record t { managers = set_entry i v t.managers }

install_into : Env → Option ℕ → Table → Bool × Table
install_into env none t = (false, t)
install_into env (some h) t = let u = call (install h) t in (env.installed u.trace, u)

ensure_default : Env → Option ℕ → Table → Table
ensure_default env (some h) t = t
ensure_default env none t = let u = call (create 0) t in put 0 (env.created u.trace) u

-- AppSpawnModuleMgrInstall of a name that is not NULL; MODULE_DEFAULT is the first entry.
unfoldable pub module_mgr_install : Env → Table → Bool × Table
unfolding install_into ensure_default
module_mgr_install env t =
    let u = ensure_default env (entry 0 t.managers) t in install_into env (entry 0 u.managers) u

un_install_at : ℕ → Option ℕ → Table → Table
un_install_at i none t = t
un_install_at i (some h) t = put i none (call (destroy h) t)

-- AppSpawnModuleMgrUnInstall
unfoldable pub module_mgr_un_install : ℤ → Table → Table
unfolding un_install_at
module_mgr_un_install (negsuc n) t = t
module_mgr_un_install (pos i) t =
    if ltb i module_max then un_install_at i (entry i t.managers) t else t

is_loaded : Option ℕ → Bool
is_loaded none = false
is_loaded (some h) = true

load_at : Env → ℕ → Option ℕ → Table → Bool × Table
unfolding is_loaded
load_at env i (some h) t = (true, t)
load_at env i none t =
    let u = call (scan i) t in (is_loaded (env.scanned u.trace), put i (env.scanned u.trace) u)

-- AppSpawnLoadAutoRunModules; `true` is its result 0.
unfoldable pub load_auto_run_modules : Env → ℤ → Table → Bool × Table
unfolding load_at
load_auto_run_modules env (negsuc n) t = (false, t)
load_auto_run_modules env (pos i) t =
    if ltb i module_max then load_at env i (entry i t.managers) t else (false, t)

get_hooks : Env → Option ℕ → Table → Option ℕ × Table
get_hooks env (some h) t = (some h, t)
get_hooks env none t =
    let u = call create_hooks t in
    (env.hooks_created u.trace, record u { hook_mgr = env.hooks_created u.trace })

-- GetAppSpawnHookMgr
unfoldable pub get_hook_mgr : Env → Table → Option ℕ × Table
unfolding get_hooks
get_hook_mgr env t = get_hooks env t.hook_mgr t

-- DeleteAppSpawnHookMgr
unfoldable pub delete_hook_mgr : Table → Table
delete_hook_mgr t = record (call (destroy_hooks t.hook_mgr) t) { hook_mgr = none }
