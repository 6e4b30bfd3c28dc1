-- ===== src/ModuleMgr/Store.antt =====
-- The modules of a manager: ModuleMgrInstall, ModuleInstall, ModuleDestroy, ModuleMgrUninstall,
-- ModuleMgrDestroy, ModuleMgrGetCnt, ModuleMgrTraversal and ModuleMgrGetArgs. The signal handler that
-- the file adds for debugging is left out.
use openharmony_mac_build.Common.{
  ℕ, String, Bool, true, false, Option, none, some, List, [], ◌∷◌, ◌++◌, if◌then◌else◌, ltb, length,
  map,
}
use openharmony_mac_build.ModuleMgr.Names.{Text, Paths, same_text, compare_name, module_path}

-- MODULE_ITEM
pub record Module : Type 0 where
  pub name : Text
  pub handle : ℕ

pub data Call : Type 0 where
  dlopen : Text → Option (List String) → Call  -- with what ModuleMgrGetArgs answers meanwhile
  dlclose : ℕ → Call

-- The newest call first.
abbrev pub Trace : Type 0
Trace = List Call

-- MODULE_MGR, with the file's `currentInstallArgs` and the calls made.
pub record Manager : Type 0 where
  pub name : Text
  pub modules : List Module
  pub install_args : List String
  pub current_args : Option (List String)
  pub trace : Trace

pub record Env : Type 0 where
  pub paths : Paths
  pub real_path : Text → Option Text  -- GetRealPath
  pub opened : Trace → Option ℕ  -- the handle of the dlopen just made
  pub has_memory : Trace → Bool

abbrev pub answers_to : Text → Module → Bool
answers_to name m = same_text (compare_name m.name) name

-- OH_ListFind with ModuleCompare.
unfoldable pub find_module : Text → List Module → Option Module
find_module name [] = none
find_module name (m ∷ ms) = if answers_to name m then some m else find_module name ms

-- OH_ListRemove of the module that was found.
unfoldable pub remove_module : Text → List Module → List Module
remove_module name [] = []
remove_module name (m ∷ ms) = if answers_to name m then ms else m ∷ remove_module name ms

open_module : Env → Manager → Option Text → Option ℕ × Manager
open_module env m none = (none, m)
open_module env m (some path) =
    let t = dlopen path (some m.install_args) ∷ m.trace in
    (env.opened t, record m { current_args = none; trace = t })

-- ModuleInstall: the handle, if there is one.
module_install : Env → Text → List String → Manager → Option ℕ × Manager
unfolding open_module
module_install env name args m =
    let told = record m { install_args = args } in
    let path = module_path env.paths m.name name in
    if ltb (length path) env.paths.path_max
    then open_module env told (env.real_path path)
    else (none, told)

add_module : Text → Option ℕ × Manager → Bool × Manager
add_module name (none, m) = (false, m)
add_module name (some h, m) =
    (true, record m { modules = m.modules ++ record { name = name; handle = h } ∷ [] })

install_new : Env → Text → List String → Manager → Bool × Manager
unfolding module_install add_module
install_new env name args m =
    if env.has_memory m.trace then add_module name (module_install env name args m) else (false, m)

install_unless : Env → Text → List String → Manager → Option Module → Bool × Manager
unfolding install_new
install_unless env name args m (some old) = (true, m)
install_unless env name args m none = install_new env name args m

-- ModuleMgrInstall; `true` is its result 0. A module that is there already counts as installed.
unfoldable pub module_mgr_install : Env → Text → List String → Manager → Bool × Manager
unfolding install_unless install_new module_install add_module open_module
module_mgr_install env name args m = install_unless env name args m (find_module name m.modules)

-- ModuleMgrGetArgs
unfoldable pub module_mgr_get_args : Manager → Option (List String)
module_mgr_get_args m = m.current_args

unfoldable pub close_all : List Module → Trace → Trace
close_all [] t = t
close_all (m ∷ ms) t = close_all ms (dlclose m.handle ∷ t)

uninstall_found : Text → Manager → Option Module → Manager
uninstall_found name m none = m
uninstall_found name m (some old) = record m {
  modules = remove_module name m.modules;
  trace = dlclose old.handle ∷ m.trace;
}

-- ModuleMgrUninstall; with no name it removes all modules.
unfoldable pub module_mgr_uninstall : Option Text → Manager → Manager
unfolding close_all uninstall_found
module_mgr_uninstall none m = record m { modules = []; trace = close_all m.modules m.trace }
module_mgr_uninstall (some name) m = uninstall_found name m (find_module name m.modules)

-- ModuleMgrDestroy: the calls that are left behind.
unfoldable pub module_mgr_destroy : Manager → Trace
module_mgr_destroy m = (module_mgr_uninstall none m).trace

unfoldable pub module_mgr_get_cnt : Manager → ℕ
module_mgr_get_cnt m = length m.modules

-- What ModuleMgrTraversal hands to its callback, in order.
unfoldable pub module_mgr_traversal : Manager → List (Text × ℕ)
module_mgr_traversal m = map (λ i. (i.name, i.handle)) m.modules
