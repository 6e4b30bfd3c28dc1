-- ===== src/ModuleMgr/Scan.antt =====
-- ModuleMgrCreate, ScanModules and ModuleMgrScan: all plugins of the directories of a manager.
use openharmony_mac_build.Common.{
  ℕ, zero, suc, Bool, Option, none, some, List, [], ◌∷◌, ◌++◌, if◌then◌else◌, ltb, length,
}
use openharmony_mac_build.ModuleMgr.Names.{
  Text, codes, take, is_absolute, string_ends_with, module_suffix, slash,
}
use openharmony_mac_build.ModuleMgr.Store.{Manager, Env, module_mgr_install}

-- An entry of a directory; `is_file` holds of regular files and links.
pub record Entry : Type 0 where
  pub name : Text
  pub is_file : Bool

install_entry : Env → Text → Text → Manager → Manager
install_entry env dir stem m =
    let full = dir ++ slash ∷ stem in
    if ltb (suc (length full)) env.paths.path_max then (module_mgr_install env full [] m).1 else m
  where
    open env use {paths}

scan_entry : Env → Text → Text → Option ℕ → Manager → Manager
unfolding install_entry
scan_entry env dir name none m = m
scan_entry env dir name (some zero) m = m
scan_entry env dir name (some (suc e)) m = install_entry env dir (take (suc e) name) m

-- The loop of ScanModules over a directory that could be opened.
unfoldable pub scan_entries : Env → Text → List Entry → Manager → Manager
unfolding scan_entry
scan_entries env dir [] m = m
scan_entries env dir (x ∷ xs) m =
    scan_entries env dir xs
      (if x.is_file then scan_entry env dir x.name (string_ends_with x.name module_suffix) m else m)

scan_dir : Env → Text → Option (List Entry) → Manager → Manager
scan_dir env dir none m = m
scan_dir env dir (some xs) m = scan_entries env dir xs m

-- ScanModules; `list_dir` says what a directory holds.
unfoldable pub scan_modules : Env → (Text → Option (List Entry)) → Text → Manager → Manager
unfolding scan_dir
scan_modules env list_dir dir m = scan_dir env dir (list_dir dir) m

scan_paths : Env → (Text → Option (List Entry)) → List (Option Text) → Manager → Manager
unfolding scan_modules
scan_paths env list_dir [] m = m
scan_paths env list_dir (none ∷ ps) m = scan_paths env list_dir ps m
scan_paths env list_dir (some p ∷ ps) m = scan_paths env list_dir ps (scan_modules env list_dir p m)

-- ModuleMgrCreate
unfoldable pub module_mgr_create : Text → Manager
module_mgr_create name = record {
  name = name;
  modules = [];
  install_args = [];
  current_args = none;
  trace = [];
}

scan_relative :
    Env → (Text → Option (List Entry)) → (Text → List (Option Text)) → Text → Option Manager
unfolding scan_paths
scan_relative env list_dir cfg_files path =
    if env.paths.updater_mode
    then fits (codes "/" ++ (env.paths.lib_name ++ slash ∷ path))
        (λ p. scan_modules env list_dir p (module_mgr_create path))
    else fits (env.paths.lib_name ++ slash ∷ path)
        (λ p. scan_paths env list_dir (cfg_files p) (module_mgr_create path))
  where
    fits : Text → (Text → Manager) → Option Manager
    fits p k = if ltb (length p) env.paths.path_max then some (k p) else none

-- ModuleMgrScan; `cfg_files` lists the configured directories from the last to the first.
unfoldable pub module_mgr_scan :
    Env → (Text → Option (List Entry)) → (Text → List (Option Text)) → Text → Option Manager
unfolding scan_relative scan_paths
module_mgr_scan env list_dir cfg_files path =
    if is_absolute path
    then some (scan_modules env list_dir path (module_mgr_create path))
    else scan_relative env list_dir cfg_files path
