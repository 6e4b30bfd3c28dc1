-- ===== src/ModuleMgr/Tests.antt =====
-- The theorems on module managers at concrete names.
use openharmony_mac_build.Common.{ℕ, ◌≡◌, refl, true, false, none, some, [], ◌∷◌, length}
use openharmony_mac_build.ModuleMgr.Names.{Text, codes, compare_name, module_path}
use openharmony_mac_build.ModuleMgr.Store.{
  Env, Manager, dlopen, dlclose, find_module, module_mgr_install, module_mgr_uninstall,
}
use openharmony_mac_build.ModuleMgr.Install.{module_mgr_uninstall-module_mgr_install}

abbrev fine_env : Env
fine_env = record {
  paths = record { ut_path = []; lib_name = codes "lib"; updater_mode = false; path_max = 4096 };
  real_path = λ p. some p;
  opened = λ t. some (length t);
  has_memory = λ t. true;
}

abbrev manager : Manager
manager = record {
  name = codes "init";
  modules = [];
  install_args = [];
  current_args = none;
  trace = [];
}

abbrev plain : Text
plain = codes "bootchart"

abbrev path : Text
path = codes "/system/lib/init/libbootchart"

module_mgr_uninstall-module_mgr_install_example :
    (h : ℕ) × (p : Text) × (some (module_path fine_env.paths (codes "init") plain) ≡ some p)
    × (some 1 ≡ some h)
    × ((module_mgr_uninstall (some plain) (module_mgr_install fine_env plain [] manager).1).modules
        ≡ [])
    × ((module_mgr_uninstall (some plain) (module_mgr_install fine_env plain [] manager).1).trace
        ≡ dlclose h ∷ dlopen p (some []) ∷ [])
unfolding module_mgr_install find_module compare_name module_path
module_mgr_uninstall-module_mgr_install_example =
    module_mgr_uninstall-module_mgr_install fine_env plain [] manager refl refl refl
