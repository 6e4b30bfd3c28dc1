-- ===== src/ModuleMgr/Install.antt =====
-- Installing and uninstalling the modules of a manager.
use openharmony_mac_build.Common.{
  ℕ, ◌+◌, ◌≡◌, refl, ap, String, true, none, some, List, [], ◌∷◌, ◌++◌, if◌then◌else◌,
  length-append, arith, Bool-cases, Option-cases, inl, inr,
}
use openharmony_mac_build.ModuleMgr.Names.{Text, compare_name, module_path}
use openharmony_mac_build.ModuleMgr.Suffix.{same_text_refl}
use openharmony_mac_build.ModuleMgr.Store.{
  Env, Manager, Module, dlopen, dlclose, find_module, remove_module, module_mgr_install,
  module_mgr_uninstall, module_mgr_get_cnt, module_mgr_get_args,
}

-- A name that ModuleCompare leaves as it is: neither a path nor with the prefix "lib".
abbrev pub IsPlain : Text → Type 0
IsPlain name = compare_name name ≡ name

find-append :
    (name : Text) (ms : List Module) (h : ℕ)
    → find_module name ms ≡ none
    → IsPlain name
    → (find_module name (ms ++ record { name = name; handle = h } ∷ [])
        ≡ some (record { name = name; handle = h }))
      × (remove_module name (ms ++ record { name = name; handle = h } ∷ []) ≡ ms)
unfolding find_module remove_module
find-append name [] h e p = rw (p, same_text_refl name) (refl, refl)
find-append name (m ∷ ms) h e p = ground (arith, find-append name ms h, p)

-- What a successful installation of a new module leaves: one more module at the end, opened by one call
-- of dlopen, of the file found for the name, that could see the arguments, which nobody sees after.
pub record IsInstalled (env : Env) (name : Text) (args : List String) (m n : Manager) : Type 0 where
  pub handle : ℕ
  pub path : Text
  pub resolves : env.real_path (module_path env.paths m.name name) ≡ some path
  pub opens : env.opened (dlopen path (some args) ∷ m.trace) ≡ some handle
  pub modules : n.modules ≡ m.modules ++ record { name = name; handle = handle } ∷ []
  pub trace : n.trace ≡ dlopen path (some args) ∷ m.trace
  pub hidden : n.current_args ≡ none

pub installed :
    (env : Env) (name : Text) (args : List String) (m : Manager)
    → find_module name m.modules ≡ none
    → (module_mgr_install env name args m).0 ≡ true
    → IsInstalled env name args m (module_mgr_install env name args m).1
unfolding module_mgr_install
installed env name args m new done =
    elim (Option-cases (env.real_path (module_path env.paths m.name name))) [
      | inl e ↦ absurd (ground (arith, e, new))
      | inr (path, e) ↦ elim (Option-cases (env.opened (dlopen path (some args) ∷ m.trace))) [
        | inl o ↦ absurd (ground (arith, e, o, new))
        | inr (h, o) ↦ record {
          handle = h;
          path = path;
          resolves = e;
          opens = o;
          modules = ground (arith, e, o, new);
          trace = ground (arith, e, o, new);
          hidden = ground (arith, e, o, new);
        }
      ]
    ]

install_old :
    (env : Env) (name : Text) (args : List String) (m : Manager) (old : Module)
    → find_module name m.modules ≡ some old
    → module_mgr_install env name args m ≡ (true, m)
unfolding module_mgr_install
install_old env name args m old e = ground (arith, e)

-- After a successful installation under a plain name, a second one with any arguments changes
-- nothing, makes no call and reports success.
pub module_mgr_install_again :
    (env : Env) (name : Text) (args args' : List String) (m : Manager)
    → IsPlain name
    → (module_mgr_install env name args m).0 ≡ true
    → let n = (module_mgr_install env name args m).1 in
      module_mgr_install env name args' n ≡ (true, n)
module_mgr_install_again env name args args' m p done =
    elim (Option-cases (find_module name m.modules)) [
      | inr (old, e) ↦
          let same = install_old env name args m old e in
          rw same (install_old env name args' m old e)
      | inl e ↦
          let i = installed env name args m e done in
          install_old env name args' (module_mgr_install env name args m).1
            (record { name = name; handle = i.handle })
            (rw i.modules (find-append name m.modules i.handle e p).0)
    ]

-- A plain name that was not there and is installed with success: the file found for the name was opened
-- under the arguments given, and the removal closes the handle that dlopen gave for it and leaves the
-- modules as they were, with no other call.
pub module_mgr_uninstall-module_mgr_install :
    (env : Env) (name : Text) (args : List String) (m : Manager)
    → IsPlain name
    → find_module name m.modules ≡ none
    → (module_mgr_install env name args m).0 ≡ true
    → (h : ℕ) × (path : Text) × (env.real_path (module_path env.paths m.name name) ≡ some path)
      × (env.opened (dlopen path (some args) ∷ m.trace) ≡ some h)
      × ((module_mgr_uninstall (some name) (module_mgr_install env name args m).1).modules
          ≡ m.modules)
      × ((module_mgr_uninstall (some name) (module_mgr_install env name args m).1).trace
          ≡ dlclose h ∷ dlopen path (some args) ∷ m.trace)
unfolding module_mgr_uninstall
module_mgr_uninstall-module_mgr_install env name args m p e done =
    let i = installed env name args m e done in
    let f = find-append name m.modules i.handle e p in
    let n = (module_mgr_install env name args m).1 in
    let found : find_module name n.modules ≡ some (record { name = name; handle = i.handle }) =
      rw i.modules f.0 in
    (
      i.handle,
      i.path,
      i.resolves,
      i.opens,
      ground (arith, found, ap (remove_module name) i.modules, f.1),
      ground (arith, found, i.trace),
    )

-- The number of modules grows by one exactly when a new one is opened.
pub module_mgr_get_cnt-module_mgr_install :
    (env : Env) (name : Text) (args : List String) (m : Manager)
    → find_module name m.modules ≡ none
    → module_mgr_get_cnt (module_mgr_install env name args m).1
      ≡ module_mgr_get_cnt m + (if (module_mgr_install env name args m).0 then 1 else 0)
unfolding module_mgr_install module_mgr_get_cnt
module_mgr_get_cnt-module_mgr_install env name args m e =
    elim (Bool-cases (module_mgr_install env name args m).0) [
      | inl done ↦
          let i = installed env name args m e done in
          rw (done, i.modules)
            (length-append m.modules (record { name = name; handle = i.handle } ∷ []))
      | inr refused ↦ ground (arith, e)
    ]

-- However it ends, an installation hides the arguments again.
pub module_mgr_install-hides :
    (env : Env) (name : Text) (args : List String) (m : Manager)
    → module_mgr_get_args m ≡ none
    → module_mgr_get_args (module_mgr_install env name args m).1 ≡ none
unfolding module_mgr_install module_mgr_get_args
module_mgr_install-hides env name args m h = ground arith
