-- ===== src/ModuleMgr/Duplicate.antt =====
-- Modules that are named by a path, as ScanModules names them.
use openharmony_mac_build.Common.{
  ℕ, ◌≡◌, refl, ap, String, true, false, none, List, [], ◌∷◌, ◌++◌, All-append, arith, All,
  Bool-cases, inl, inr,
}
use openharmony_mac_build.ModuleMgr.Names.{
  Text, compare_name, is_absolute, has_slash, last_part, skip_lib,
}
use openharmony_mac_build.ModuleMgr.Suffix.{same_text→eq}
use openharmony_mac_build.ModuleMgr.Install.{installed}
use openharmony_mac_build.ModuleMgr.Store.{
  Env, Manager, Module, find_module, module_mgr_install, answers_to,
}

has_slash-last_part : (cs : Text) → has_slash (last_part cs) ≡ false
unfolding last_part
has_slash-last_part [] = refl
has_slash-last_part (c ∷ cs) = ground (arith, has_slash-last_part cs)

has_slash-skip_lib : (cs : Text) → has_slash cs ≡ false → has_slash (skip_lib cs) ≡ false
unfolding skip_lib
has_slash-skip_lib [] h = h
has_slash-skip_lib (a ∷ []) h = h
has_slash-skip_lib (a ∷ b ∷ []) h = h
has_slash-skip_lib (a ∷ b ∷ c ∷ cs) h = ground arith

has_slash-compare_name :
    (name : Text) → is_absolute name ≡ true → has_slash (compare_name name) ≡ false
unfolding compare_name
has_slash-compare_name name a =
    ground (arith, has_slash-skip_lib (last_part name) (has_slash-last_part name))

is_absolute-has_slash : (name : Text) → is_absolute name ≡ true → has_slash name ≡ true
is_absolute-has_slash [] a = cc
is_absolute-has_slash (c ∷ cs) a = ground arith

find_absolute :
    (name : Text) (ms : List Module)
    → is_absolute name ≡ true
    → All (λ m. is_absolute m.name ≡ true) ms
    → find_module name ms ≡ none
unfolding find_module
find_absolute name [] a h = refl
find_absolute name (m ∷ ms) a h = elim (Bool-cases (answers_to name m)) [
  | inr n ↦ rw n (find_absolute name ms a h.1)
  | inl y ↦ absurd (
      ground (
        arith,
        ap (λ (t : Text). has_slash t) (same_text→eq (compare_name m.name) name y),
        has_slash-compare_name m.name h.0,
        is_absolute-has_slash name a,
      ))
]

-- If all modules are named by paths, a second successful installation of the same path adds a
-- second module of that name.
pub module_mgr_install_twice :
    (env : Env) (name : Text) (args args' : List String) (m : Manager)
    → is_absolute name ≡ true
    → All (λ i. is_absolute i.name ≡ true) m.modules
    → (module_mgr_install env name args m).0 ≡ true
    → (module_mgr_install env name args' (module_mgr_install env name args m).1).0 ≡ true
    → (h : ℕ) × (h' : ℕ) × ((module_mgr_install env name args'
          (module_mgr_install env name args m).1).1.modules
        ≡ (m.modules ++ record { name = name; handle = h } ∷ [])
          ++ record { name = name; handle = h' } ∷ [])
module_mgr_install_twice env name args args' m a all done again =
    let n = (module_mgr_install env name args m).1 in
    let i = installed env name args m (find_absolute name m.modules a all) done in
    let kept : All (λ k. is_absolute k.name ≡ true) n.modules = rw i.modules (
      All-append (λ k. is_absolute k.name ≡ true) m.modules
        (record { name = name; handle = i.handle } ∷ []) all (a, tt)) in
    let j = installed env name args' n (find_absolute name n.modules a kept) again in
    (i.handle, j.handle, rw (j.modules, i.modules))
