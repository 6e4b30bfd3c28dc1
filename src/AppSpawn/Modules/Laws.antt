-- ===== src/AppSpawn/Modules/Laws.antt =====
-- Loading and unloading the module manager of a type.
use openharmony_mac_build.Common.{
  ℕ, zero, suc, pos, ◌≡◌, refl, ap, true, Option, none, some, List, [], ◌∷◌, ltb, arith, length,
}
use openharmony_mac_build.AppSpawn.Modules.{
  Env, Table, entry, set_entry, module_max, scan, destroy, load_auto_run_modules,
  module_mgr_un_install,
}

entry-set_entry :
    (i : ℕ) (v : Option ℕ) (es : List (Option ℕ))
    → ltb i (length es) ≡ true
    → entry i (set_entry i v es) ≡ v
entry-set_entry i v [] h = ground arith
entry-set_entry zero v (e ∷ es) h = refl
entry-set_entry (suc i) v (e ∷ es) h = entry-set_entry i v es (ground arith)

set_entry-set_entry :
    (i : ℕ) (v w : Option ℕ) (es : List (Option ℕ))
    → entry i es ≡ w
    → set_entry i w (set_entry i v es) ≡ es
set_entry-set_entry i v w [] h = refl
set_entry-set_entry zero v w (e ∷ es) h = ground arith
set_entry-set_entry (suc i) v w (e ∷ es) h = ap (λ l. e ∷ l) (set_entry-set_entry i v w es h)

-- Loading the modules of a type in range that has no manager succeeds when the scan gives one, and
-- unloading them then destroys that manager and gives the table back as it was.
pub module_mgr_un_install-load_auto_run_modules :
    (env : Env) (i n : ℕ) (t : Table)
    → length t.managers ≡ module_max
    → ltb i module_max ≡ true
    → entry i t.managers ≡ none
    → env.scanned (scan i ∷ t.trace) ≡ some n
    → ((load_auto_run_modules env (pos i) t).0 ≡ true)
      × (module_mgr_un_install (pos i) (load_auto_run_modules env (pos i) t).1
          ≡ record t { trace = destroy n ∷ scan i ∷ t.trace })
unfolding load_auto_run_modules module_mgr_un_install
module_mgr_un_install-load_auto_run_modules env i n t l b e s = ground (
  arith,
  entry-set_entry i (some n) t.managers (ground arith),
  set_entry-set_entry i (some n) none t.managers e,
)
