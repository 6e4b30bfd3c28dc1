-- ===== src/AppSpawn/Tests.antt =====
-- The theorems on appspawn at concrete contents and tables.
use openharmony_mac_build.Common.{
  ◌≡◌, refl, pos, Bool, true, false, none, some, [], ◌∷◌, if◌then◌else◌,
}
use openharmony_mac_build.AppSpawn.Modules as Modules
use openharmony_mac_build.AppSpawn.Modules.Laws.{module_mgr_un_install-load_auto_run_modules}
use openharmony_mac_build.AppSpawn.Child.{
  Env, Content, Client, Trace, hooks, spawning, zero_result, error, app_spawn_child,
}
use openharmony_mac_build.AppSpawn.Child.Laws.{answers, verdict, app_spawn_child-answers}

abbrev content : Content
content = record {
  can_notify = true;
  can_cold_start = true;
  can_run_child = true;
  is_nweb = false;
  sandbox_ns_flags = 0;
}

abbrev client : Client
client = record { is_cold_start = false; process_type = none }

abbrev is_spawning : Trace → Bool
is_spawning (hooks spawning ∷ t) = true
is_spawning t = false

-- The hooks of the spawning stage fail.
abbrev refusing_env : Env
refusing_env = record {
  hook_result = λ t. if is_spawning t then error 5 else zero_result;
  cold_started = λ t. true;
  run_result = λ t. zero_result;
  forked = λ t. pos 9;
}

app_spawn_child-answers_example :
    answers (app_spawn_child refusing_env content client []) ≡ verdict refusing_env [] ∷ answers []
app_spawn_child-answers_example = app_spawn_child-answers refusing_env content client [] refl refl

abbrev fine_env : Modules.Env
fine_env = record {
  created = λ t. some 1;
  scanned = λ t. some 2;
  installed = λ t. true;
  hooks_created = λ t. some 3;
}

abbrev empty_table : Modules.Table
empty_table = record {
  managers = none ∷ none ∷ none ∷ none ∷ none ∷ [];
  hook_mgr = none;
  trace = [];
}

module_mgr_un_install-load_auto_run_modules_example :
    ((Modules.load_auto_run_modules fine_env (pos 3) empty_table).0 ≡ true)
    × (Modules.module_mgr_un_install
          (pos 3)
          (Modules.load_auto_run_modules fine_env (pos 3) empty_table).1
        ≡ record empty_table { trace = Modules.destroy 2 ∷ Modules.scan 3 ∷ [] })
module_mgr_un_install-load_auto_run_modules_example =
    module_mgr_un_install-load_auto_run_modules fine_env 3 2 empty_table refl refl refl refl
