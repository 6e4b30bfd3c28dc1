-- ===== src/Sandbox/Tests.antt =====
-- The theorems on the rules of sandboxes at concrete rules.
use openharmony_mac_build.Common.{
  ℕ, ◌+◌, ◌≤◌, ◌≡◌, refl, String, str_eq, true, false, Option, none, some, is_some, List, [], ◌∷◌,
  ◌++◌, length, if◌then◌else◌, arith, All,
}
use openharmony_mac_build.Sandbox.State.{Section, Sandbox, done, Env}
use openharmony_mac_build.Sandbox.Gids.{parse_gid_table_config}
use openharmony_mac_build.Sandbox.Gids.Laws.{Fits, parse_gid_table_config-Fits}
use openharmony_mac_build.Sandbox.Groups.{
  names_of, group_found, is_in, group_of, parse_mount_groups_config,
}
use openharmony_mac_build.Sandbox.Groups.Laws.{
  groups_named, parse_mount_groups_config-groups_named, parse_mount_groups_config_overruns,
}
use openharmony_mac_build.Sandbox.Nodes.{decode_mount_path_config, path_at}
use openharmony_mac_build.Sandbox.Base.{and_then, for_item, base_of, parse_base_config}
use openharmony_mac_build.Sandbox.Config.{
  section_for, dep_of, put_group, group_with_dep, group_named, parse_name_group, next_group,
  parse_name_groups, groups_counted, groups_of, parse_name_groups_config, dependents, depends,
}
use openharmony_mac_build.Sandbox.Config.Laws.{AddsOne}
use openharmony_mac_build.Sandbox.Load.{
  then_load, as_invalid, parse_global_sandbox_config, required_in, conditional_in,
  parse_app_sandbox_config, load_app_sandbox_config,
}
use openharmony_mac_build.Sandbox.Load.Laws.{load_app_sandbox_config-fits}

abbrev section : Section
section = record {
  name = "group";
  nodes = [];
  sandbox_switch = true;
  sandbox_shared = false;
  gids = [];
  gid_room = 0;
  name_groups = [];
  flag_index = 0;
  dep_node = none;
  dep_mode = 0;
  dest_type = 1;
}

-- The items of the rules: one group with a path that it depends on.
abbrev item_of : String → Option ℕ
item_of key =
    if str_eq key "name-groups"
    then some 1
    else (if str_eq key "name"
        then some 3
        else (if str_eq key "mount-paths-deps"
            then some 4
            else (if str_eq key "src-path"
                then some 5
                else (if str_eq key "sandbox-path" then some 5 else none))))

abbrev env : Env ℕ
env = record {
  item = λ key j. item_of key;
  items = λ j. some (some 2 ∷ []);
  text = λ j. some "group";
  number = λ j. some j;
  is_object = λ j. true;
  bool_of = λ j k d. d;
  int_of = λ j k d. d;
  parts = λ t. t ∷ [];
  path_mode = λ t. 1;
  decode_gid = λ t. 7;
  category_of = λ t. 0;
  or_bits = λ a b. a + b;
  parameter = λ k. "true";
  find_path = λ ns t a b. none;
  find_link = λ ns a b. none;
  drop_node = λ n ns. ns;
  add_node = λ n ns. ns ++ (n ∷ []);
  malloc_ok = true;
  app_max_gids = 64;
  flag_info = λ key table. none;
  flags_backup = 1;
  flags_dlp_manager = 2;
  flags_developer_mode = 3;
  mount_mode_not_exist = 0;
  mount_mode_always = 1;
  tag_system_const = 1;
  tag_app_variable = 2;
  tag_invalid = 3;
  find_section = λ q o. none;
  add_section = λ x q. x ∷ q;
  delete_section = λ x q. q;
  new_section = λ name. some section;
  key_of = λ j. "required";
  members = λ j. [];
}

parse_gid_table_config-Fits_example : Fits env (parse_gid_table_config env 1 section).1
parse_gid_table_config-Fits_example =
    parse_gid_table_config-Fits env 1 section
      (record { room = omega arith; below = omega arith; positive = tt })

-- The group of every name is there.
abbrev found_env : Env ℕ
found_env = record env { find_section = λ q o. some section }

parse_mount_groups_config-groups_named_example :
    parse_mount_groups_config found_env [] 1 section
    ≡ some (
      done,
      record section { name_groups = groups_named found_env [] section (some "group" ∷ []) [] },
    )
parse_mount_groups_config-groups_named_example =
    parse_mount_groups_config-groups_named found_env [] 1 section (some 2 ∷ []) refl refl refl refl

-- A section that has another group already.
abbrev grouped : Section
grouped = record section { name_groups = "other" ∷ [] }

every_name_found :
    All (λ o. is_some (group_of found_env [] grouped o) ≡ true) (names_of found_env (some 2 ∷ []))
unfolding group_of group_found is_in
every_name_found = (refl, tt)

parse_mount_groups_config_overruns_example : parse_mount_groups_config found_env [] 1 grouped ≡ none
parse_mount_groups_config_overruns_example =
    parse_mount_groups_config_overruns found_env [] 1 grouped (some 2 ∷ []) "other" [] refl refl
      refl refl every_name_found

abbrev rules : Sandbox
rules = record {
  ns_flags = 0;
  root_path = none;
  top_switch = true;
  dep_node_count = 0;
  dep_group_nodes = none;
  pid_namespace = false;
  full_mount = false;
  required_queue = [];
  permission_queue = [];
  spawn_flags_queue = [];
  package_name_queue = [];
  name_groups_queue = [];
}

length-dependents :
    (x : Section) (q : List Section)
    → length (dependents env (x ∷ q)) ≤ depends env x + length (dependents env q)
unfolding dependents
length-dependents x q = ground arith

env-AddsOne : AddsOne env
env-AddsOne = record { adds = length-dependents }

no_dependents : length (dependents env []) ≡ 0
unfolding dependents
no_dependents = refl

parsed : is_some (parse_app_sandbox_config env rules 0) ≡ true
unfolding parse_app_sandbox_config then_load as_invalid parse_global_sandbox_config
    parse_name_groups_config groups_of groups_counted parse_name_groups next_group parse_name_group
    group_named group_with_dep dep_of decode_mount_path_config path_at put_group parse_base_config
    base_of for_item and_then section_for required_in conditional_in
parsed = refl

load_app_sandbox_config-fits_example :
    is_some (load_app_sandbox_config env (λ parse y. parse y 0) rules) ≡ true
load_app_sandbox_config-fits_example =
    load_app_sandbox_config-fits env env-AddsOne rules 0 no_dependents refl parsed
