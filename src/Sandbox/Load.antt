-- ===== src/Sandbox/Load.antt =====
-- ParseGlobalSandboxConfig, ParseAppSandboxConfig and LoadAppSandboxConfig. What ParseJsonConfig does with
-- the parser it is given is an argument.
pub mod Laws
use openharmony_mac_build.Common.{
  ℕ, String, Bool, true, false, not, Option, none, some, is_some, List, [], ◌∷◌, length,
  if◌then◌else◌, ltb, leb, ◌==◌,
}
use openharmony_mac_build.Sandbox.State.{
  Section, Sandbox, Code, done, failed, system_error, sandbox_invalid, is_done, Env,
}
use openharmony_mac_build.Sandbox.Values.{
  text_of, get_sandbox_ns_flags, app_sandbox_pid_ns_is_support, check_app_full_mount_enable,
}
use openharmony_mac_build.Sandbox.Base.{Parsed, parse_base_config}
use openharmony_mac_build.Sandbox.Config.{
  section_for, put_parsed, parse_package_name_config, parse_spawn_flags_config,
  parse_permission_config, parse_conditional_config, parse_name_groups_config, dependents,
}

-- What a step makes of the rules.
abbrev pub Loaded : Type 0
Loaded = Option (Code × Sandbox)

unfoldable pub then_load : Loaded → (Sandbox → Loaded) → Loaded
then_load none f = none
then_load (some (done, x)) f = f x
then_load (some (c, x)) f = some (c, x)

-- A failure of any kind is APPSPAWN_SANDBOX_INVALID.
unfoldable pub as_invalid : Loaded → Loaded
as_invalid none = none
as_invalid (some (done, x)) = some (done, x)
as_invalid (some (c, x)) = some (sandbox_invalid, x)

-- A queue that has been parsed goes back to the rules.
put_queue : (List Section → Sandbox) → Option (Code × List Section) → Loaded
put_queue put none = none
put_queue put (some (c, q)) = some (c, put q)

module _ {J : Type 0} (env : Env J) where
  global_root : Sandbox → J → Option String → Loaded
  global_root x json none = some (system_error, x)
  global_root x json (some root) =
      if env.malloc_ok
      then some (
        done,
        record x { root_path = some root; top_switch = env.bool_of json "top-sandbox-switch" true },
      )
      else some (system_error, record x { root_path = none })

  -- ParseGlobalSandboxConfig
  unfoldable pub parse_global_sandbox_config : Sandbox → J → Loaded
  unfolding global_root
  parse_global_sandbox_config x root = elim (env.item "global" root) [
    | none ↦ some (done, x)
    | some json ↦
        global_root (record x { ns_flags = get_sandbox_ns_flags env json }) json
          (text_of env json "sandbox-root")
  ]

  required_section : List Section → List Section → J → Option Section → Option (Code × List Section)
  required_section groups queue config none = some (failed, queue)
  required_section groups queue config (some x) =
      put_parsed env queue x (parse_base_config env groups (some config) x)

  next_required :
      (List Section → Option (Code × List Section))
      → Option (Code × List Section)
      → Option (Code × List Section)
  next_required rest none = none
  next_required rest (some (done, q)) = rest q
  next_required rest (some (c, q)) = some (c, q)

  -- The loop over the required sections.
  parse_required : List Section → List J → List Section → Option (Code × List Section)
  unfolding required_section next_required
  parse_required groups [] queue = some (done, queue)
  parse_required groups (j ∷ js) queue =
      next_required (parse_required groups js)
        (required_section groups queue j (section_for env queue (env.key_of j)))

  unfoldable pub required_in : J → Sandbox → Loaded
  unfolding parse_required put_queue
  required_in root x = elim (env.item "required" root) [
    | none ↦ some (done, x)
    | some required ↦
        put_queue (λ q. record x { required_queue = q })
          (parse_required x.name_groups_queue (env.members required) x.required_queue)
  ]

  permissions_in : J → Sandbox → Loaded
  unfolding put_queue
  permissions_in json x =
      put_queue (λ q. record x { permission_queue = q })
        (parse_conditional_config env (parse_permission_config env x.name_groups_queue)
          (env.item "permission" json) x.permission_queue)

  spawn_flags_in : J → Sandbox → Loaded
  unfolding put_queue
  spawn_flags_in json x =
      put_queue (λ q. record x { spawn_flags_queue = q })
        (parse_conditional_config env (parse_spawn_flags_config env x.name_groups_queue)
          (env.item "spawn-flag" json) x.spawn_flags_queue)

  package_names_in : J → Sandbox → Loaded
  unfolding put_queue
  package_names_in json x =
      put_queue (λ q. record x { package_name_queue = q })
        (parse_conditional_config env (parse_package_name_config env x.name_groups_queue)
          (env.item "package-name" json) x.package_name_queue)

  unfoldable pub conditional_in : J → Sandbox → Loaded
  unfolding permissions_in spawn_flags_in package_names_in
  conditional_in root x = elim (env.item "conditional" root) [
    | none ↦ some (done, x)
    | some json ↦
        then_load (then_load (permissions_in json x) (spawn_flags_in json)) (package_names_in json)
  ]

  -- ParseAppSandboxConfig
  unfoldable pub parse_app_sandbox_config : Sandbox → J → Loaded
  unfolding as_invalid required_in conditional_in
  parse_app_sandbox_config x root =
      let a = as_invalid (parse_global_sandbox_config x root) in
      let b = then_load a (λ y. as_invalid (parse_name_groups_config env y root)) in
      then_load (then_load b (required_in root)) (conditional_in root)

  -- The end of LoadAppSandboxConfig: the dependent groups go into an array of the size that was counted.
  finish_load : Sandbox → Loaded
  unfolding dependents
  finish_load x =
      let y = record x {
        pid_namespace = app_sandbox_pid_ns_is_support env;
        full_mount = check_app_full_mount_enable env;
      } in
      let groups = dependents env x.name_groups_queue in
      let z = record y { dep_group_nodes = some groups; dep_node_count = length groups } in
      if x.dep_node_count == 0
      then some (done, y)
      else (if env.malloc_ok
          then (if leb (length groups) x.dep_node_count then some (done, z) else none)
          else some (system_error, y))

  -- LoadAppSandboxConfig; `parse_files` is ParseJsonConfig, whose result is done if there is no file.
  unfoldable pub load_app_sandbox_config :
      ((Sandbox → J → Loaded) → Sandbox → Loaded) → Sandbox → Loaded
  unfolding finish_load
  load_app_sandbox_config parse_files x =
      if is_some x.dep_group_nodes
      then some (done, x)
      else then_load (parse_files parse_app_sandbox_config x) finish_load
