-- ===== src/Sandbox/Config.antt =====
-- Whole files of rules: ParsePackageNameConfig, ParseSpawnFlagsConfig, ParsePermissionConfig,
-- ParseNameGroup, ParseNameGroupsConfig, ParseConditionalConfig, ParseGlobalSandboxConfig,
-- ParseAppSandboxConfig and LoadAppSandboxConfig. Debugging output is left out.
pub mod Laws
use openharmony_mac_build.Common.{
  ℕ, suc, ◌+◌, String, Bool, true, false, not, Option, none, some, is_some, List, [], ◌∷◌, length,
  is_empty, if◌then◌else◌, ltb, leb, ◌==◌,
}
use openharmony_mac_build.Sandbox.State.{
  Tag, mount_path, Node, Section, Sandbox, Code, done, failed, system_error, sandbox_invalid, Env,
}
use openharmony_mac_build.Sandbox.Values.{
  text_of, get_mount_mode_from_config, get_name_group_type_from_config, get_sandbox_ns_flags,
  get_flag_index_from_json, app_sandbox_pid_ns_is_support, check_app_full_mount_enable, or_else,
}
use openharmony_mac_build.Sandbox.Nodes.{decode_mount_path_config}
use openharmony_mac_build.Sandbox.Base.{Parsed, parse_base_config}

module _ {J : Type 0} (env : Env J) where
  -- The section of a name: that in the queue, or a new one.
  unfoldable pub section_for : List Section → String → Option Section
  section_for queue name = elim (env.find_section queue (some name)) [
    | none ↦ env.new_section name
    | some x ↦ some x
  ]

  -- What becomes of a queue with a section that has been parsed.
  unfoldable pub put_parsed : List Section → Section → Parsed → Option (Code × List Section)
  put_parsed queue x none = none
  put_parsed queue x (some (done, y)) = some (done, env.add_section y queue)
  put_parsed queue x (some (c, y)) = some (c, env.delete_section y queue)

  parse_section :
      List Section
      → List Section
      → (Section → Section)
      → J
      → Option Section
      → Option (Code × List Section)
  unfolding put_parsed
  parse_section groups queue prepare config none = some (failed, queue)
  parse_section groups queue prepare config (some x) =
      put_parsed queue x (parse_base_config env groups (some config) (prepare x))

  -- ParsePackageNameConfig
  unfoldable pub parse_package_name_config :
      List Section → String → J → List Section → Option (Code × List Section)
  unfolding parse_section
  parse_package_name_config groups name config queue =
      parse_section groups queue (λ x. x) config (section_for queue name)

  -- ParseSpawnFlagsConfig
  unfoldable pub parse_spawn_flags_config :
      List Section → String → J → List Section → Option (Code × List Section)
  unfolding parse_section
  parse_spawn_flags_config groups name config queue =
      let i = get_flag_index_from_json env config in
      parse_section groups queue (λ x. record x { flag_index = i }) config (section_for queue name)

  -- ParsePermissionConfig
  unfoldable pub parse_permission_config :
      List Section → String → J → List Section → Option (Code × List Section)
  unfolding parse_section
  parse_permission_config groups name config queue =
      parse_section groups queue (λ x. x) config (section_for queue name)

  next_config :
      (List Section → Option (Code × List Section))
      → Option (Code × List Section)
      → Option (Code × List Section)
  next_config rest none = none
  next_config rest (some (done, q)) = rest q
  next_config rest (some (c, q)) = some (c, q)

  -- The loop of ParseConditionalConfig; an item without a name is passed over.
  unfoldable pub parse_conditionals :
      (String → J → List Section → Option (Code × List Section))
      → List (Option J)
      → List Section
      → Option (Code × List Section)
  unfolding next_config
  parse_conditionals parse [] queue = some (done, queue)
  parse_conditionals parse (none ∷ js) queue = parse_conditionals parse js queue
  parse_conditionals parse (some j ∷ js) queue =
      let rest = parse_conditionals parse js in
      elim (text_of env j "name") [
        | none ↦ rest queue
        | some name ↦ next_config rest (parse name j queue)
      ]

  -- ParseConditionalConfig
  unfoldable pub parse_conditional_config :
      (String → J → List Section → Option (Code × List Section))
      → Option J
      → List Section
      → Option (Code × List Section)
  parse_conditional_config parse none queue = some (done, queue)
  parse_conditional_config parse (some configs) queue = elim (env.items configs) [
    | none ↦ some (sandbox_invalid, queue)
    | some js ↦ parse_conditionals parse js queue
  ]

  -- The path that a group depends on, if it names one; a wrong one is an error.
  unfoldable pub dep_of : J → Section → Option J → Bool × Section
  dep_of config x none = (true, x)
  dep_of config x (some obj) = elim (decode_mount_path_config env [] obj mount_path).0 [
    | none ↦ (false, record x { dep_node = none })
    | some n ↦ (
      true,
      record x {
        dep_node = some n;
        dep_mode = get_mount_mode_from_config env config "deps-mode" env.mount_mode_always;
      },
    )
  ]

  unfoldable pub put_group : J → List Section → Parsed → Option (Option Section × List Section)
  put_group config queue none = none
  put_group config queue (some (done, y)) =
      let z = record y {
        dest_type = get_name_group_type_from_config env config "type" env.tag_invalid;
      } in
      some (some z, env.add_section z queue)
  put_group config queue (some (c, y)) = some (none, env.delete_section y queue)

  unfoldable pub group_with_dep :
      J → List Section → Bool × Section → Option (Option Section × List Section)
  unfolding put_group
  group_with_dep config queue (false, x) = some (none, env.delete_section x queue)
  group_with_dep config queue (true, x) =
      put_group config queue (parse_base_config env queue (some config) x)

  unfoldable pub group_named :
      J → List Section → Option Section → Option (Option Section × List Section)
  unfolding dep_of group_with_dep
  group_named config queue none = some (none, queue)
  group_named config queue (some x) =
      group_with_dep config queue (dep_of config x (env.item "mount-paths-deps" config))

  -- ParseNameGroup: the group, if it is right, and the queue.
  unfoldable pub parse_name_group : J → List Section → Option (Option Section × List Section)
  unfolding group_named
  parse_name_group config queue = elim (text_of env config "name") [
    | none ↦ some (none, queue)
    | some name ↦ group_named config queue (section_for queue name)
  ]

  -- Whether a group depends on a path.
  abbrev pub depends : Section → ℕ
  depends x = if is_some x.dep_node then 1 else 0

  unfoldable pub next_group :
      (ℕ → List Section → Option (Code × ℕ × List Section))
      → ℕ
      → Option (Option Section × List Section)
      → Option (Code × ℕ × List Section)
  next_group rest n none = none
  next_group rest n (some (none, q)) = some (sandbox_invalid, n, q)
  next_group rest n (some (some x, q)) = rest (depends x + n) q

  -- The loop of ParseNameGroupsConfig; `n` counts the groups that depend on a path.
  unfoldable pub parse_name_groups :
      List (Option J) → ℕ → List Section → Option (Code × ℕ × List Section)
  unfolding next_group
  parse_name_groups [] n queue = some (done, n, queue)
  parse_name_groups (none ∷ js) n queue = parse_name_groups js n queue
  parse_name_groups (some j ∷ js) n queue =
      next_group (parse_name_groups js) n (parse_name_group j queue)

  unfoldable pub groups_counted :
      Sandbox → Option (Code × ℕ × List Section) → Option (Code × Sandbox)
  groups_counted x none = none
  groups_counted x (some (c, n, q)) =
      some (c, record x { dep_node_count = n; name_groups_queue = q })

  unfoldable pub groups_of : Sandbox → Option (List (Option J)) → Option (Code × Sandbox)
  unfolding groups_counted
  groups_of x none = some (sandbox_invalid, x)
  groups_of x (some js) =
      let r = groups_counted x (parse_name_groups js 0 x.name_groups_queue) in
      if is_empty js then some (done, x) else r

  -- ParseNameGroupsConfig; the count begins anew with each file.
  unfoldable pub parse_name_groups_config : Sandbox → J → Option (Code × Sandbox)
  unfolding groups_of
  parse_name_groups_config x root = elim (env.item "name-groups" root) [
    | none ↦ some (done, x)
    | some configs ↦ groups_of x (env.items configs)
  ]

  -- The groups of a queue that depend on a path.
  unfoldable pub dependents : List Section → List Section
  dependents [] = []
  dependents (x ∷ xs) = let rest = dependents xs in if is_some x.dep_node then x ∷ rest else rest
