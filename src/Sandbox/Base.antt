-- ===== src/Sandbox/Base.antt =====
-- ParseBaseConfig: what all sections have. A write outside an array is `none`.
use openharmony_mac_build.Common.{String, true, false, Option, none, some, List, if◌then◌else◌}
use openharmony_mac_build.Sandbox.State.{
  Tag, mount_path, mount_file, Node, Section, Code, done, sandbox_invalid, Env,
}
use openharmony_mac_build.Sandbox.Nodes.{parse_mount_paths_config, parse_symbol_links_config}
use openharmony_mac_build.Sandbox.Gids.{parse_gid_table_config}
use openharmony_mac_build.Sandbox.Groups.{parse_mount_groups_config}

-- What a step makes of a section.
abbrev pub Parsed : Type 0
Parsed = Option (Code × Section)

-- The next step, unless this one failed.
unfoldable pub and_then : Parsed → (Section → Parsed) → Parsed
and_then none f = none
and_then (some (done, x)) f = f x
and_then (some (c, x)) f = some (c, x)

set_nodes : Section → Code × List Node → Parsed
set_nodes x (c, ns) = some (c, record x { nodes = ns })

module _ {J : Type 0} (env : Env J) where
  -- A step for an item, if it is there.
  unfoldable pub for_item : J → String → (J → Section → Parsed) → Section → Parsed
  for_item config key f x = elim (env.item key config) [ none ↦ some (done, x) | some j ↦ f j x ]

  parse_gids : J → Section → Parsed
  parse_gids j x = some (parse_gid_table_config env j x)

  parse_paths : Tag → J → Section → Parsed
  unfolding set_nodes
  parse_paths type j x = set_nodes x (parse_mount_paths_config env j type x.nodes)

  parse_links : J → Section → Parsed
  unfolding set_nodes
  parse_links j x = set_nodes x (parse_symbol_links_config env j x.nodes)

  unfoldable pub base_of : List Section → J → Section → Parsed
  unfolding parse_gids parse_paths parse_links
  base_of queue config x =
      let y = record x {
        sandbox_switch = env.bool_of config "sandbox-switch" true;
        sandbox_shared = env.bool_of config "sandbox-shared" false;
      } in
      let a = for_item config "gids" parse_gids y in
      let b = and_then a (for_item config "mount-paths" (parse_paths mount_path)) in
      let c = and_then b (for_item config "mount-files" (parse_paths mount_file)) in
      let d = and_then c (for_item config "symbol-links" parse_links) in
      and_then d (for_item config "mount-groups" (parse_mount_groups_config env queue))

  -- ParseBaseConfig
  unfoldable pub parse_base_config : List Section → Option J → Section → Parsed
  unfolding base_of
  parse_base_config queue none x = some (done, x)
  parse_base_config queue (some config) x =
      let r = base_of queue config x in
      if env.is_object config then r else some (sandbox_invalid, x)
