-- ===== src/Sandbox/Nodes.antt =====
-- Paths and links of a section: DecodeMountPathConfig, ParseMountPathsConfig, DecodeSymbolLinksConfig and
-- ParseSymbolLinksConfig. A copy of a text fails just if memory does.
use openharmony_mac_build.Common.{String, false, Option, none, some, List, [], ◌∷◌, if◌then◌else◌}
use openharmony_mac_build.Sandbox.State.{Tag, SymbolLink, Node, path, link, Code, done, failed, Env}
use openharmony_mac_build.Sandbox.Values.{text_of, get_chmod_from_json, fill_path_demand_info}

module _ {J : Type 0} (env : Env J) where
  -- The old node of the same place is deleted.
  unfoldable pub drop_old : Option Node → List Node → List Node
  drop_old none ns = ns
  drop_old (some n) ns = env.drop_node n ns

  new_path : J → Tag → String → String → Node
  new_path config type src dst = path (record {
    path_type = type;
    source = src;
    target = dst;
    dest_mode = get_chmod_from_json env config;
    mount_shared = env.bool_of config "mount-shared-flag" false;
    check_error = env.bool_of config "check-action-status" false;
    category = env.category_of (text_of env config "category");
    app_apl_name = text_of env config "app-apl-name";
    demand = fill_path_demand_info env (env.item "create-on-demand" config);
  })

  unfoldable pub path_at :
      List Node → J → Tag → Option String → Option String → Option Node × List Node
  unfolding drop_old new_path
  path_at ns config type none dst = (none, ns)
  path_at ns config type (some src) none = (none, ns)
  path_at ns config type (some src) (some dst) =
      let kept = drop_old (env.find_path ns type src dst) ns in
      if env.malloc_ok then (some (new_path config type src dst), kept) else (none, kept)

  -- DecodeMountPathConfig, for the nodes of a section: the new node, and the nodes that are left.
  unfoldable pub decode_mount_path_config : List Node → J → Tag → Option Node × List Node
  unfolding path_at
  decode_mount_path_config ns config type =
      path_at ns config type (text_of env config "src-path") (text_of env config "sandbox-path")

  add_decoded : Option Node × List Node → List Node
  add_decoded (none, ns) = ns
  add_decoded (some n, ns) = env.add_node n ns

  -- The loop of ParseMountPathsConfig: a path that is wrong is passed over.
  unfoldable pub parse_mount_paths : Tag → List (Option J) → List Node → List Node
  unfolding add_decoded
  parse_mount_paths type [] ns = ns
  parse_mount_paths type (none ∷ js) ns = parse_mount_paths type js ns
  parse_mount_paths type (some j ∷ js) ns =
      parse_mount_paths type js (add_decoded (decode_mount_path_config ns j type))

  mount_paths_in : Tag → List Node → Option (List (Option J)) → Code × List Node
  mount_paths_in type ns none = (failed, ns)
  mount_paths_in type ns (some js) = (done, parse_mount_paths type js ns)

  -- ParseMountPathsConfig
  unfoldable pub parse_mount_paths_config : J → Tag → List Node → Code × List Node
  unfolding mount_paths_in
  parse_mount_paths_config config type ns = mount_paths_in type ns (env.items config)

  link_at : List Node → J → Option String → Option String → Option Node × List Node
  unfolding drop_old
  link_at ns config none name = (none, ns)
  link_at ns config (some target) none = (none, ns)
  link_at ns config (some target) (some name) =
      let kept = drop_old (env.find_link ns target name) ns in
      let l : SymbolLink = record {
        link_target = target;
        link_name = name;
        link_mode = get_chmod_from_json env config;
        link_check = env.bool_of config "check-action-status" false;
      } in
      if env.malloc_ok then (some (link l), kept) else (none, kept)

  -- DecodeSymbolLinksConfig
  unfoldable pub decode_symbol_links_config : List Node → J → Option Node × List Node
  unfolding link_at
  decode_symbol_links_config ns config =
      link_at ns config (text_of env config "target-name") (text_of env config "link-name")

  link_decoded : (List Node → Code × List Node) → Option Node × List Node → Code × List Node
  link_decoded rest (none, ns) = (failed, ns)
  link_decoded rest (some n, ns) = rest (env.add_node n ns)

  -- The loop of ParseSymbolLinksConfig: a link that is wrong ends it.
  unfoldable pub parse_symbol_links : List (Option J) → List Node → Code × List Node
  unfolding link_decoded
  parse_symbol_links [] ns = (done, ns)
  parse_symbol_links (none ∷ js) ns = parse_symbol_links js ns
  parse_symbol_links (some j ∷ js) ns =
      link_decoded (parse_symbol_links js) (decode_symbol_links_config ns j)

  symbol_links_in : List Node → Option (List (Option J)) → Code × List Node
  symbol_links_in ns none = (failed, ns)
  symbol_links_in ns (some js) = parse_symbol_links js ns

  -- ParseSymbolLinksConfig
  unfoldable pub parse_symbol_links_config : J → List Node → Code × List Node
  unfolding symbol_links_in
  parse_symbol_links_config config ns = symbol_links_in ns (env.items config)
