-- ===== src/Sandbox/State.antt =====
-- What the rules of sandboxes are read into, and what lies outside the file: JSON values and the
-- functions of the library for them, and the queues and lists of appspawn_sandbox.h.
use openharmony_mac_build.Common.{ℕ, ℤ, String, Bool, Option, List}

-- The tags of paths.
pub data Tag : Type 0 where
  mount_path mount_file : Tag

-- PathMountNode; `demand` is what its demandInfo holds.
pub record PathMount : Type 0 where
  pub path_type : Tag
  pub source : String
  pub target : String
  pub dest_mode : ℕ
  pub mount_shared : Bool
  pub check_error : Bool
  pub category : ℕ
  pub app_apl_name : Option String
  pub demand : Option (ℤ × ℤ × ℤ)

-- SymbolLinkNode
pub record SymbolLink : Type 0 where
  pub link_target : String
  pub link_name : String
  pub link_mode : ℕ
  pub link_check : Bool

pub data Node : Type 0 where
  path : PathMount → Node
  link : SymbolLink → Node

-- SandboxSection: `name_groups` are the names of the groups that it points to, and `gid_room` is the
-- size of gidTable.
pub record Section : Type 0 where
  pub name : String
  pub nodes : List Node
  pub sandbox_switch : Bool
  pub sandbox_shared : Bool
  pub gids : List ℕ
  pub gid_room : ℕ
  pub name_groups : List String
  pub flag_index : ℕ
  pub dep_node : Option Node
  pub dep_mode : ℕ
  pub dest_type : ℕ

pub data Code : Type 0 where
  done failed system_error sandbox_invalid : Code

abbrev pub is_done : Code → Bool
is_done done = Bool.true
is_done c = Bool.false

-- AppSpawnSandboxCfg, with its queues; `dep_group_nodes` is set once the rules are loaded.
pub record Sandbox : Type 0 where
  pub ns_flags : ℕ
  pub root_path : Option String
  pub top_switch : Bool
  pub dep_node_count : ℕ
  pub dep_group_nodes : Option (List Section)
  pub pid_namespace : Bool
  pub full_mount : Bool
  pub required_queue : List Section
  pub permission_queue : List Section
  pub spawn_flags_queue : List Section
  pub package_name_queue : List Section
  pub name_groups_queue : List Section

-- The outside, over the type `J` of JSON values.
pub record Env (J : Type 0) : Type 0 where
  pub item : String → J → Option J  -- cJSON_GetObjectItemCaseSensitive
  pub items : J → Option (List (Option J))  -- the items of an array, if it is one
  pub text : J → Option String  -- cJSON_GetStringValue
  pub number : J → Option ℕ  -- of a number, as a gid_t
  pub is_object : J → Bool
  pub bool_of : J → String → Bool → Bool  -- GetBoolValueFromJsonObj
  pub int_of : J → String → ℤ → ℤ  -- GetIntValueFromJsonObj
  pub parts : String → List String  -- StringSplit at a bar
  pub path_mode : String → ℕ  -- GetPathMode
  pub decode_gid : Option String → ℕ  -- DecodeGid
  pub category_of : Option String → ℕ  -- GetMountCategory
  pub or_bits : ℕ → ℕ → ℕ  -- the bitwise or of C
  pub parameter : String → String  -- GetParameter, empty if it fails
  pub find_path : List Node → Tag → String → String → Option Node  -- GetPathMountNode
  pub find_link : List Node → String → String → Option Node  -- GetSymbolLinkNode
  pub drop_node : Node → List Node → List Node  -- DeleteSandboxMountNode
  pub add_node : Node → List Node → List Node  -- AddSandboxMountNode
  pub malloc_ok : Bool
  pub app_max_gids : ℕ  -- APP_MAX_GIDS
  -- GetSandboxFlagInfo, on a table of names and flags.
  pub flag_info : Option String → List (String × ℕ) → Option ℕ
  pub flags_backup : ℕ  -- APP_FLAGS_BACKUP_EXTENSION and the others
  pub flags_dlp_manager : ℕ
  pub flags_developer_mode : ℕ
  pub mount_mode_not_exist : ℕ
  pub mount_mode_always : ℕ
  pub tag_system_const : ℕ
  pub tag_app_variable : ℕ
  pub tag_invalid : ℕ
  pub find_section : List Section → Option String → Option Section  -- GetSandboxSection
  pub add_section : Section → List Section → List Section  -- AddSandboxSection
  pub delete_section : Section → List Section → List Section  -- DeleteSandboxSection
  pub new_section : String → Option Section  -- CreateSandboxSection
  pub key_of : J → String  -- the key under which an object holds it
  pub members : J → List J  -- cJSON_ArrayForEach
