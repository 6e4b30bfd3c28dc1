-- ===== src/Sandbox/Values.antt =====
-- Single values of the rules: GetBoolParameter, GetMountModeFromConfig, GetNameGroupTypeFromConfig,
-- GetSandboxNsFlags, SetMode, GetChmodFromJson, GetFlagIndexFromJson and FillPathDemandInfo.
use openharmony_mac_build.Common.{
  ℕ, ◌^◌, ℤ, minus_one, String, str_eq, Bool, true, false, Option, none, some, List, [], ◌∷◌,
  if◌then◌else◌,
}
use openharmony_mac_build.Sandbox.State.{Env}

abbrev pub or_else {ℓ} : {A : Type ℓ} → Option A → A → A
or_else none d = d
or_else (some a) d = a

-- The text of an item.
abbrev pub text_of : {J : Type 0} → Env J → J → String → Option String
text_of env j key = elim (env.item key j) [ none ↦ none | some v ↦ env.text v ]

module _ {J : Type 0} (env : Env J) where
  -- GetBoolParameter
  unfoldable pub get_bool_parameter : String → Bool → Bool
  get_bool_parameter key value =
      let tmp = env.parameter key in
      if str_eq tmp "false" then false else (if str_eq tmp "true" then true else value)

  -- AppSandboxPidNsIsSupport
  unfoldable pub app_sandbox_pid_ns_is_support : Bool
  app_sandbox_pid_ns_is_support = get_bool_parameter "const.sandbox.pidns.support" true

  -- CheckAppFullMountEnable
  unfoldable pub check_app_full_mount_enable : Bool
  check_app_full_mount_enable = get_bool_parameter "const.filemanager.full_mount.enable" false

  -- The flags of a name in a table, if the item is there and is in it.
  flags_of : List (String × ℕ) → Option String → ℕ → ℕ
  flags_of table none def = def
  flags_of table (some value) def = or_else (env.flag_info (some value) table) def

  -- GetMountModeFromConfig
  unfoldable pub get_mount_mode_from_config : J → String → ℕ → ℕ
  unfolding flags_of
  get_mount_mode_from_config config key def =
      flags_of (("not-exists", env.mount_mode_not_exist) ∷ ("always", env.mount_mode_always) ∷ [])
        (text_of env config key) def

  -- GetNameGroupTypeFromConfig
  unfoldable pub get_name_group_type_from_config : J → String → ℕ → ℕ
  unfolding flags_of
  get_name_group_type_from_config config key def =
      flags_of
        (("system-const", env.tag_system_const) ∷ ("app-variable", env.tag_app_variable) ∷ [])
        (text_of env config key) def

  -- CLONE_NEWPID and CLONE_NEWNET, by their names.
  abbrev pub namespace_flags_map : List (String × ℕ)
  namespace_flags_map = ("pid", 2 ^ 29) ∷ ("net", 2 ^ 30) ∷ []

  item_text : Option J → Option String
  item_text none = none
  item_text (some j) = env.text j

  unfoldable pub or_ns_flags : List (Option J) → ℕ → ℕ
  unfolding item_text
  or_ns_flags [] flags = flags
  or_ns_flags (j ∷ js) flags =
      or_ns_flags js (elim (env.flag_info (item_text j) namespace_flags_map) [
        | none ↦ flags
        | some f ↦ env.or_bits flags f
      ])

  ns_flags_in : Option J → ℕ
  ns_flags_in none = 0
  ns_flags_in (some obj) = or_ns_flags (or_else (env.items obj) []) 0

  -- GetSandboxNsFlags
  unfoldable pub get_sandbox_ns_flags : J → ℕ
  unfolding ns_flags_in
  get_sandbox_ns_flags config = ns_flags_in (env.item "sandbox-ns-flags" config)

  -- SetMode, over the parts of a text.
  unfoldable pub set_modes : List String → ℕ → ℕ
  set_modes [] mode = mode
  set_modes (p ∷ ps) mode = set_modes ps (env.or_bits mode (env.path_mode p))

  -- GetChmodFromJson
  unfoldable pub get_chmod_from_json : J → ℕ
  get_chmod_from_json config = elim (text_of env config "dest-mode") [
    | none ↦ 0
    | some modes ↦ set_modes (env.parts modes) 0
  ]

  -- GetFlagIndexFromJson
  unfoldable pub get_flag_index_from_json : J → ℕ
  unfolding flags_of
  get_flag_index_from_json config =
      flags_of
        (("0", 0)
          ∷ ("START_FLAGS_BACKUP", env.flags_backup)
          ∷ ("DLP_MANAGER", env.flags_dlp_manager)
          ∷ ("DEVELOPER_MODE", env.flags_developer_mode)
          ∷ [])
        (text_of env config "name") 0

  -- FillPathDemandInfo
  unfoldable pub fill_path_demand_info : Option J → Option (ℤ × ℤ × ℤ)
  fill_path_demand_info none = none
  fill_path_demand_info (some j) =
      some
        (env.int_of j "uid" minus_one, env.int_of j "gid" minus_one, env.int_of j "ugo" minus_one)
