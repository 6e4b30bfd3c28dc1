-- ===== src/Sandbox/Groups.antt =====
-- ParseMountGroupsConfig: the groups of mounts of a section. A write outside the array that is allocated
-- is `none`.
pub mod Laws
use openharmony_mac_build.Common.{
  ℕ, zero, suc, ◌+◌, String, str_eq, Bool, true, false, not, ◌&&◌, ◌||◌, Option, none, some, List,
  [], ◌∷◌, ◌++◌, length, if◌then◌else◌, ltb, ◌==◌,
}
use openharmony_mac_build.Sandbox.State.{Section, Code, done, system_error, sandbox_invalid, Env}

unfoldable pub is_in : String → List String → Bool
is_in a [] = false
is_in a (b ∷ bs) = str_eq a b || is_in a bs

-- The names that an array holds.
abbrev pub names_of : {J : Type 0} → Env J → List (Option J) → List (Option String)
names_of env [] = []
names_of env (none ∷ js) = none ∷ names_of env js
names_of env (some j ∷ js) = env.text j ∷ names_of env js

-- What GetArrayItem gives beyond the end of the array.
abbrev pub beyond : ℕ → List (Option String)
beyond zero = []
beyond (suc n) = none ∷ beyond n

module _ {J : Type 0} (env : Env J) (queue : List Section) where
  -- A group that is in the queue, is of the type asked for, and is not set already.
  unfoldable pub group_found : Section → Option Section → Option String
  group_found x none = none
  group_found x (some g) =
      if (str_eq x.name "system-const" && not (g.dest_type == env.tag_system_const))
        || is_in g.name x.name_groups
      then none
      else some g.name

  -- The group to be added for one name, if there is one.
  unfoldable pub group_of : Section → Option String → Option String
  unfolding group_found
  group_of x o = group_found x (env.find_section queue o)

  with_group : List String → Option String → List String
  with_group groups none = groups
  with_group groups (some g) = groups ++ (g ∷ [])

  -- The loop, in an array of `room` places; `groups` are those that are filled.
  unfoldable pub add_groups :
      ℕ → Section → List (Option String) → List String → Option (List String)
  unfolding with_group
  add_groups room x [] groups = some groups
  add_groups room x (o ∷ os) groups =
      let rest = add_groups room x os (with_group groups (group_of x o)) in
      if ltb (length groups) room then rest else none

  -- The old groups are copied, and an array of names is added; the loop runs on past its end.
  unfoldable pub merge_groups : Section → List (Option J) → List String → Option (List String)
  merge_groups x js old =
      add_groups (length js + length old) x (names_of env js ++ beyond (length old)) old

  groups_set : Section → Option (List String) → Option (Code × Section)
  groups_set x none = none
  groups_set x (some groups) = some (done, record x { name_groups = groups })

  groups_in : Section → Option (List (Option J)) → Option (Code × Section)
  unfolding groups_set
  groups_in x none = some (sandbox_invalid, x)
  groups_in x (some js) =
      let size = length js in
      if size == 0
      then some (done, x)
      else (if env.malloc_ok
          then groups_set x (merge_groups x js x.name_groups)
          else some (system_error, x))

  -- ParseMountGroupsConfig
  unfoldable pub parse_mount_groups_config : J → Section → Option (Code × Section)
  unfolding groups_in
  parse_mount_groups_config config x = groups_in x (env.items config)
