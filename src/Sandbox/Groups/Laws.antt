-- ===== src/Sandbox/Groups/Laws.antt =====
-- When the groups of a section fit the array that is allocated for them.
use openharmony_mac_build.Common.{
  ℕ, suc, ◌+◌, ◌≤◌, ◌≡◌, ◌∙◌, refl, ap, String, true, false, Option, none, some, is_some, List, [],
  ◌∷◌, ◌++◌, length, length-append, ltb, ◌==◌, arith, All,
}
use openharmony_mac_build.Sandbox.State.{Section, done, Env}
use openharmony_mac_build.Sandbox.Groups.{
  names_of, beyond, group_of, with_group, add_groups, merge_groups, groups_set, groups_in,
  parse_mount_groups_config,
}

length-names_of :
    {J : Type 0} (env : Env J) (js : List (Option J)) → length (names_of env js) ≡ length js
length-names_of env [] = refl
length-names_of env (none ∷ js) = ap suc (length-names_of env js)
length-names_of env (some j ∷ js) = ap suc (length-names_of env js)

append_nil : (xs : List (Option String)) → xs ++ [] ≡ xs
append_nil [] = refl
append_nil (x ∷ xs) = ap (λ (l : List (Option String)). x ∷ l) (append_nil xs)

module _ {J : Type 0} (env : Env J) (queue : List Section) where
  -- The groups that a list of names stands for.
  abbrev pub groups_named : Section → List (Option String) → List String → List String
  groups_named x [] groups = groups
  groups_named x (o ∷ os) groups =
      groups_named x os
        (elim (group_of env queue x o) [ none ↦ groups | some g ↦ groups ++ (g ∷ []) ])

  length-with_group :
      (groups : List String) (o : Option String)
      → (length (with_group env queue groups o) ≤ suc (length groups))
        × (length groups ≤ length (with_group env queue groups o))
  unfolding with_group
  length-with_group groups none = (ground arith, ground arith)
  length-with_group groups (some g) =
      (ground (arith, length-append groups (g ∷ [])), ground (arith, length-append groups (g ∷ [])))

  with_group_named :
      (groups : List String) (o : Option String)
      → with_group env queue groups o ≡ elim o [ none ↦ groups | some g ↦ groups ++ (g ∷ []) ]
  unfolding with_group
  with_group_named groups none = refl
  with_group_named groups (some g) = refl

  add_groups-fits :
      (room : ℕ) (x : Section) (os : List (Option String)) (groups : List String)
      → length groups + length os ≤ room
      → add_groups env queue room x os groups ≡ some (groups_named x os groups)
  unfolding add_groups
  add_groups-fits room x [] groups b = refl
  add_groups-fits room x (o ∷ os) groups b =
      let l = length-with_group groups (group_of env queue x o) in
      let lt : ltb (length groups) room ≡ true = ground arith in
      simp lt (
        add_groups-fits room x os (with_group env queue groups (group_of env queue x o))
          (ground arith)
        ∙ ap (λ (gs : List String). some (groups_named x os gs))
            (with_group_named groups (group_of env queue x o)))

  with_group-some :
      (groups : List String) (o : Option String)
      → is_some o ≡ true
      → length (with_group env queue groups o) ≡ suc (length groups)
  unfolding with_group
  with_group-some groups none e = absurd (ground (arith, e))
  with_group-some groups (some g) e = ground (arith, length-append groups (g ∷ []))

  add_groups_overruns :
      (room : ℕ) (x : Section) (os : List (Option String)) (n : ℕ) (groups : List String)
      → length groups + length os ≡ room
      → All (λ o. is_some (group_of env queue x o) ≡ true) os
      → add_groups env queue room x (os ++ beyond (suc n)) groups ≡ none
  unfolding add_groups
  add_groups_overruns room x [] n groups b h =
      let lt : ltb (length groups) room ≡ false = ground arith in simp lt refl
  add_groups_overruns room x (o ∷ os) n groups b h =
      let g = with_group env queue groups (group_of env queue x o) in
      let w = with_group-some groups (group_of env queue x o) h.0 in
      let lt : ltb (length groups) room ≡ true = ground arith in
      simp lt (add_groups_overruns room x os n g (ground arith) h.1)

  merge_groups-fits :
      (x : Section) (js : List (Option J))
      → merge_groups env queue x js [] ≡ some (groups_named x (names_of env js) [])
  unfolding merge_groups
  merge_groups-fits x js =
      ap (λ (os : List (Option String)). add_groups env queue (length js + 0) x os [])
        (append_nil (names_of env js))
      ∙ add_groups-fits (length js + 0) x (names_of env js) []
          (ground (arith, length-names_of env js))

  merge_groups_overruns :
      (x : Section) (js : List (Option J)) (g : String) (gs : List String)
      → All (λ o. is_some (group_of env queue x o) ≡ true) (names_of env js)
      → merge_groups env queue x js (g ∷ gs) ≡ none
  unfolding merge_groups
  merge_groups_overruns x js g gs h =
      add_groups_overruns (length js + length (g ∷ gs)) x (names_of env js) (length gs) (g ∷ gs)
        (ground (arith, length-names_of env js)) h

  groups_in-merge_groups :
      (x : Section) (js : List (Option J)) (o : Option (List String))
      → (length js == 0) ≡ false
      → env.malloc_ok ≡ true
      → merge_groups env queue x js x.name_groups ≡ o
      → groups_in env queue x (some js) ≡ groups_set env queue x o
  unfolding groups_in
  groups_in-merge_groups x js o s m e = simp (s, m) (ap (groups_set env queue x) e)

  -- If a section has no groups yet, the names of the configuration are not none, and memory is there,
  -- then its groups are those found for the names, in their order, and the loop stays inside its
  -- array.
  pub parse_mount_groups_config-groups_named :
      (config : J) (x : Section) (js : List (Option J))
      → env.items config ≡ some js
      → (length js == 0) ≡ false
      → env.malloc_ok ≡ true
      → x.name_groups ≡ []
      → parse_mount_groups_config env queue config x
        ≡ some (done, record x { name_groups = groups_named x (names_of env js) [] })
  unfolding parse_mount_groups_config groups_set
  parse_mount_groups_config-groups_named config x js e s m z =
      ap (groups_in env queue x) e
      ∙ groups_in-merge_groups x js (some (groups_named x (names_of env js) [])) s m
          (ap (merge_groups env queue x js) z ∙ merge_groups-fits x js)

  -- If a section has groups, and every name of the configuration, which are not none, stands for a
  -- group that may be added, then the loop writes past the end of the array that was allocated.
  pub parse_mount_groups_config_overruns :
      (config : J) (x : Section) (js : List (Option J)) (g : String) (gs : List String)
      → env.items config ≡ some js
      → (length js == 0) ≡ false
      → env.malloc_ok ≡ true
      → x.name_groups ≡ g ∷ gs
      → All (λ o. is_some (group_of env queue x o) ≡ true) (names_of env js)
      → parse_mount_groups_config env queue config x ≡ none
  unfolding parse_mount_groups_config groups_set
  parse_mount_groups_config_overruns config x js g gs e s m z h =
      ap (groups_in env queue x) e
      ∙ groups_in-merge_groups x js none s m
          (ap (merge_groups env queue x js) z ∙ merge_groups_overruns x js g gs h)
