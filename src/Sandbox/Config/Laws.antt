-- ===== src/Sandbox/Config/Laws.antt =====
-- How many groups depend on a path once a file has been parsed.
use openharmony_mac_build.Common.{
  ℕ, ◌+◌, ◌≤◌, String, Bool, true, false, Option, none, some, List, [], ◌∷◌, length, arith,
}
use openharmony_mac_build.Sandbox.State.{
  Section, Code, done, failed, system_error, sandbox_invalid, Env,
}
use openharmony_mac_build.Sandbox.Values.{text_of, get_name_group_type_from_config}
use openharmony_mac_build.Sandbox.Base.{Parsed, parse_base_config}
use openharmony_mac_build.Sandbox.Config.{
  section_for, put_group, group_with_dep, group_named, dep_of, parse_name_group, depends,
  next_group, parse_name_groups, dependents,
}

-- AddSandboxSection adds at most the section it is given.
pub record AddsOne {J : Type 0} (env : Env J) : Type 0 where
  pub adds :
      (x : Section) (q : List Section)
      → length (dependents env (env.add_section x q)) ≤ depends env x + length (dependents env q)

module _ {J : Type 0} (env : Env J) (k : AddsOne env) where
  abbrev pub count : List Section → ℕ
  count q = length (dependents env q)

  -- What is known of a group that has been parsed, and of all groups.
  abbrev Grows : List Section → Option (Option Section × List Section) → Type 0
  Grows q none = Unit
  Grows q (some (none, r)) = Unit
  Grows q (some (some x, r)) = count r ≤ depends env x + count q

  put_group-Grows :
      (config : J) (q : List Section) (p : Parsed) → Grows q (put_group env config q p)
  unfolding put_group
  put_group-Grows config q none = tt
  put_group-Grows config q (some (done, y)) =
      k.adds
        (record y { dest_type = get_name_group_type_from_config env config "type" env.tag_invalid })
        q
  put_group-Grows config q (some (failed, y)) = tt
  put_group-Grows config q (some (system_error, y)) = tt
  put_group-Grows config q (some (sandbox_invalid, y)) = tt

  group_with_dep-Grows :
      (config : J) (q : List Section) (r : Bool × Section) → Grows q (group_with_dep env config q r)
  unfolding group_with_dep
  group_with_dep-Grows config q (false, x) = tt
  group_with_dep-Grows config q (true, x) =
      put_group-Grows config q (parse_base_config env q (some config) x)

  group_named-Grows :
      (config : J) (q : List Section) (o : Option Section) → Grows q (group_named env config q o)
  unfolding group_named
  group_named-Grows config q none = tt
  group_named-Grows config q (some x) =
      group_with_dep-Grows config q (dep_of env config x (env.item "mount-paths-deps" config))

  -- The group of a text, if there is one.
  abbrev group_at : J → List Section → Option String → Option (Option Section × List Section)
  group_at config q o = elim o [
    | none ↦ some (none, q)
    | some name ↦ group_named env config q (section_for env q name)
  ]

  group_at-Grows :
      (config : J) (q : List Section) (o : Option String) → Grows q (group_at config q o)
  group_at-Grows config q none = tt
  group_at-Grows config q (some name) = group_named-Grows config q (section_for env q name)

  parse_name_group-Grows : (config : J) (q : List Section) → Grows q (parse_name_group env config q)
  unfolding parse_name_group
  parse_name_group-Grows config q = group_at-Grows config q (text_of env config "name")

  abbrev pub Counted : Option (Code × ℕ × List Section) → Type 0
  Counted none = Unit
  Counted (some (done, n, q)) = count q ≤ n
  Counted (some (c, n, q)) = Unit

  next_group-Counted :
      (rest : ℕ → List Section → Option (Code × ℕ × List Section)) (n : ℕ) (q : List Section)
      (r : Option (Option Section × List Section))
      → ((m : ℕ) (p : List Section) → count p ≤ m → Counted (rest m p))
      → count q ≤ n
      → Grows q r
      → Counted (next_group env rest n r)
  unfolding next_group
  next_group-Counted rest n q none f b g = tt
  next_group-Counted rest n q (some (none, p)) f b g = tt
  next_group-Counted rest n q (some (some x, p)) f b g = f (depends env x + n) p (ground arith)

  pub parse_name_groups-Counted :
      (js : List (Option J)) (n : ℕ) (q : List Section)
      → count q ≤ n
      → Counted (parse_name_groups env js n q)
  unfolding parse_name_groups
  parse_name_groups-Counted [] n q b = b
  parse_name_groups-Counted (none ∷ js) n q b = parse_name_groups-Counted js n q b
  parse_name_groups-Counted (some j ∷ js) n q b =
      next_group-Counted (parse_name_groups env js) n q (parse_name_group env j q)
        (parse_name_groups-Counted js) b (parse_name_group-Grows j q)
