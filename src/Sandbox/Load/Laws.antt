-- ===== src/Sandbox/Load/Laws.antt =====
-- When the groups that depend on a path fit the array that LoadAppSandboxConfig allocates.
use openharmony_mac_build.Common.{
  ℕ, ◌≤◌, ◌≡◌, ◌∙◌, refl, ap, String, true, Option, none, some, is_some, List, [], ◌∷◌, arith,
  Bool-cases, inl, inr,
}
use openharmony_mac_build.Sandbox.State.{
  Section, Sandbox, Code, done, failed, system_error, sandbox_invalid, Env,
}
use openharmony_mac_build.Sandbox.Values.{get_sandbox_ns_flags, text_of}
use openharmony_mac_build.Sandbox.Config.{
  parse_name_groups, groups_counted, groups_of, parse_name_groups_config, parse_conditional_config,
  parse_permission_config, parse_spawn_flags_config, parse_package_name_config,
}
use openharmony_mac_build.Sandbox.Config.Laws.{AddsOne, count, Counted, parse_name_groups-Counted}
use openharmony_mac_build.Sandbox.Load.{
  Loaded, then_load, as_invalid, put_queue, parse_global_sandbox_config, global_root,
  parse_required, required_in, permissions_in, spawn_flags_in, package_names_in, conditional_in,
  parse_app_sandbox_config, finish_load, load_app_sandbox_config,
}

module _ {J : Type 0} (env : Env J) (k : AddsOne env) where
  -- The groups that depend on a path are no more than those counted.
  abbrev Sized : Loaded → Type 0
  Sized none = Unit
  Sized (some (done, x)) = count env k x.name_groups_queue ≤ x.dep_node_count
  Sized (some (c, x)) = Unit

  groups_counted-Sized :
      (x : Sandbox) (r : Option (Code × ℕ × List Section))
      → Counted env k r
      → Sized (groups_counted env x r)
  unfolding groups_counted
  groups_counted-Sized x none h = tt
  groups_counted-Sized x (some (done, n, q)) h = h
  groups_counted-Sized x (some (failed, n, q)) h = tt
  groups_counted-Sized x (some (system_error, n, q)) h = tt
  groups_counted-Sized x (some (sandbox_invalid, n, q)) h = tt

  then_load-Sized :
      (l : Loaded) (f : Sandbox → Loaded)
      → Sized l
      → ((x : Sandbox) → count env k x.name_groups_queue ≤ x.dep_node_count → Sized (f x))
      → Sized (then_load l f)
  unfolding then_load
  then_load-Sized none f h g = tt
  then_load-Sized (some (done, x)) f h g = g x h
  then_load-Sized (some (failed, x)) f h g = tt
  then_load-Sized (some (system_error, x)) f h g = tt
  then_load-Sized (some (sandbox_invalid, x)) f h g = tt

  as_invalid-Sized : (l : Loaded) → Sized l → Sized (as_invalid l)
  unfolding as_invalid
  as_invalid-Sized none h = tt
  as_invalid-Sized (some (done, x)) h = h
  as_invalid-Sized (some (failed, x)) h = tt
  as_invalid-Sized (some (system_error, x)) h = tt
  as_invalid-Sized (some (sandbox_invalid, x)) h = tt

  groups_of-Sized :
      (x : Sandbox) (o : Option (List (Option J)))
      → count env k x.name_groups_queue ≡ 0
      → Sized (groups_of env x o)
  unfolding groups_of
  groups_of-Sized x none z = tt
  groups_of-Sized x (some []) z = ground arith
  groups_of-Sized x (some (j ∷ js)) z =
      groups_counted-Sized x (parse_name_groups env (j ∷ js) 0 x.name_groups_queue)
        (parse_name_groups-Counted env k (j ∷ js) 0 x.name_groups_queue (ground arith))

  groups_at-Sized :
      (x : Sandbox) (o : Option J)
      → count env k x.name_groups_queue ≡ 0
      → Sized
          (elim o [ none ↦ some (done, x) | some configs ↦ groups_of env x (env.items configs) ])
  groups_at-Sized x none z = ground arith
  groups_at-Sized x (some configs) z = groups_of-Sized x (env.items configs) z

  -- The global part leaves the groups as they are.
  abbrev Keeps : List Section → Loaded → Type 0
  Keeps q none = Unit
  Keeps q (some (c, x)) = x.name_groups_queue ≡ q

  global_root-Keeps :
      (x : Sandbox) (json : J) (o : Option String)
      → Keeps x.name_groups_queue (global_root env x json o)
  unfolding global_root
  global_root-Keeps x json none = refl
  global_root-Keeps x json (some root) = elim (Bool-cases env.malloc_ok) [
    | inl m ↦ simp m refl
    | inr m ↦ simp m refl
  ]

  after_global-Sized :
      (l : Loaded) (q : List Section) (root : J)
      → Keeps q l
      → count env k q ≡ 0
      → Sized (then_load (as_invalid l) (λ y. as_invalid (parse_name_groups_config env y root)))
  unfolding then_load as_invalid parse_name_groups_config
  after_global-Sized none q root h z = tt
  after_global-Sized (some (done, y)) q root h z =
      as_invalid-Sized (parse_name_groups_config env y root) (
        groups_at-Sized y (env.item "name-groups" root)
          (ap (λ (p : List Section). count env k p) h ∙ z))
  after_global-Sized (some (failed, y)) q root h z = tt
  after_global-Sized (some (system_error, y)) q root h z = tt
  after_global-Sized (some (sandbox_invalid, y)) q root h z = tt

  parse_global-Keeps :
      (x : Sandbox) (root : J) → Keeps x.name_groups_queue (parse_global_sandbox_config env x root)
  unfolding parse_global_sandbox_config
  parse_global-Keeps x root =
      elim (env.item "global" root)
        as (λ (o : Option J). Keeps x.name_groups_queue (elim o [
          | none ↦ some (done, x)
          | some json ↦
              global_root env (record x { ns_flags = get_sandbox_ns_flags env json }) json
                (text_of env json "sandbox-root")
        ])) [
          | none ↦ refl
          | some json ↦
              global_root-Keeps (record x { ns_flags = get_sandbox_ns_flags env json }) json
                (text_of env json "sandbox-root")
        ]

  put_queue-Sized :
      (x : Sandbox) (put : List Section → Sandbox) (r : Option (Code × List Section))
      → ((q : List Section) → (put q).name_groups_queue ≡ x.name_groups_queue)
      → ((q : List Section) → (put q).dep_node_count ≡ x.dep_node_count)
      → count env k x.name_groups_queue ≤ x.dep_node_count
      → Sized (put_queue put r)
  unfolding put_queue
  put_queue-Sized x put none a b h = tt
  put_queue-Sized x put (some (done, q)) a b h =
      ground (arith, ap (λ (l : List Section). count env k l) (a q), b q)
  put_queue-Sized x put (some (failed, q)) a b h = tt
  put_queue-Sized x put (some (system_error, q)) a b h = tt
  put_queue-Sized x put (some (sandbox_invalid, q)) a b h = tt

  required_in-Sized :
      (root : J) (x : Sandbox)
      → count env k x.name_groups_queue ≤ x.dep_node_count
      → Sized (required_in env root x)
  unfolding required_in
  required_in-Sized root x h =
      elim (env.item "required" root)
        as (λ (o : Option J). Sized (elim o [
          | none ↦ some (done, x)
          | some required ↦
              put_queue (λ q. record x { required_queue = q })
                (parse_required env x.name_groups_queue (env.members required) x.required_queue)
        ])) [
          | none ↦ h
          | some required ↦
              put_queue-Sized x (λ q. record x { required_queue = q })
                (parse_required env x.name_groups_queue (env.members required) x.required_queue)
                (λ q. refl) (λ q. refl) h
        ]

  permissions_in-Sized :
      (json : J) (x : Sandbox)
      → count env k x.name_groups_queue ≤ x.dep_node_count
      → Sized (permissions_in env json x)
  unfolding permissions_in
  permissions_in-Sized json x h =
      put_queue-Sized x (λ q. record x { permission_queue = q })
        (parse_conditional_config env (parse_permission_config env x.name_groups_queue)
          (env.item "permission" json) x.permission_queue)
        (λ q. refl) (λ q. refl) h

  spawn_flags_in-Sized :
      (json : J) (x : Sandbox)
      → count env k x.name_groups_queue ≤ x.dep_node_count
      → Sized (spawn_flags_in env json x)
  unfolding spawn_flags_in
  spawn_flags_in-Sized json x h =
      put_queue-Sized x (λ q. record x { spawn_flags_queue = q })
        (parse_conditional_config env (parse_spawn_flags_config env x.name_groups_queue)
          (env.item "spawn-flag" json) x.spawn_flags_queue)
        (λ q. refl) (λ q. refl) h

  package_names_in-Sized :
      (json : J) (x : Sandbox)
      → count env k x.name_groups_queue ≤ x.dep_node_count
      → Sized (package_names_in env json x)
  unfolding package_names_in
  package_names_in-Sized json x h =
      put_queue-Sized x (λ q. record x { package_name_queue = q })
        (parse_conditional_config env (parse_package_name_config env x.name_groups_queue)
          (env.item "package-name" json) x.package_name_queue)
        (λ q. refl) (λ q. refl) h

  conditional_in-Sized :
      (root : J) (x : Sandbox)
      → count env k x.name_groups_queue ≤ x.dep_node_count
      → Sized (conditional_in env root x)
  unfolding conditional_in
  conditional_in-Sized root x h =
      elim (env.item "conditional" root)
        as (λ (o : Option J). Sized (elim o [
          | none ↦ some (done, x)
          | some json ↦
              then_load (then_load (permissions_in env json x) (spawn_flags_in env json))
                (package_names_in env json)
        ])) [
          | none ↦ h
          | some json ↦
              then_load-Sized (then_load (permissions_in env json x) (spawn_flags_in env json))
                (package_names_in env json)
                (then_load-Sized (permissions_in env json x) (spawn_flags_in env json)
                  (permissions_in-Sized json x h) (spawn_flags_in-Sized json))
                (package_names_in-Sized json)
        ]

  parse_app_sandbox_config-Sized :
      (x : Sandbox) (root : J)
      → count env k x.name_groups_queue ≡ 0
      → Sized (parse_app_sandbox_config env x root)
  unfolding parse_app_sandbox_config
  parse_app_sandbox_config-Sized x root z =
      let b =
        then_load (as_invalid (parse_global_sandbox_config env x root))
          (λ y. as_invalid (parse_name_groups_config env y root)) in
      then_load-Sized (then_load b (required_in env root)) (conditional_in env root)
        (then_load-Sized b (required_in env root)
          (after_global-Sized (parse_global_sandbox_config env x root) x.name_groups_queue root
            (parse_global-Keeps x root) z)
          (required_in-Sized root))
        (conditional_in-Sized root)

  finish_load-fits :
      (l : Loaded) → Sized l → is_some l ≡ true → is_some (then_load l (finish_load env)) ≡ true
  unfolding then_load finish_load
  finish_load-fits none h e = e
  finish_load-fits (some (done, x)) h e = ground arith
  finish_load-fits (some (failed, x)) h e = refl
  finish_load-fits (some (system_error, x)) h e = refl
  finish_load-fits (some (sandbox_invalid, x)) h e = refl

  -- If no group is there before and AddSandboxSection adds no more than its section, then the groups of a
  -- single file that depend on a path fit the array that is allocated for them: loading the file writes
  -- outside an array only if parsing it does.
  pub load_app_sandbox_config-fits :
      (x : Sandbox) (root : J)
      → count env k x.name_groups_queue ≡ 0
      → x.dep_group_nodes ≡ none
      → is_some (parse_app_sandbox_config env x root) ≡ true
      → is_some (load_app_sandbox_config env (λ parse y. parse y root) x) ≡ true
  unfolding load_app_sandbox_config
  load_app_sandbox_config-fits x root z n e = simp n (
      finish_load-fits (parse_app_sandbox_config env x root)
        (parse_app_sandbox_config-Sized x root z) e)
