-- ===== src/Sandbox/Gids/Laws.antt =====
-- The table of groups fits what is allocated for it.
use openharmony_mac_build.Common.{
  ℕ, zero, suc, ◌+◌, ◌≤◌, ◌≡◌, false, Option, none, some, List, [], ◌∷◌, ◌++◌, length,
  length-append, if◌then◌else◌, ltb, ◌==◌, arith, All, All-append, Bool-cases, inl, inr,
}
use openharmony_mac_build.Sandbox.State.{Section, Env}
use openharmony_mac_build.Sandbox.Gids.{gid_of, fill_gids, gids_in, parse_gid_table_config}

module _ {J : Type 0} (env : Env J) where
  -- A table that has room for its groups, of which none is 0.
  pub record Fits (x : Section) : Type 0 where
    pub room : length x.gids ≤ x.gid_room
    pub below : x.gid_room ≤ env.app_max_gids
    pub positive : All (λ g. (g == 0) ≡ false) x.gids

  fill_gids-length :
      (n : ℕ) (js : List (Option J)) (gids : List ℕ)
      → length (fill_gids env n js gids) ≤ n + length gids
  unfolding fill_gids
  fill_gids-length zero js gids = ground arith
  fill_gids-length (suc n) [] gids = ground arith
  fill_gids-length (suc n) (j ∷ js) gids =
      let next = if gid_of env j == 0 then gids else gids ++ (gid_of env j ∷ []) in
      ground (arith, fill_gids-length n js next, length-append gids (gid_of env j ∷ []))

  next-positive :
      (g : ℕ) (gids : List ℕ)
      → All (λ g. (g == 0) ≡ false) gids
      → All (λ g. (g == 0) ≡ false) (if g == 0 then gids else gids ++ (g ∷ []))
  next-positive g gids h = elim (Bool-cases (g == 0)) [
    | inl e ↦ simp e h
    | inr e ↦ simp e (All-append (λ (g : ℕ). (g == 0) ≡ false) gids (g ∷ []) h (e, tt))
  ]

  fill_gids-positive :
      (n : ℕ) (js : List (Option J)) (gids : List ℕ)
      → All (λ g. (g == 0) ≡ false) gids
      → All (λ g. (g == 0) ≡ false) (fill_gids env n js gids)
  unfolding fill_gids
  fill_gids-positive zero js gids h = h
  fill_gids-positive (suc n) [] gids h = h
  fill_gids-positive (suc n) (j ∷ js) gids h =
      fill_gids-positive n js (if gid_of env j == 0 then gids else gids ++ (gid_of env j ∷ []))
        (next-positive (gid_of env j) gids h)

  gids_in-Fits : (x : Section) (o : Option (List (Option J))) → Fits x → Fits (gids_in env x o).1
  unfolding gids_in
  gids_in-Fits x none f = f
  gids_in-Fits x (some js) f = elim (Bool-cases (length js == 0)) [
    | inl z ↦ simp z f
    | inr z ↦ elim (Bool-cases env.malloc_ok) [
      | inr m ↦ simp (z, m) (record { room = ground arith; below = ground arith; positive = tt })
      | inl m ↦
          let n = if ltb (length js) env.app_max_gids then length js else env.app_max_gids in
          simp (z, m)
            (record {
              room = ground (arith, fill_gids-length n js []);
              below = ground arith;
              positive = fill_gids-positive n js [] tt;
            })
    ]
  ]

  -- ParseGidTableConfig keeps the table of a section inside what is allocated for it, which is never more
  -- than APP_MAX_GIDS, and lets no group 0 in, whatever the configuration holds.
  pub parse_gid_table_config-Fits :
      (config : J) (x : Section) → Fits x → Fits (parse_gid_table_config env config x).1
  unfolding parse_gid_table_config
  parse_gid_table_config-Fits config x f = gids_in-Fits x (env.items config) f
