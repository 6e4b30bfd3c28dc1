-- ===== src/Sandbox/Gids.antt =====
-- ParseGidTableConfig: the groups of a section.
pub mod Laws
use openharmony_mac_build.Common.{
  ℕ, zero, suc, String, Bool, true, false, not, Option, none, some, List, [], ◌∷◌, ◌++◌, length,
  if◌then◌else◌, ltb, ◌==◌,
}
use openharmony_mac_build.Sandbox.State.{Section, Code, done, system_error, Env}

module _ {J : Type 0} (env : Env J) where
  -- The text of an item, which GetStringValue takes also of what is no text.
  gid_text : Option J → ℕ
  gid_text none = env.decode_gid none
  gid_text (some j) = env.decode_gid (env.text j)

  gid_number : J → Option ℕ → ℕ
  unfolding gid_text
  gid_number j none = gid_text (some j)
  gid_number j (some g) = g

  -- The group of an item: its number, or the group of its name.
  unfoldable pub gid_of : Option J → ℕ
  unfolding gid_text gid_number
  gid_of none = gid_text none
  gid_of (some j) = gid_number j (env.number j)

  -- The table after the first `n` items; gidCount is its length.
  unfoldable pub fill_gids : ℕ → List (Option J) → List ℕ → List ℕ
  fill_gids zero js gids = gids
  fill_gids (suc n) [] gids = gids
  fill_gids (suc n) (j ∷ js) gids =
      fill_gids n js (if gid_of j == 0 then gids else gids ++ (gid_of j ∷ []))

  gids_in : Section → Option (List (Option J)) → Code × Section
  gids_in x none = (done, x)
  gids_in x (some js) =
      let size = length js in
      let len = if ltb size env.app_max_gids then size else env.app_max_gids in
      let y = record x { gids = fill_gids len js []; gid_room = len } in
      if size == 0
      then (done, x)
      else (if env.malloc_ok
          then (done, y)
          else (system_error, record x { gids = []; gid_room = 0 }))

  -- ParseGidTableConfig; a table that is there already is replaced.
  unfoldable pub parse_gid_table_config : J → Section → Code × Section
  unfolding gids_in
  parse_gid_table_config config x = gids_in x (env.items config)
