-- ===== src/ModuleMgr/Names.antt =====
-- Names and paths of modules, as lists of character codes: ModuleCompare, StringEndsWith and the path
-- that ModuleInstall builds.
use Prim.Native.Char.{code}
use Prim.Native.String.{String}
use openharmony_mac_build.Common.{
  ℕ, zero, suc, ◌-◌, Bool, true, false, ◌||◌, ◌&&◌, Option, none, some, List, [], ◌∷◌, ◌++◌,
  if◌then◌else◌, ◌==◌, ltb, length,
}

abbrev pub Text : Type 0
Text = List ℕ

abbrev pub codes : String → Text
codes String.[] = []
codes (String.◌∷◌ c s) = code c ∷ codes s

abbrev pub slash : ℕ
slash = b'/'

-- strcmp
unfoldable pub same_text : Text → Text → Bool
same_text [] [] = true
same_text [] (y ∷ ys) = false
same_text (x ∷ xs) [] = false
same_text (x ∷ xs) (y ∷ ys) = x == y && same_text xs ys

abbrev pub has_slash : Text → Bool
has_slash [] = false
has_slash (c ∷ cs) = c == slash || has_slash cs

-- strrchr(name, '/') + 1
unfoldable pub last_part : Text → Text
last_part [] = []
last_part (c ∷ cs) = let rest = last_part cs in if c == slash && not_in cs then cs else rest
  where
    not_in : Text → Bool
    not_in ds = if has_slash ds then false else true

-- `name + LIB_NAME_LEN` where the name begins with "lib".
unfoldable pub skip_lib : Text → Text
skip_lib (a ∷ b ∷ c ∷ cs) = if a == b'l' && b == b'i' && c == b'b' then cs else a ∷ b ∷ c ∷ cs
skip_lib cs = cs

abbrev pub is_absolute : Text → Bool
is_absolute [] = false
is_absolute (c ∷ cs) = c == slash

-- The name by which ModuleCompare knows a module.
unfoldable pub compare_name : Text → Text
unfolding last_part skip_lib
compare_name name = skip_lib (if is_absolute name then last_part name else name)

abbrev pub drop : ℕ → Text → Text
drop zero xs = xs
drop (suc n) [] = []
drop (suc n) (x ∷ xs) = drop n xs

abbrev pub take : ℕ → Text → Text
take zero xs = []
take (suc n) [] = []
take (suc n) (x ∷ xs) = x ∷ take n xs

-- StringEndsWith: where the ending begins; `none` is -1.
unfoldable pub string_ends_with : Text → Text → Option ℕ
unfolding same_text
string_ends_with src end =
    if ltb (length src) (length end)
    then none
    else (if same_text (drop (length src - length end) src) end
        then some (length src - length end)
        else none)

abbrev pub module_suffix : Text
module_suffix = codes ".z.so"

-- What the build and the system fix.
pub record Paths : Type 0 where
  pub ut_path : Text  -- STARTUP_INIT_UT_PATH
  pub lib_name : Text  -- MODULE_LIB_NAME
  pub updater_mode : Bool  -- whether InUpdaterMode() is not 0
  pub path_max : ℕ

-- The path in ModuleInstall, before it is checked for its length.
unfoldable pub module_path : Paths → Text → Text → Text
module_path c mgr_name name =
    if is_absolute name
    then c.ut_path ++ (name ++ module_suffix)
    else c.ut_path
      ++ ((if c.updater_mode then codes "/" else codes "/system/")
          ++ (c.lib_name ++ (codes "/" ++ (mgr_name ++ (codes "/lib" ++ (name ++ module_suffix))))))
