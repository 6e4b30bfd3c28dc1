-- ===== src/Service/Caps.antt =====
-- The capability sets of a service: GetInvalidCaps, DropCapability, SetAllAmbientCapability and the
-- capability part of SetPerms in init_common_service.c.
pub mod Invalid
use Prim.Native.Nat.{bit_or}
use openharmony_mac_build.Common.{
  ℕ, zero, suc, ◌+◌, ◌-◌, Bool, true, false, Option, none, some, List, [], ◌∷◌, if◌then◌else◌, ltb,
  ◌==◌, length,
}
use openharmony_mac_build.Service.Types.{
  Env, Proc, Result, ok, fails, fault, Trace, call, drop_cap, set_ambient, check_call, ◌>>=◌, ecap,
  failure,
}

-- The inner loop of GetInvalidCaps. `flags` keeps its old value where the list is empty.
unfoldable pub scan_caps : Bool → ℕ → List ℕ → Bool
scan_caps flags cap [] = flags
scan_caps flags cap (c ∷ cs) = if cap == c then true else scan_caps false cap cs

-- The outer loop: `n` rounds from `cap` on.
unfoldable pub invalid_caps_from : ℕ → ℕ → Bool → List ℕ → List ℕ
unfolding scan_caps
invalid_caps_from zero cap flags caps = []
invalid_caps_from (suc n) cap flags caps =
    let found = scan_caps flags cap caps in
    let rest = invalid_caps_from n (suc cap) found caps in if found then rest else cap ∷ rest

unfoldable pub get_invalid_caps : ℕ → List ℕ → List ℕ
unfolding invalid_caps_from
get_invalid_caps last caps = invalid_caps_from (suc last) 0 false caps

-- `int invalidCnt`, where it is not negative.
abbrev pub invalid_cnt : ℕ → List ℕ → ℕ
invalid_cnt last caps = suc last - length caps

unfoldable pub drop_caps : Env → List ℕ → Proc → Proc
drop_caps env [] p = p
drop_caps env (c ∷ cs) p =
    let q = call (drop_cap c) p in
    let rest = drop_caps env cs q in if env.step_ok q.trace then rest else q

-- DropCapability. A negative count makes calloc fail; the array holds `invalid_cnt` cells.
unfoldable pub drop_capability : Env → List ℕ → Proc → Result
unfolding get_invalid_caps drop_caps
drop_capability env caps p =
    if ltb (suc env.last_cap) (length caps)
    then ok p
    else if env.alloc_ok
    then if ltb (invalid_cnt env.last_cap caps) (length (get_invalid_caps env.last_cap caps))
      then fault p
      else ok (drop_caps env (get_invalid_caps env.last_cap caps) p)
    else ok p

-- capData as one word per index: effective, permitted and inheritable are always equal.
unfoldable pub or_at : ℕ → ℕ → List ℕ → Option (List ℕ)
or_at i mask [] = none
or_at zero mask (w ∷ ws) = some (bit_or w mask ∷ ws)
or_at (suc i) mask (w ∷ ws) = elim (or_at i mask ws) [ none ↦ none | some vs ↦ some (w ∷ vs) ]

fill_words : ℕ → List ℕ → List ℕ
fill_words w [] = []
fill_words w (x ∷ xs) = w ∷ fill_words w xs

-- The loop of SetPerms that builds capData; `none` is an index past the array.
unfoldable pub cap_words : Env → List ℕ → List ℕ → Option (List ℕ)
unfolding or_at fill_words
cap_words env [] ws = some ws
cap_words env (c ∷ cs) ws =
    if c == env.full_cap
    then some (fill_words env.full_cap ws)
    else elim (or_at (env.cap_to_index c) (env.cap_to_mask c) ws) [
      | none ↦ none
      | some vs ↦ cap_words env cs vs
    ]

-- SetAllAmbientCapability, `n` rounds from `cap` on.
unfoldable pub set_all_ambient : Env → ℕ → ℕ → Proc → Result
set_all_ambient env zero cap p = ok p
set_all_ambient env (suc n) cap p =
    let q = call (set_ambient cap) p in
    let rest = set_all_ambient env n (suc cap) q in
    if env.step_ok q.trace then rest else fails ecap q

-- How the ambient loop of SetPerms ends: `all` is its `return 0` from the middle, which leaves the
-- caller too.
pub data Ambient : Type 0 where
  loop_done : Proc → Ambient
  all_set : Proc → Ambient
  refused : Proc → Ambient

unfoldable pub ambient_end : Result → Ambient
ambient_end (ok q) = all_set q
ambient_end (fails c q) = refused q
ambient_end (fault q) = refused q

unfoldable pub all_ambient : Env → Proc → Ambient
unfolding set_all_ambient ambient_end
all_ambient env p = ambient_end (set_all_ambient env (suc env.last_cap) 0 p)

unfoldable pub set_ambients : Env → List ℕ → Proc → Ambient
unfolding all_ambient
set_ambients env [] p = loop_done p
set_ambients env (c ∷ cs) p =
    let q = call (set_ambient c) p in
    let rest = set_ambients env cs q in
    let everything = all_ambient env p in
    if c == env.full_cap then everything else (if env.step_ok q.trace then rest else refused q)
