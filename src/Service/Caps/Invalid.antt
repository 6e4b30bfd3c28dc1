-- ===== src/Service/Caps/Invalid.antt =====
-- Which capabilities GetInvalidCaps collects, and whether they fit the array that DropCapability
-- allocates for them.
use openharmony_mac_build.Common.{
  ℕ, zero, suc, ◌+◌, ◌≤◌, ◌<◌, ◌≡◌, ◌≢◌, refl, ◌∙◌, ap, Bool, true, false, not, ◌&&◌, List, [], ◌∷◌,
  if◌then◌else◌, ltb, leb, ◌==◌, length, count_if, All, arith,
}
use openharmony_mac_build.Service.Types.{Env, Proc, fault}
use openharmony_mac_build.Service.Caps.{
  scan_caps, invalid_caps_from, get_invalid_caps, drop_capability,
}

-- Membership, as a test.
abbrev pub has : ℕ → List ℕ → Bool
has k [] = false
has k (x ∷ xs) = if k == x then true else has k xs

-- No capability is listed twice.
abbrev pub IsDistinct : List ℕ → Type 0
IsDistinct [] = Unit {0}
IsDistinct (x ∷ xs) = (has x xs ≡ false) × IsDistinct xs

scan_caps-has : (k : ℕ) (cs : List ℕ) → scan_caps false k cs ≡ has k cs
unfolding scan_caps
scan_caps-has k [] = refl
scan_caps-has k (c ∷ cs) = ground (arith, scan_caps-has k cs)

-- The carried flag matters for the empty list alone, where it is never raised.
scan_caps_flag :
    (f : Bool) (k : ℕ) (cs : List ℕ) → (cs ≡ [] → f ≡ false) → scan_caps f k cs ≡ has k cs
unfolding scan_caps
scan_caps_flag f k [] h = h refl
scan_caps_flag f k (c ∷ cs) h = ground (arith, scan_caps-has k cs)

-- The specification: the numbers from `cap` on, `n` of them, that the list does not hold.
abbrev missing : ℕ → ℕ → List ℕ → List ℕ
missing zero cap caps = []
missing (suc n) cap caps =
    let rest = missing n (suc cap) caps in if has cap caps then rest else cap ∷ rest

has-nil : (k : ℕ) (cs : List ℕ) → cs ≡ [] → has k cs ≡ false
has-nil k [] e = refl
has-nil k (c ∷ cs) e = ground arith

invalid_caps_from-missing :
    (n cap : ℕ) (f : Bool) (caps : List ℕ)
    → (caps ≡ [] → f ≡ false)
    → invalid_caps_from n cap f caps ≡ missing n cap caps
unfolding invalid_caps_from
invalid_caps_from-missing zero cap f caps h = refl
invalid_caps_from-missing (suc n) cap f caps h = rw (
  scan_caps_flag f cap caps h,
  invalid_caps_from-missing n (suc cap) (has cap caps) caps (has-nil cap caps),
)

has-missing :
    (n cap k : ℕ) (caps : List ℕ)
    → has k (missing n cap caps) ≡ (leb cap k && ltb k (cap + n) && not (has k caps))
has-missing zero cap k caps = ground arith
has-missing (suc n) cap k caps =
    ground (arith, has-missing n (suc cap) k caps, ap (λ (c : ℕ). has c caps) {x = cap} {y = k})

-- GetInvalidCaps collects exactly the capabilities up to the last that the list does not hold.
pub has-get_invalid_caps :
    (last k : ℕ) (caps : List ℕ)
    → has k (get_invalid_caps last caps) ≡ (leb k last && not (has k caps))
unfolding get_invalid_caps
has-get_invalid_caps last k caps =
    rw (invalid_caps_from-missing (suc last) 0 false caps (λ e. refl))
      (has-missing (suc last) 0 k caps ∙ ground arith)

-- How many of the numbers below `n` the list holds.
abbrev present : ℕ → ℕ → List ℕ → ℕ
present zero cap caps = 0
present (suc n) cap caps = (if has cap caps then 1 else 0) + present n (suc cap) caps

length-missing : (n cap : ℕ) (caps : List ℕ) → length (missing n cap caps) + present n cap caps ≡ n
length-missing zero cap caps = omega arith
length-missing (suc n) cap caps = ground (arith, length-missing n (suc cap) caps)

abbrev in_range : ℕ → ℕ → ℕ → Bool
in_range cap n k = leb cap k && ltb k (cap + n)

present-cons :
    (n cap x : ℕ) (xs : List ℕ)
    → has x xs ≡ false
    → present n cap (x ∷ xs) ≡ (if in_range cap n x then 1 else 0) + present n cap xs
present-cons zero cap x xs h = ground arith
present-cons (suc n) cap x xs h = ground (arith, present-cons n (suc cap) x xs h)

present-nil : (n cap : ℕ) → present n cap [] ≡ 0
present-nil zero cap = refl
present-nil (suc n) cap = omega (arith, present-nil n (suc cap))

present-count_if :
    (n cap : ℕ) (caps : List ℕ)
    → IsDistinct caps
    → present n cap caps ≡ count_if (in_range cap n) caps
present-count_if n cap [] d = present-nil n cap
present-count_if n cap (x ∷ xs) d =
    present-cons n cap x xs d.0
    ∙ ap (λ k. (if in_range cap n x then 1 else 0) + k) (present-count_if n cap xs d.1)

count_if-eq :
    (last : ℕ) (caps : List ℕ)
    → count_if (in_range 0 (suc last)) caps ≡ count_if (λ c. leb c last) caps
count_if-eq last [] = refl
count_if-eq last (c ∷ cs) = ground (arith, count_if-eq last cs)

-- For distinct capabilities: what GetInvalidCaps writes and the listed capabilities in range add up
-- to all capabilities.
pub length-get_invalid_caps :
    (last : ℕ) (caps : List ℕ)
    → IsDistinct caps
    → length (get_invalid_caps last caps) + count_if (λ c. leb c last) caps ≡ suc last
unfolding get_invalid_caps
length-get_invalid_caps last caps d =
    rw (invalid_caps_from-missing (suc last) 0 false caps (λ e. refl)) (
      omega (
        arith,
        length-missing (suc last) 0 caps,
        present-count_if (suc last) 0 caps d,
        count_if-eq last caps,
      ))

count_if-All :
    (last : ℕ) (caps : List ℕ)
    → All (λ c. c ≤ last) caps
    → count_if (λ c. leb c last) caps ≡ length caps
count_if-All last [] h = refl
count_if-All last (c ∷ cs) h = ground (arith, count_if-All last cs)

count_if-le : (p : ℕ → Bool) (caps : List ℕ) → count_if p caps ≤ length caps
count_if-le p [] = omega arith
count_if-le p (c ∷ cs) = ground (arith, count_if-le p cs)

count_if_some :
    (last k : ℕ) (caps : List ℕ)
    → has k caps ≡ true
    → last < k
    → count_if (λ c. leb c last) caps < length caps
count_if_some last k [] h l = ground arith
count_if_some last k (c ∷ cs) h l =
    ground (arith, count_if_some last k cs, count_if-le (λ c. leb c last) cs)

-- For distinct capabilities, all up to the last, no write of DropCapability is out of bounds.
pub drop_capability_fits :
    (env : Env) (caps : List ℕ) (p q : Proc)
    → IsDistinct caps
    → All (λ c. c ≤ env.last_cap) caps
    → drop_capability env caps p ≢ fault q
unfolding drop_capability
drop_capability_fits env caps p q d h e =
    ground (arith, length-get_invalid_caps env.last_cap caps d, count_if-All env.last_cap caps h)

-- If there is memory, and distinct capabilities, not more than there are in all, hold one beyond
-- the last (as FULL_CAP is), DropCapability writes past the end of its array.
pub drop_capability_overflow :
    (env : Env) (caps : List ℕ) (p : Proc) (k : ℕ)
    → IsDistinct caps
    → has k caps ≡ true
    → env.last_cap < k
    → length caps ≤ suc env.last_cap
    → env.alloc_ok ≡ true
    → drop_capability env caps p ≡ fault p
unfolding drop_capability
drop_capability_overflow env caps p k d h l n a =
    ground
      (arith, length-get_invalid_caps env.last_cap caps d, count_if_some env.last_cap k caps h l)
