-- ===== src/Spawner/Remount/Path.antt =====
-- What GetArkWebInstallPath leaves of the value.
use openharmony_mac_build.Common.{
  ℕ, ◌≡◌, ◌∙◌, sym, refl, ap, ◌⊎◌, inl, inr, Bool, true, not, ◌&&◌, none, some, List, [], ◌∷◌, ◌++◌,
  ◌==◌, ==→eq, Bool-cases,
}
use openharmony_mac_build.Spawner.Remount.{cut_path, turned, unturned, get_ark_web_install_path}

append-cons : (xs ys : List ℕ) (c : ℕ) → (xs ++ (c ∷ [])) ++ ys ≡ xs ++ (c ∷ ys)
append-cons [] ys c = refl
append-cons (x ∷ xs) ys c = ap (λ (l : List ℕ). x ∷ l) (append-cons xs ys c)

-- The reverse of a list, before another.
abbrev over_to : List ℕ → List ℕ → List ℕ
over_to [] ys = ys
over_to (x ∷ xs) ys = over_to xs (x ∷ ys)

over_to-turned : (xs ys : List ℕ) → turned xs ++ ys ≡ over_to xs ys
unfolding turned
over_to-turned [] ys = refl
over_to-turned (x ∷ xs) ys = append-cons (turned xs) ys x ∙ over_to-turned xs (x ∷ ys)

over_to-twice : (xs ys zs : List ℕ) → over_to (over_to xs ys) zs ≡ over_to ys (xs ++ zs)
over_to-twice [] ys zs = refl
over_to-twice (x ∷ xs) ys zs = over_to-twice xs (x ∷ ys) zs

abbrev pub no_slash : List ℕ → Bool
no_slash [] = true
no_slash (c ∷ cs) = not (c == b'/') && no_slash cs

-- How a reversed path is cut: what is before the last slash, which comes after in the reverse.
cut_path-cases :
    (cs acc : List ℕ)
    → no_slash acc ≡ true
    → ((cut_path cs ≡ none) × (no_slash (over_to cs acc) ≡ true))
      ⊎ ((r t : List ℕ) × (cut_path cs ≡ some r)
          × (over_to cs acc ≡ over_to r (b'/' ∷ t))
          × (no_slash t ≡ true))
unfolding cut_path
cut_path-cases [] acc e = inl (refl, e)
cut_path-cases (c ∷ cs) acc e = elim (Bool-cases (c == b'/')) [
  | inl d ↦ inr (cs, acc, simp d refl, ap (λ (x : ℕ). over_to cs (x ∷ acc)) (==→eq c b'/' d), e)
  | inr d ↦ simp d (cut_path-cases cs (c ∷ acc) (simp d e))
]

append-nil : (xs : List ℕ) → xs ++ [] ≡ xs
append-nil [] = refl
append-nil (x ∷ xs) = ap (λ (l : List ℕ). x ∷ l) (append-nil xs)

turn_back : (v : List ℕ) → over_to (turned v) [] ≡ v
turn_back v =
    ap (λ (l : List ℕ). over_to l []) (sym (append-nil (turned v)) ∙ over_to-turned v [])
    ∙ over_to-twice v [] []
    ∙ append-nil v

-- GetArkWebInstallPath leaves what is before the last slash of the value, and fails just if there is no
-- slash in it.
pub get_ark_web_install_path-no_slash :
    (v : List ℕ)
    → ((get_ark_web_install_path v ≡ none) × (no_slash v ≡ true))
      ⊎ ((r t : List ℕ) × (get_ark_web_install_path v ≡ some r)
          × (v ≡ r ++ (b'/' ∷ t))
          × (no_slash t ≡ true))
unfolding get_ark_web_install_path unturned
get_ark_web_install_path-no_slash v = elim (cut_path-cases (turned v) [] refl) [
  | inl (e, n) ↦ inl (ap unturned e, sym (ap no_slash (turn_back v)) ∙ n)
  | inr (r, t, e, o, n) ↦
      inr (turned r, t, ap unturned e, sym (turn_back v) ∙ o ∙ sym (over_to-turned r (b'/' ∷ t)), n)
]
