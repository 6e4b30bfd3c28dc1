-- ===== src/Hdf/Split.antt =====
-- Laws of the search for the first element that passes a test.
use openharmony_mac_build.Common.{
  ◌≡◌, Bool, true, false, some, List, [], ◌∷◌, ◌++◌, All, Bool-cases, Option-cases, inl, inr, arith,
}
use openharmony_mac_build.Hdf.Types.{Split, split_first, put_back}

module _ {ℓ} {A : Type ℓ} (test : A → Bool) where
  -- What a search finds passes the test, nothing before it does, and it stands in the list.
  pub record Finds (xs : List A) (s : Split A) : Type ℓ where
    pub whole : xs ≡ put_back s s.item
    pub passes : test s.item ≡ true
    pub first : All (λ x. test x ≡ false) s.before

  pub split_first-Finds : (xs : List A) (s : Split A) → split_first test xs ≡ some s → Finds xs s
  unfolding split_first
  split_first-Finds [] s e = cc
  split_first-Finds (x ∷ xs) s e = elim (Bool-cases (test x)) [
    | inl p ↦ ground (arith, p)
    | inr n ↦ elim (Option-cases (split_first test xs)) [
      | inl m ↦ ground (arith, m, n)
      | inr (r, m) ↦ ground (arith, split_first-Finds xs r m, n)
    ]
  ]

  -- The search finds whatever stands first among the elements that pass.
  pub split_first-append :
      (xs : List A) (y : A) (zs : List A)
      → All (λ x. test x ≡ false) xs
      → test y ≡ true
      → split_first test (xs ++ y ∷ zs) ≡ some (record { before = xs; item = y; after = zs })
  unfolding split_first
  split_first-append [] y zs h p = ground arith
  split_first-append (x ∷ xs) y zs h p = ground (arith, split_first-append xs y zs h.1 p)
