-- ===== src/ModuleMgr/Suffix.antt =====
-- StringEndsWith finds exactly the ending.
use openharmony_mac_build.Common.{
  ℕ, zero, suc, ◌-◌, ◌≡◌, refl, ap, true, some, [], ◌∷◌, ◌++◌, length, length-append, arith,
}
use openharmony_mac_build.ModuleMgr.Names.{Text, same_text, drop, take, string_ends_with}

pub same_text_refl : (xs : Text) → same_text xs xs ≡ true
unfolding same_text
same_text_refl [] = refl
same_text_refl (x ∷ xs) = ground (arith, same_text_refl xs)

pub same_text→eq : (xs ys : Text) → same_text xs ys ≡ true → xs ≡ ys
unfolding same_text
same_text→eq [] [] e = refl
same_text→eq [] (y ∷ ys) e = cc
same_text→eq (x ∷ xs) [] e = cc
same_text→eq (x ∷ xs) (y ∷ ys) e = ground (arith, same_text→eq xs ys)

take-append-drop : (n : ℕ) (xs : Text) → take n xs ++ drop n xs ≡ xs
take-append-drop zero xs = refl
take-append-drop (suc n) [] = refl
take-append-drop (suc n) (x ∷ xs) = ap (λ zs. x ∷ zs) (take-append-drop n xs)

drop-append : (xs ys : Text) → drop (length xs) (xs ++ ys) ≡ ys
drop-append [] ys = refl
drop-append (x ∷ xs) ys = drop-append xs ys

-- A text that ends so is recognised, with the place where the ending begins.
pub string_ends_with-append : (xs end : Text) → string_ends_with (xs ++ end) end ≡ some (length xs)
unfolding string_ends_with
string_ends_with-append xs end =
    let n : length (xs ++ end) - length end ≡ length xs = omega (arith, length-append xs end) in
    rw n (rw (drop-append xs end) (ground (arith, same_text_refl end, length-append xs end)))

-- And nothing else is: what is cut off at the place and the ending make up the text.
pub string_ends_with_sound :
    (src end : Text) {n : ℕ} → string_ends_with src end ≡ some n → src ≡ take n src ++ end
unfolding string_ends_with
string_ends_with_sound src end {n} e =
    let k = length src - length end in
    ground (arith, take-append-drop k src, same_text→eq (drop k src) end)
