-- ===== src/Runner/Text.antt =====
-- Texts of the runner, as lists of code points, and their equality.
use rp1_rust.Base.{
  ℕ, zero, suc, ◌+◌, ◌/◌, ◌%◌, ◌++◌, ltb, if◌then◌else◌, ◌≡◌, refl, Bool, true, false, ◌&&◌, List,
  [], ◌∷◌, ◌==◌, ==_refl, arith, length, length-append, ◌<◌,
}

abbrev pub Text : Type 0
Text = List ℕ

unfoldable pub same_text : Text → Text → Bool
same_text [] [] = true
same_text [] (y ∷ ys) = false
same_text (x ∷ xs) [] = false
same_text (x ∷ xs) (y ∷ ys) = (x == y) && same_text xs ys

pub same_text→eq : (xs ys : Text) → same_text xs ys ≡ true → xs ≡ ys
unfolding same_text
same_text→eq [] [] h = refl
same_text→eq [] (y ∷ ys) h = cc
same_text→eq (x ∷ xs) [] h = cc
same_text→eq (x ∷ xs) (y ∷ ys) h = ground (arith, same_text→eq xs ys)

pub same_text_refl : (xs : Text) → same_text xs xs ≡ true
unfolding same_text
same_text_refl [] = refl
same_text_refl (x ∷ xs) = rw (==_refl x) (same_text_refl xs)

-- The decimal digits of a number, the last `fuel` of them.
unfoldable pub digits : ℕ → ℕ → Text
digits zero n = []
digits (suc fuel) n = elim (ltb n 10) [
  | true ↦ (48 + n) ∷ []
  | false ↦ digits fuel (n / 10) ++ (48 + n % 10) ∷ []
]

-- `to_string` of a `u64`: a number has fewer digits than it counts, or one.
unfoldable pub to_decimal : ℕ → Text
unfolding digits
to_decimal n = digits (suc n) n

pub append-cons-not-nil : (xs : Text) (c : ℕ) (cs : Text) → (length (xs ++ c ∷ cs) == 0) ≡ false
append-cons-not-nil xs c cs =
    let total = length-append xs (c ∷ cs) in
    let large : 0 < length (xs ++ c ∷ cs) = omega arith in ground arith

-- What is not at an end stays.
pub kept : (b : Bool) (xs : Text) → (if b && false then [] else xs) ≡ xs
kept true xs = refl
kept false xs = refl
