-- ===== src/Base/Slices.antt =====
-- The slices of `Bytes`, where the whole is a front and a back.
use rp1_rust.Base.{
  ℕ, zero, suc, ◌+◌, ◌-◌, ◌≤◌, ◌≡◌, refl, some, [], ◌∷◌, ◌++◌, length, All, arith, ap, le→leb,
}
use rp1_rust.Base.Bytes.{Bytes, IsByte, get_from, get_to, get_range}
use rp1_rust.Base.Maybe.{>>=-eq-some}

pub get_to-append : (xs ys : Bytes) (n : ℕ) → length xs ≡ n → get_to (xs ++ ys) n ≡ some xs
unfolding get_to
get_to-append [] ys zero h = refl
get_to-append [] ys (suc n) h = absurd (omega arith)
get_to-append (x ∷ xs) ys zero h = absurd (omega arith)
get_to-append (x ∷ xs) ys (suc n) h = rw (get_to-append xs ys n (omega arith))

pub get_from-append : (xs ys : Bytes) (n : ℕ) → length xs ≡ n → get_from (xs ++ ys) n ≡ some ys
unfolding get_from
get_from-append [] ys zero h = refl
get_from-append [] ys (suc n) h = absurd (omega arith)
get_from-append (x ∷ xs) ys zero h = absurd (omega arith)
get_from-append (x ∷ xs) ys (suc n) h = get_from-append xs ys n (omega arith)

-- The two halves of a split are the whole.
pub get_to-get_from :
    (xs : Bytes) (n : ℕ) (front back : Bytes)
    → get_to xs n ≡ some front
    → get_from xs n ≡ some back
    → (xs ≡ front ++ back) × (length front ≡ n)
unfolding get_to get_from
get_to-get_from xs zero front back p q = ground arith
get_to-get_from [] (suc n) front back p q = cc
get_to-get_from (x ∷ xs) (suc n) front back p q =
    let (ys, e, f) = >>=-eq-some (get_to xs n) (λ ys. some (x ∷ ys)) p in
    ground (arith, get_to-get_from xs n ys back e q)

pub get_range-append :
    (xs ys zs : Bytes) (a b : ℕ)
    → length xs ≡ a
    → a + length ys ≡ b
    → get_range (xs ++ (ys ++ zs)) a b ≡ some ys
unfolding get_range
get_range-append xs ys zs a b p q =
    rw (le→leb a b (omega arith), get_from-append xs (ys ++ zs) a p)
      (get_to-append ys zs (b - a) (omega arith))

-- A list with `n` elements at least is a front of that length and a rest.
pub split_at :
    (n : ℕ) (xs : Bytes)
    → n ≤ length xs
    → (front : Bytes) × (back : Bytes) × (xs ≡ front ++ back) × (length front ≡ n)
split_at zero xs h = ([], xs, refl, refl)
split_at (suc n) [] h = elim h [ ]
split_at (suc n) (x ∷ xs) h =
    let (front, back, e, l) = split_at n xs (omega arith) in
    (x ∷ front, back, ap (λ (t : Bytes). x ∷ t) e, ap suc l)

pub All-append_right : (xs ys : Bytes) → All IsByte (xs ++ ys) → All IsByte ys
All-append_right [] ys h = h
All-append_right (x ∷ xs) ys h = All-append_right xs ys h.1
