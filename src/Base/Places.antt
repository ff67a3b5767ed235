-- ===== src/Base/Places.antt =====
-- Lists by their places: what stands at each index after an append, a write or a reversal.
use dionnex.Base.{
  ℕ, zero, suc, ◌-◌, ◌<◌, ◌≡◌, refl, ap₂, some, List, [], ◌∷◌, ◌++◌, if◌then◌else◌, ltb, ◌==◌,
  get_elem?, set, length, arith,
}
use mathlib.Core.List.{reverse_aux}

pub get_elem?-set :
    (xs : List ℕ) (i j v : ℕ)
    → i < length xs
    → get_elem? (set xs i v) j ≡ (if i == j then some v else get_elem? xs j)
get_elem?-set [] i j v h = elim h [ ]
get_elem?-set (x ∷ xs) zero zero v h = refl
get_elem?-set (x ∷ xs) zero (suc j) v h = ground arith
get_elem?-set (x ∷ xs) (suc i) zero v h = ground arith
get_elem?-set (x ∷ xs) (suc i) (suc j) v h = ground (arith, get_elem?-set xs i j v)

pub get_elem?_total {ℓ} :
    {A : Type ℓ} (xs : List A) (i : ℕ) → i < length xs → (a : A) × (get_elem? xs i ≡ some a)
get_elem?_total [] i h = elim h [ ]
get_elem?_total (x ∷ xs) zero h = (x, refl)
get_elem?_total (x ∷ xs) (suc i) h = get_elem?_total xs i (omega arith)

pub get_elem?-append :
    (xs ys : List ℕ) (i : ℕ)
    → get_elem? (xs ++ ys) i
      ≡ (if ltb i (length xs) then get_elem? xs i else get_elem? ys (i - length xs))
get_elem?-append [] ys i = ground arith
get_elem?-append (x ∷ xs) ys zero = ground arith
get_elem?-append (x ∷ xs) ys (suc i) = ground (arith, get_elem?-append xs ys i)

pub get_elem?-cons :
    (x : ℕ) (xs : List ℕ) (i : ℕ)
    → get_elem? (x ∷ xs) i ≡ (if i == 0 then some x else get_elem? xs (i - 1))
get_elem?-cons x xs zero = refl
get_elem?-cons x xs (suc i) = let back : suc i - 1 ≡ i = omega arith in rw back (ground arith)

pub get_elem?-reverse_aux :
    (xs ys : List ℕ) (i : ℕ)
    → get_elem? (reverse_aux xs ys) i ≡ (
        if ltb i (length xs)
        then get_elem? xs (length xs - 1 - i)
        else get_elem? ys (i - length xs))
get_elem?-reverse_aux [] ys i = ground arith
get_elem?-reverse_aux (x ∷ xs) ys i = ground (
  arith,
  get_elem?-reverse_aux xs (x ∷ ys) i,
  get_elem?-cons x ys (i - length xs),
  get_elem?-cons x xs (suc (length xs) - 1 - i),
)

-- Lists with the same places are equal.
pub eq_of_places : (xs ys : List ℕ) → ((i : ℕ) → get_elem? xs i ≡ get_elem? ys i) → xs ≡ ys
eq_of_places [] [] same = refl
eq_of_places [] (y ∷ ys) same = cc (same 0)
eq_of_places (x ∷ xs) [] same = cc (same 0)
eq_of_places (x ∷ xs) (y ∷ ys) same =
    let head : x ≡ y = cc (same 0) in ap₂ ◌∷◌ head (eq_of_places xs ys (λ i. same (suc i)))
