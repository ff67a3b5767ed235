-- ===== src/Ramfs/Names.antt =====
-- The search for a name, and what the operations do to it.
use dionnex.Base.{
  ℕ, zero, suc, ◌+◌, ◌≡◌, refl, ap, ◌⊎◌, inl, inr, ◌&&◌, true, none, some, List, [], ◌∷◌, get_elem?,
  set, arith, Bool-cases,
}
use dionnex.Ramfs.{RamFile, same_name, find_from}

-- The slot that `find_from` gives holds the name, and is in range.
pub find_from-get :
    (files : List RamFile) (name : List ℕ) (i : ℕ)
    → find_from files name i ≡ none
      ⊎ ((k : ℕ) × (f : RamFile) × (find_from files name i ≡ some (i + k))
          × (get_elem? files k ≡ some f)
          × ((f.used && same_name f.name name) ≡ true))
unfolding find_from
find_from-get [] name i = inl refl
find_from-get (f ∷ files) name i = elim (Bool-cases (f.used && same_name f.name name)) [
  | inl here ↦ inr (0, f, rw here (ap some (omega arith)), refl, here)
  | inr there ↦ elim (find_from-get files name (i + 1)) [
    | inl nowhere ↦ inl (rw (there, nowhere) refl)
    | inr (k, g, found, at, holds) ↦
        inr (suc k, g, rw (there, found) (ap some (omega arith)), at, holds)
  ]
]

some-injective : {a b : RamFile} → some a ≡ some b → a ≡ b
some-injective e = ground (arith, e)

-- A change of one slot that does not change the test of the loop keeps the search.
pub find_from-set :
    (files : List RamFile) (name : List ℕ) (i k : ℕ) (f g : RamFile)
    → get_elem? files k ≡ some f
    → (g.used && same_name g.name name) ≡ (f.used && same_name f.name name)
    → find_from (set files k g) name i ≡ find_from files name i
unfolding find_from
find_from-set [] name i k f g at test = refl
find_from-set (h ∷ files) name i zero f g at test =
    let e : h ≡ f = some-injective at in
    let same : (g.used && same_name g.name name) ≡ (h.used && same_name h.name name) = rw e test in
    rw same refl
find_from-set (h ∷ files) name i (suc k) f g at test =
    rw (find_from-set files name (i + 1) k f g at test) refl

-- A name that was nowhere is found where it is put.
pub find_from-new :
    (files : List RamFile) (name : List ℕ) (i k : ℕ) (f g : RamFile)
    → get_elem? files k ≡ some f
    → find_from files name i ≡ none
    → (g.used && same_name g.name name) ≡ true
    → find_from (set files k g) name i ≡ some (i + k)
unfolding find_from
find_from-new [] name i k f g at nowhere test = absurd (ground (arith, at))
find_from-new (h ∷ files) name i zero f g at nowhere test = rw test (ap some (omega arith))
find_from-new (h ∷ files) name i (suc k) f g at nowhere test =
    elim (Bool-cases (h.used && same_name h.name name)) [
      | inl here ↦ absurd (ground (arith, rw here at nowhere))
      | inr there ↦
          rw (there, find_from-new files name (i + 1) k f g at (rw there at nowhere) test)
            (ap some (omega arith))
    ]

pub same_name_refl : (name : List ℕ) → same_name name name ≡ true
unfolding same_name
same_name_refl [] = refl
same_name_refl (c ∷ name) = ground (arith, same_name_refl name)

pub same_name_eq : (a b : List ℕ) → same_name a b ≡ true → a ≡ b
unfolding same_name
same_name_eq [] [] e = refl
same_name_eq [] (y ∷ b) e = absurd (ground (arith, e))
same_name_eq (x ∷ a) [] e = absurd (ground (arith, e))
same_name_eq (x ∷ a) (y ∷ b) e =
    let head : x ≡ y = ground (arith, e) in
    rw head (ap (λ (s : List ℕ). y ∷ s) (same_name_eq a b (ground (arith, e))))
