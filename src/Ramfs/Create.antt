-- ===== src/Ramfs/Create.antt =====
-- `ramfs_create`.
use dionnex.Base.{
  ℕ, zero, suc, ◌+◌, ◌≤◌, ◌≡◌, refl, sym, ap, ◌∙◌, ◌⊎◌, inl, inr, ◌&&◌, true, false, none, some,
  List, [], ◌∷◌, get_elem?, set, length, take, arith, Bool-cases,
}
use dionnex.Ramfs.{
  RamFile, same_name, ramfs_find, fill, create_from, ramfs_create, count_used, ramfs_get_file_count,
}
use dionnex.Ramfs.Names.{find_from-get, find_from-set, find_from-new}

-- The first free slot is filled, and counted.
create_from-fill :
    (files : List RamFile) (name : List ℕ) (i : ℕ)
    → (create_from files name i ≡ none) × (count_used files ≡ length files)
      ⊎ ((k : ℕ) × (f : RamFile) × (get_elem? files k ≡ some f)
          × (f.used ≡ false)
          × (create_from files name i ≡ some (set files k (fill f name (i + k))))
          × (count_used (set files k (fill f name (i + k))) ≡ count_used files + 1))
unfolding create_from count_used
create_from-fill [] name i = inl (refl, refl)
create_from-fill (h ∷ files) name i = elim (Bool-cases h.used) [
  | inr free ↦
      let at : i + 0 ≡ i = omega arith in
      inr (0, h, refl, free, rw (free, at) refl, rw free (omega arith))
  | inl taken ↦ elim (create_from-fill files name (i + 1)) [
    | inl (full, count) ↦ inl (rw (taken, full) refl, rw taken (omega (arith, count)))
    | inr (k, f, at, free, run, count) ↦
        let place : i + 1 + k ≡ i + suc k = omega arith in
        let run' = rw place at run in
        let count' = rw place at count in
        inr (suc k, f, at, free, rw (taken, run') refl, rw taken (omega (arith, count')))
  ]
]

same_name_self : (name : List ℕ) → same_name name name ≡ true
unfolding same_name
same_name_self [] = refl
same_name_self (c ∷ name) = ground (arith, same_name_self name)

take_all : (n : ℕ) (xs : List ℕ) → length xs ≤ n → take n xs ≡ xs
take_all zero [] h = refl
take_all zero (x ∷ xs) h = absurd (omega arith)
take_all (suc n) [] h = refl
take_all (suc n) (x ∷ xs) h = ap (λ t. x ∷ t) (take_all n xs (omega arith))

-- What `ramfs_create` gives when it succeeds: the name is found, every other name is found where it
-- was, and one file more is counted.
abbrev pub Grown : List RamFile → List ℕ → List RamFile → Type 0
Grown files name files' =
    ((k : ℕ) × (ramfs_find files' name ≡ some k))
    × ((other : List ℕ)
        → same_name name other ≡ false
        → ramfs_find files' other ≡ ramfs_find files other)
    × (ramfs_get_file_count files' ≡ ramfs_get_file_count files + 1)

-- For a name of at most 63 characters, `ramfs_create` fails if the name is there, and if every slot
-- is in use; otherwise the name is found afterwards, every other name is found where it was, and
-- `ramfs_get_file_count` counts one file more.
pub ramfs_create-Grown :
    (files : List RamFile) (name : List ℕ)
    → length name ≤ 63
    → (ramfs_create files name ≡ none)
        × (((k : ℕ) × (ramfs_find files name ≡ some k))
            ⊎ (ramfs_get_file_count files ≡ length files))
      ⊎ ((files' : List RamFile) × (ramfs_create files name ≡ some files')
          × Grown files name files')
unfolding ramfs_find ramfs_create ramfs_get_file_count
ramfs_create-Grown files name short = elim (find_from-get files name 0) [
  | inr (k, f, found, at, holds) ↦ inl (rw (found, ramfs_create) refl, inl (0 + k, found))
  | inl nowhere ↦ elim (create_from-fill files name 0) [
    | inl (full, count) ↦ inl (rw (nowhere, ramfs_create) full, inr count)
    | inr (k, f, at, free, run, count) ↦
        let whole = take_all 63 name short in
        let test : same_name (take 63 name) name ≡ true = rw whole (same_name_self name) in
        let new = find_from-new files name 0 k f (fill f name (0 + k)) at nowhere test in
        inr (
          set files k (fill f name (0 + k)),
          rw (nowhere, ramfs_create) run,
          (
            (0 + k, new),
            λ other apart.
                let differs : same_name (take 63 name) other ≡ false = rw whole apart in
                let was : (f.used && same_name f.name other) ≡ false = rw free refl in
                find_from-set files other 0 k f (fill f name (0 + k)) at (differs ∙ sym was),
            count,
          ),
        )
  ]
]
